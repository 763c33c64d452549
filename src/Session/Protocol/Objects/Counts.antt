-- ===== src/Session/Protocol/Objects/Counts.antt =====
-- The uses of an object on either side, through the operations of
-- session/standalone/shm/arena_lend/shm_session_data.cpp.
use ipc_shm_arena_lend.Base.{
  ℕ, ◌≡◌, ◌+◌, ◌-◌, ◌<◌, ◌^◌, true, ◌&&◌, none, some, List, [], ◌∷◌, if◌then◌else◌, ◌==◌, arith,
  Option-cases, Bool-cases, inl, inr, sym, refl, ap, subst,
}
use ipc_shm_arena_lend.Base.Dict.{Dict, find, is_some, find-emplace, find-erase}
use ipc_shm_arena_lend.Pool.{Pool, determine_offset}
use ipc_shm_arena_lend.Pool.Divisible.{DivisiblePool}
use ipc_shm_arena_lend.AddressMap.{divisible_like}
use ipc_shm_arena_lend.Collection.{lookup_shm_pool}
use ipc_shm_arena_lend.Session.Lender.{ObjectData, PoolData, LenderCollection, register_object_at}
use ipc_shm_arena_lend.Session.Lender as Lender
use ipc_shm_arena_lend.Session.Lender.Lend.{lent, lent-register_object_at, lent-deregister_object}
use ipc_shm_arena_lend.Session.Borrower.{BorrowerCollection}
use ipc_shm_arena_lend.Session.Borrower as Borrower
use ipc_shm_arena_lend.Session.Borrower.Counts.{uses}
use ipc_shm_arena_lend.Session.Protocol.Objects.{Handle, same, count, take_out}

same-same : (h x k : Handle) → same x h ≡ true → same x k ≡ same h k
unfolding same
same-same h x k e = ground arith

same_sym : (h k : Handle) → same h k ≡ same k h
unfolding same
same_sym h k = ground arith

pub count-take_out :
    (h k : Handle) (xs : List Handle)
    → 0 < count h xs
    → count k (take_out h xs) + (if same h k then 1 else 0) ≡ count k xs
unfolding count take_out
count-take_out h k [] l = absurd (ground (arith, l))
count-take_out h k (x ∷ xs) l = elim (Bool-cases (same x h)) [
  | inl e ↦ rw (e, same-same h x k e) (ground arith)
  | inr e ↦ let rest = count-take_out h k xs (ground (arith, e, l)) in rw e (ground (arith, rest))
]

-- The uses of an object in a collection of the lender.
unfoldable pub lent_uses : LenderCollection → ℕ → ℕ → ℕ
unfolding lent
lent_uses c i o = elim (lent c i o) [ none ↦ 0 | some e ↦ e.use_count ]

pub is_registered :
    (c : LenderCollection) (id offset object : ℕ)
    → (register_object_at c id offset object).1 ≡ true
    → is_some (find id c) ≡ true
unfolding register_object_at
is_registered c id offset object r = elim (Option-cases (find id c)) [
  | inl e ↦ absurd (ground (arith, r, e))
  | inr (d, e) ↦ ground (arith, e)
]

lent_uses-register_object_at :
    (c : LenderCollection) (id offset object i o : ℕ)
    → (register_object_at c id offset object).1 ≡ true
    → lent_uses c id offset + 1 < 2 ^ 32
    → lent_uses (register_object_at c id offset object).0 i o
      ≡ (if (id == i) && (offset == o) then lent_uses c i o + 1 else lent_uses c i o)
unfolding lent_uses
lent_uses-register_object_at c id offset object i o r l =
    let law = lent-register_object_at c id offset object i o (is_registered c id offset object r) in
    elim (Option-cases (lent c i o)) [
      | inl e ↦ ground (arith, law, e)
      | inr (d, e) ↦ ground (arith, law, e)
    ]

pub register_object-register_object_at :
    (pools : Dict DivisiblePool) (c : LenderCollection) (object id offset : ℕ)
    → (Lender.register_object pools c object).1 ≡ some (id, offset)
    → register_object_at c id offset object ≡ ((Lender.register_object pools c object).0, true)
unfolding Lender.register_object
register_object-register_object_at pools c object id offset r =
    elim (Option-cases (lookup_shm_pool pools object)) [
      | inl out ↦ absurd (ground (arith, r, out))
      | inr (p, e) ↦ elim (Option-cases (determine_offset p.pool object)) [
        | inl out ↦ absurd (ground (arith, r, e, out))
        | inr (x, f) ↦ elim (Bool-cases (register_object_at c p.pool.id x object).1) [
          | inr refused ↦ absurd (ground (arith, r, e, f, refused))
          | inl done ↦
              let same_id : p.pool.id ≡ id = ground (arith, r, e, f, done) in
              let same_offset : x ≡ offset = ground (arith, r, e, f, done) in
              rw (sym same_id, sym same_offset) (ground (arith, e, f, done))
        ]
      ]
    ]

pub lent_uses-register_object :
    (pools : Dict DivisiblePool) (c : LenderCollection) (object id offset i o : ℕ)
    → (Lender.register_object pools c object).1 ≡ some (id, offset)
    → lent_uses c id offset + 1 < 2 ^ 32
    → lent_uses (Lender.register_object pools c object).0 i o
      ≡ (if (id == i) && (offset == o) then lent_uses c i o + 1 else lent_uses c i o)
lent_uses-register_object pools c object id offset i o r l =
    let e = register_object-register_object_at pools c object id offset r in
    subst
      (λ c'.
        lent_uses c' i o
        ≡ (if (id == i) && (offset == o) then lent_uses c i o + 1 else lent_uses c i o))
      (ap (λ r. r.0) e) (lent_uses-register_object_at c id offset object i o (ap (λ r. r.1) e) l)

pub lent_uses-deregister_object :
    (c : LenderCollection) (id offset i o : ℕ)
    → 0 < lent_uses c id offset
    → lent_uses c id offset < 2 ^ 32
    → lent_uses (Lender.deregister_object c id offset).0 i o
      ≡ (if (id == i) && (offset == o) then lent_uses c i o - 1 else lent_uses c i o)
unfolding lent_uses
lent_uses-deregister_object c id offset i o l u = elim (Option-cases (lent c id offset)) [
  | inl out ↦ absurd (ground (arith, l, out))
  | inr (e, f) ↦
      let (_, law) =
        lent-deregister_object c id offset i o e f (ground (arith, f)) (ground (arith, f)) in
      ground (arith, law, f)
]

pub lent-deregister_shm_pool :
    (c : LenderCollection) (id i o : ℕ)
    → lent (Lender.deregister_shm_pool c id).0 i o ≡ (if id == i then none else lent c i o)
unfolding lent Lender.deregister_shm_pool
lent-deregister_shm_pool c id i o = elim (Option-cases (find id c)) [
  | inl out ↦ elim (Bool-cases (id == i)) [
    | inl e ↦ ground (arith, out, e)
    | inr e ↦ ground (arith, out, e)
  ]
  | inr (d, f) ↦ ground (arith, f, find-erase id i c)
]

pub lent-register_shm_pool :
    (c : LenderCollection) (p : Pool) (i o : ℕ)
    → lent (Lender.register_shm_pool c p).0 i o ≡ lent c i o
unfolding lent Lender.register_shm_pool find
lent-register_shm_pool c p i o =
    let d : PoolData = record { pool = p; object_data_map = [] } in
    let law = find-emplace p.id i d c in ground (arith, law)

pub lent-deregister_none :
    (c : LenderCollection) (id offset : ℕ)
    → lent c id offset ≡ none
    → Lender.deregister_object c id offset ≡ (c, none)
unfolding lent Lender.deregister_object
lent-deregister_none c id offset e = elim (Option-cases (find id c)) [
  | inl out ↦ ground (arith, out)
  | inr (d, f) ↦ ground (arith, e, f)
]

offset_map_empty :
    (c : BorrowerCollection) (id : ℕ) (p : Pool) (m : Dict ℕ) (i o : ℕ)
    → find id c ≡ some (record { pool = p; offset_map = m })
    → uses (Borrower.deregister_found c id p m).0 i o ≡ uses c i o
unfolding uses find Borrower.deregister_found
offset_map_empty c id p [] i o e = ground (arith, e, find-erase id i c)
offset_map_empty c id p (x ∷ m) i o e = refl

pub uses-deregister_shm_pool :
    (c : BorrowerCollection) (id i o : ℕ)
    → uses (Borrower.deregister_shm_pool c id).0 i o ≡ uses c i o
unfolding Borrower.deregister_shm_pool
uses-deregister_shm_pool c id i o = elim (Option-cases (find id c)) [
  | inl out ↦ rw (Borrower.deregister_shm_pool, out) refl
  | inr (d, e) ↦
      rw (Borrower.deregister_shm_pool, e) (offset_map_empty c id d.pool d.offset_map i o e)
]

pub uses-register_shm_pool :
    (c : BorrowerCollection) (p : Pool) (i o : ℕ)
    → uses (Borrower.register_shm_pool c p).0 i o ≡ uses c i o
unfolding uses Borrower.register_shm_pool find
uses-register_shm_pool c p i o =
    let d : Borrower.PoolData = record { pool = p; offset_map = [] } in
    let law = find-emplace p.id i d c in ground (arith, law)
