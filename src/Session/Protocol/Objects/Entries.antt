-- ===== src/Session/Protocol/Objects/Entries.antt =====
-- The entries of objects at the lender, through the operations of
-- session/standalone/shm/arena_lend/shm_session_data.cpp.
use ipc_shm_arena_lend.Base.{
  ℕ, ◌≡◌, ◌+◌, ◌<◌, ◌^◌, true, none, some, [], if◌then◌else◌, arith, Option-cases, Bool-cases, inl,
  inr, ◌&&◌, ◌==◌, ◌%◌, ap, subst,
}
use ipc_shm_arena_lend.Base.Dict.{Dict, find, is_some, find-assign, find-emplace}
use ipc_shm_arena_lend.Pool.{Pool}
use ipc_shm_arena_lend.Pool.Divisible.{DivisiblePool}
use ipc_shm_arena_lend.AddressMap.{divisible_like}
use ipc_shm_arena_lend.Session.Lender.{LenderCollection}
use ipc_shm_arena_lend.Session.Lender as Lender
use ipc_shm_arena_lend.Session.Lender.Lend.{lent, lent-register_object_at, lent-deregister_object}
use ipc_shm_arena_lend.Session.Data.{
  SessionData, put_lender, register_lender_object, deregister_lender_object,
  register_lender_collection, register_lender_shm_pool, deregister_lender_shm_pool,
}
use ipc_shm_arena_lend.Session.Protocol.{ShmSession, SendOutcome, remove_lender_shm_pool}
use ipc_shm_arena_lend.Session.Protocol.Objects.{
  Handle, same, in_pool, entry, lender_uses, is_counted,
}
use ipc_shm_arena_lend.Session.Protocol.Objects.Uses.{same-≡}
use ipc_shm_arena_lend.Session.Protocol.Objects.Counts.{
  lent-deregister_shm_pool, lent-register_shm_pool, lent-deregister_none, is_registered,
  register_object-register_object_at,
}

pub same_entry :
    (d d' : SessionData) (k : Handle)
    → entry d' k ≡ entry d k
    → (lender_uses d' k ≡ lender_uses d k) × (is_counted d' k ≡ is_counted d k)
unfolding lender_uses is_counted
same_entry d d' k e = (ground (arith, e), ground (arith, e))

pub entry-register_lender_collection :
    (s : SessionData) (id : ℕ) (k : Handle)
    → entry (register_lender_collection s id).0 k ≡ entry s k
unfolding entry lent find register_lender_collection
entry-register_lender_collection s id k =
    let c : LenderCollection = [] in
    let law = find-emplace id k.collection_id c s.lender_collection_map in ground (arith, law)

pub entry-register_lender_shm_pool :
    (s : SessionData) (id : ℕ) (p : Pool) (k : Handle)
    → entry (register_lender_shm_pool s id p).0 k ≡ entry s k
unfolding entry register_lender_shm_pool put_lender
entry-register_lender_shm_pool s id p k = elim (Option-cases (find id s.lender_collection_map)) [
  | inl out ↦ ground (arith, out)
  | inr (c, e) ↦
      let c' = (Lender.register_shm_pool c p).0 in
      let law = lent-register_shm_pool c p k.shm_pool_id k.offset in
      ground (arith, e, law, find-assign id k.collection_id c' s.lender_collection_map)
]

-- With a pool all of its entries go, and no other.
pub entry-deregister_lender_shm_pool :
    (s : SessionData) (id : ℕ) (p : Pool) (k : Handle)
    → entry (deregister_lender_shm_pool s id p).0 k
      ≡ (if in_pool id p.id k then none else entry s k)
unfolding entry deregister_lender_shm_pool put_lender in_pool
entry-deregister_lender_shm_pool s id p k = elim (Option-cases (find id s.lender_collection_map)) [
  | inl out ↦ ground (arith, out)
  | inr (c, e) ↦
      let c' = (Lender.deregister_shm_pool c p.id).0 in
      let law = lent-deregister_shm_pool c p.id k.shm_pool_id k.offset in
      ground (arith, e, law, find-assign id k.collection_id c' s.lender_collection_map)
]

-- A return without an entry changes none.
pub entry-deregister_none :
    (s : SessionData) (h k : Handle)
    → entry s h ≡ none
    → (entry (deregister_lender_object s h.collection_id h.shm_pool_id h.offset).0 k ≡ entry s k)
      × ((deregister_lender_object s h.collection_id h.shm_pool_id h.offset).1 ≡ none)
unfolding entry deregister_lender_object put_lender
entry-deregister_none s h k n = elim (Option-cases (find h.collection_id s.lender_collection_map)) [
  | inl out ↦ (ground (arith, out), ground (arith, out))
  | inr (c, e) ↦
      let law = lent-deregister_none c h.shm_pool_id h.offset (ground (arith, n, e)) in
      (
        ground
            (arith, e, law, find-assign h.collection_id k.collection_id c s.lender_collection_map),
        ground (arith, e, law),
      )
]

-- Where the pool is not there, it has no entries.
unregistered_pool :
    (s : SessionData) (id : ℕ) (p : Pool) (k : Handle)
    → (deregister_lender_shm_pool s id p).1 ≡ none
    → in_pool id p.id k ≡ true
    → entry s k ≡ none
unfolding deregister_lender_shm_pool Lender.deregister_shm_pool in_pool entry lent
unregistered_pool s id p k e i = elim (Option-cases (find id s.lender_collection_map)) [
  | inl out ↦ ground (arith, i, out)
  | inr (c, f) ↦ elim (Option-cases (find p.id c)) [
    | inl out ↦ ground (arith, i, f, out)
    | inr (d, g) ↦ absurd (ground (arith, e, f, g))
  ]
]

pub entry-remove_lender_shm_pool :
    (s : ShmSession) (id : ℕ) (p : Pool) (o : SendOutcome) (k : Handle)
    → entry (remove_lender_shm_pool s id p o).0.session_data k
      ≡ (if in_pool id p.id k then none else entry s.session_data k)
unfolding remove_lender_shm_pool
entry-remove_lender_shm_pool s id p o k =
    let r = (deregister_lender_shm_pool s.session_data id p).1 in
    elim (Option-cases r) [
      | inr (b, e) ↦ ground (arith, e, entry-deregister_lender_shm_pool s.session_data id p k)
      | inl e ↦ elim (Bool-cases (in_pool id p.id k)) [
        | inl i ↦ ground (arith, e, i, unregistered_pool s.session_data id p k e i)
        | inr i ↦ ground (arith, e, i)
      ]
    ]

-- The entry after a lending has a use more, or is new.
lent-register_object :
    (pools : Dict DivisiblePool) (c : LenderCollection) (object id offset i o : ℕ)
    → (Lender.register_object pools c object).1 ≡ some (id, offset)
    → lent (Lender.register_object pools c object).0 i o ≡ (
        if (id == i) && (offset == o)
        then elim (lent c i o) [
          | none ↦ some (record { object = object; use_count = 1 })
          | some d ↦ some (record d { use_count = (d.use_count + 1) % 2 ^ 32 })
        ]
        else lent c i o)
lent-register_object pools c object id offset i o r =
    let e = register_object-register_object_at pools c object id offset r in
    let law =
      lent-register_object_at c id offset object i o
        (is_registered c id offset object (ap (λ r. r.1) e)) in
    subst
      (λ c'. lent c' i o ≡ (
        if (id == i) && (offset == o)
        then elim (lent c i o) [
          | none ↦ some (record { object = object; use_count = 1 })
          | some d ↦ some (record d { use_count = (d.use_count + 1) % 2 ^ 32 })
        ]
        else lent c i o))
      (ap (λ r. r.0) e) law

pub is_counted-register_lender_object :
    (pools : Dict DivisiblePool) (s : SessionData) (object : ℕ) (h k : Handle)
    → (register_lender_object pools s h.collection_id object).1 ≡ some (h.shm_pool_id, h.offset)
    → lender_uses s h + 1 < 2 ^ 32
    → is_counted s k ≡ true
    → is_counted (register_lender_object pools s h.collection_id object).0 k ≡ true
unfolding is_counted lender_uses entry register_lender_object put_lender same
is_counted-register_lender_object pools s object h k r l b =
    elim (Option-cases (find h.collection_id s.lender_collection_map)) [
      | inl out ↦ absurd (ground (arith, r, out))
      | inr (c, e) ↦
          let c' = (Lender.register_object pools c object).0 in
          let law =
            lent-register_object pools c object h.shm_pool_id h.offset k.shm_pool_id k.offset
              (ground (arith, r, e)) in
          elim (Option-cases (lent c k.shm_pool_id k.offset)) [
            | inl new ↦ ground (
              arith,
              e,
              law,
              new,
              b,
              find-assign h.collection_id k.collection_id c' s.lender_collection_map,
            )
            | inr (d, old) ↦ elim (Bool-cases (same h k)) [
              | inl is ↦
                  let below = subst (λ x. lender_uses s x + 1 < 2 ^ 32) (same-≡ h k is) l in
                  ground (
                    arith,
                    e,
                    law,
                    old,
                    is,
                    below,
                    b,
                    find-assign h.collection_id k.collection_id c' s.lender_collection_map,
                  )
              | inr isnt ↦ ground (
                arith,
                e,
                law,
                old,
                isnt,
                b,
                find-assign h.collection_id k.collection_id c' s.lender_collection_map,
              )
            ]
          ]
    ]

pub is_counted-deregister_lender_object :
    (s : SessionData) (h k : Handle)
    → 0 < lender_uses s h
    → lender_uses s h < 2 ^ 32
    → is_counted s k ≡ true
    → is_counted (deregister_lender_object s h.collection_id h.shm_pool_id h.offset).0 k ≡ true
unfolding is_counted lender_uses entry deregister_lender_object put_lender
is_counted-deregister_lender_object s h k l u b =
    elim (Option-cases (find h.collection_id s.lender_collection_map)) [
      | inl out ↦ absurd (ground (arith, l, out))
      | inr (c, e) ↦ elim (Option-cases (lent c h.shm_pool_id h.offset)) [
        | inl out ↦ absurd (ground (arith, l, e, out))
        | inr (d, f) ↦
            let c' = (Lender.deregister_object c h.shm_pool_id h.offset).0 in
            let (_, law) =
              lent-deregister_object c h.shm_pool_id h.offset k.shm_pool_id k.offset d f
                (ground (arith, l, e, f)) (ground (arith, u, e, f)) in
            ground (
              arith,
              e,
              f,
              law,
              b,
              find-assign h.collection_id k.collection_id c' s.lender_collection_map,
            )
      ]
    ]

pub deregister_lender_object-is_some :
    (s : SessionData) (h : Handle)
    → 0 < lender_uses s h
    → is_some (deregister_lender_object s h.collection_id h.shm_pool_id h.offset).1 ≡ true
unfolding lender_uses entry lent deregister_lender_object Lender.deregister_object
deregister_lender_object-is_some s h l =
    elim (Option-cases (find h.collection_id s.lender_collection_map)) [
      | inl out ↦ absurd (ground (arith, l, out))
      | inr (c, e) ↦ elim (Option-cases (find h.shm_pool_id c)) [
        | inl out ↦ absurd (ground (arith, l, e, out))
        | inr (d, f) ↦ elim (Option-cases (find h.offset d.object_data_map)) [
          | inl out ↦ absurd (ground (arith, l, e, f, out))
          | inr (n, g) ↦ ground (arith, e, f, g)
        ]
      ]
    ]
