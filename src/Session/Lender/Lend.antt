-- ===== src/Session/Lender/Lend.antt =====
-- Lending and return in session/standalone/shm/arena_lend/lender_collection.cpp.
use ipc_shm_arena_lend.Base.{
  ℕ, ◌≡◌, ◌+◌, ◌-◌, ◌<◌, ◌%◌, ◌^◌, sym, true, Option, none, some, arith, if◌then◌else◌, ◌==◌,
  Option-cases, inl, inr, Bool-cases, ◌&&◌, subst,
}
use ipc_shm_arena_lend.Base.Dict.{Dict, find, is_some, find-assign, find-erase, find-emplace}
use ipc_shm_arena_lend.Base.Words.{add_offset-nonneg}
use ipc_shm_arena_lend.Collection.Owner.Remove.{lookup_shm_pool-find}
use ipc_shm_arena_lend.Pool.{determine_offset, to_address}
use ipc_shm_arena_lend.Pool.Range.{determine_offset-Contains}
use ipc_shm_arena_lend.Pool.Divisible.{DivisiblePool}
use ipc_shm_arena_lend.AddressMap.{divisible_like}
use ipc_shm_arena_lend.AddressMap.Layout.{IsLaidOut}
use ipc_shm_arena_lend.Collection.{lookup_shm_pool}
use ipc_shm_arena_lend.Session.Lender.{
  ObjectData, LenderCollection, add_use, drop_use, register_object_at, register_object,
  deregister_object,
}

-- The entry of an object.
unfoldable pub lent : LenderCollection → ℕ → ℕ → Option ObjectData
lent c id offset = elim (find id c) [ none ↦ none | some d ↦ find offset d.object_data_map ]

find-add_use :
    (m : Dict ObjectData) (offset object o : ℕ)
    → find o (add_use m offset object) ≡ (
        if offset == o
        then elim (find o m) [
          | none ↦ some (record { object = object; use_count = 1 })
          | some d ↦ some (record d { use_count = (d.use_count + 1) % 2 ^ 32 })
        ]
        else find o m)
unfolding add_use
find-add_use m offset object o = elim (Option-cases (find offset m)) [
  | inl e ↦
      let d : ObjectData = record { object = object; use_count = 1 } in
      ground (arith, e, find-emplace offset o d m)
  | inr (x, e) ↦
      let d = record x { use_count = (x.use_count + 1) % 2 ^ 32 } in
      ground (arith, e, find-assign offset o d m)
]

-- `register_object` of an ID and an offset in a registered pool makes a new entry with one use, or
-- adds a use to the entry there, where the count is 32 bits wide, and keeps its object; other
-- entries do not change.
pub lent-register_object_at :
    (c : LenderCollection) (id offset object i o : ℕ)
    → is_some (find id c) ≡ true
    → lent (register_object_at c id offset object).0 i o ≡ (
        if (id == i) && (offset == o)
        then elim (lent c i o) [
          | none ↦ some (record { object = object; use_count = 1 })
          | some d ↦ some (record d { use_count = (d.use_count + 1) % 2 ^ 32 })
        ]
        else lent c i o)
unfolding lent register_object_at add_use
lent-register_object_at c id offset object i o h = elim (Option-cases (find id c)) [
  | inl e ↦ absurd (ground (arith, h, e))
  | inr (d, e) ↦
      let d' = record d { object_data_map = add_use d.object_data_map offset object } in
      ground (arith, e, find-assign id i d' c, find-add_use d.object_data_map offset object o)
]

find-drop_use :
    (m : Dict ObjectData) (offset o : ℕ) (d : ObjectData)
    → find offset m ≡ some d
    → 0 < d.use_count
    → d.use_count < 2 ^ 32
    → find o (drop_use m offset d) ≡ (
        if offset == o
        then if d.use_count == 1 then none else some (record d { use_count = d.use_count - 1 })
        else find o m)
unfolding drop_use
find-drop_use m offset o d e l h =
    let d' = record d { use_count = (d.use_count + (2 ^ 32 - 1)) % 2 ^ 32 } in
    let same : d.use_count + (2 ^ 32 - 1) ≡ (d.use_count - 1) + 2 ^ 32 = omega arith in
    ground (arith, e, same, find-erase offset o m, find-assign offset o d' m)

-- Returning one use of a lent object, of which there is at least one, gives the object back; its entry
-- goes with the last use and otherwise stays with one use fewer, and no other entry changes.
pub lent-deregister_object :
    (c : LenderCollection) (id offset i o : ℕ) (e : ObjectData)
    → lent c id offset ≡ some e
    → 0 < e.use_count
    → e.use_count < 2 ^ 32
    → let (c', object) = deregister_object c id offset in
      (object ≡ some e.object)
      × (lent c' i o ≡ (
          if (id == i) && (offset == o)
          then if e.use_count == 1 then none else some (record e { use_count = e.use_count - 1 })
          else lent c i o))
unfolding lent deregister_object
lent-deregister_object c id offset i o e h l u = elim (Option-cases (find id c)) [
  | inl out ↦ absurd (ground (arith, h, out))
  | inr (d, f) ↦
      let at_offset : find offset d.object_data_map ≡ some e = ground (arith, h, f) in
      let d' = record d { object_data_map = drop_use d.object_data_map offset e } in
      let law = find-drop_use d.object_data_map offset o e at_offset l u in
      (ground (arith, f, at_offset), ground (arith, f, at_offset, find-assign id i d' c, law))
]

-- Where `register_object` of an object in the arena's pools succeeds, the pools being laid out without
-- overlap, the returned ID and offset are those of a pool of the arena, the address at that offset in
-- the pool is the object's, and the entry under them is one that `register_object` of the ID and the
-- offset made.
pub register_object-to_address :
    (pools : Dict DivisiblePool) (c : LenderCollection) (object id offset : ℕ)
    → IsLaidOut pools
    → (register_object pools c object).1 ≡ some (id, offset)
    → (p : DivisiblePool) × (find p.pool.address pools ≡ some p)
      × (p.pool.id ≡ id)
      × (to_address p.pool offset ≡ object)
      × (register_object_at c id offset object ≡ ((register_object pools c object).0, true))
unfolding register_object to_address
register_object-to_address pools c object id offset l h =
    elim (Option-cases (lookup_shm_pool pools object)) [
      | inl out ↦ absurd (ground (arith, h, out))
      | inr (p, e) ↦
          let (x, v, k) = lookup_shm_pool-find pools object p l e in
          let o = object - p.pool.address in
          let d : determine_offset p.pool object ≡ some o =
            determine_offset-Contains p.pool object v k in
          let back : to_address p.pool o ≡ object =
            ground (arith, add_offset-nonneg p.pool.address o) in
          elim (Bool-cases (register_object_at c p.pool.id o object).1) [
            | inr unregistered ↦ absurd (ground (arith, h, e, d, unregistered))
            | inl registered ↦
                let same_id : p.pool.id ≡ id = ground (arith, h, e, d, registered) in
                let same_offset : o ≡ offset = ground (arith, h, e, d, registered) in
                (
                  p,
                  x,
                  same_id,
                  subst (λ q. to_address p.pool q ≡ object) same_offset back,
                  rw (sym same_id, sym same_offset) (ground (arith, e, d, registered)),
                )
          ]
    ]
