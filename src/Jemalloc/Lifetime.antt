-- ===== src/Jemalloc/Lifetime.antt =====
-- The life of a pool under the extent hooks of shm/arena_lend/jemalloc/shm_pool_collection.cpp.
use ipc_shm_arena_lend.Base.{
  ℕ, ◌+◌, ◌≡◌, refl, ◌∙◌, Bool, true, none, some, [], ◌∷◌, arith, Bool-cases, inl, inr, String,
}
use ipc_shm_arena_lend.Base.Dict.{Dict, find, assign, erase, find-assign}
use ipc_shm_arena_lend.Pool.{Pool, IsValid}
use ipc_shm_arena_lend.Pool.Range.{Contains, is_subset-Contains}
use ipc_shm_arena_lend.Pool.Divisible.{DivisiblePool, new_divisible, remove_size}
use ipc_shm_arena_lend.AddressMap.{divisible_like, insert_ordered, emplace_ordered}
use ipc_shm_arena_lend.AddressMap.Layout.{
  IsLaidOut, Above, Apart, insert_ordered-Above, find-insert_ordered, erase-insert_ordered,
}
use ipc_shm_arena_lend.Collection.{register_shm_pool, deregister_shm_pool}
use ipc_shm_arena_lend.Collection.Owner.{
  OwnerCollection, CreateOutcome, RemoveOutcome, create_shm_pool, create_shm_object, map_created,
  register_mapped, register_shm_pool_and_notify, remove_range, remove_shm_pool,
  remove_range_and_pool_if_empty,
}
use ipc_shm_arena_lend.Jemalloc.{create_shm_pool_hook, remove_shm_pool_hook}
use ipc_shm_arena_lend.Jemalloc.Merge.{find-lookup_shm_pool}

erase-assign :
    (k : ℕ) (v : DivisiblePool) (m : Dict DivisiblePool) → erase k (assign k v m) ≡ erase k m
unfolding erase assign
erase-assign k v [] = refl
erase-assign k v ((j, w) ∷ m) = ground (arith, erase-assign k v m)

Apart-find :
    (p : Pool) (lo : ℕ) (m : Dict DivisiblePool)
    → IsValid p
    → Above lo m
    → Apart p m
    → find p.address m ≡ none
unfolding find
Apart-find p lo [] v l a = refl
Apart-find p lo ((k, e) ∷ m) v (b, w, c, r) (x, y) =
    ground (arith, Apart-find p (k + e.pool.size) m v r y, v.size_pos, w.size_pos)

-- The removal of the whole of a pool that is intact.
remove_range_whole :
    (c : OwnerCollection) (p : DivisiblePool) (o : RemoveOutcome)
    → find p.pool.address c.pools ≡ some p
    → p.remaining_size ≡ p.pool.size
    → IsValid p.pool
    → let (c', r, effects) = remove_range c p p.pool.size o in
      (r.removed_range ≡ true) × (c' ≡ record c { pools = erase p.pool.address c.pools })
unfolding remove_range remove_size remove_shm_pool deregister_shm_pool
remove_range_whole c p o e whole v =
    let p' : DivisiblePool = record p { remaining_size = 0 } in
    ground (
      arith,
      e,
      whole,
      v.size_bound,
      v.size_pos,
      find-assign p.pool.address p.pool.address p' c.pools,
      erase-assign p.pool.address p' c.pools,
    )

create_shm_pool_hook_lem :
    (c : OwnerCollection) (id : ℕ) (name_generator : ℕ → String) (size fd address : ℕ)
    (zeroed commit : Bool) (o : CreateOutcome)
    → o.opened ≡ some fd
    → o.permitted ≡ true
    → o.truncated ≡ true
    → o.mapped ≡ some address
    → find address c.pools ≡ none
    → let p = new_divisible id (name_generator id) address size fd in
      let (c', address', zeroed', effects) =
        create_shm_pool_hook c id name_generator size zeroed commit o in
      (c' ≡ record c { pools = insert_ordered address p c.pools })
      × (address' ≡ address)
      × (zeroed' ≡ commit)
unfolding create_shm_pool_hook create_shm_pool create_shm_object map_created register_mapped
    register_shm_pool_and_notify register_shm_pool emplace_ordered new_divisible
create_shm_pool_hook_lem c id name_generator size fd address zeroed commit o a b d e new =
    ground (arith, a, b, d, e, new)

-- The removal hook on the whole of an intact pool of the collection.
remove_shm_pool_hook_whole :
    (c : OwnerCollection) (p : DivisiblePool) (committed unlinked : Bool)
    → IsLaidOut c.pools
    → find p.pool.address c.pools ≡ some p
    → p.remaining_size ≡ p.pool.size
    → IsValid p.pool
    → let (c', removed, effects) =
        remove_shm_pool_hook c p.pool.address p.pool.size committed true unlinked in
      (removed ≡ true) × (c' ≡ record c { pools = erase p.pool.address c.pools })
unfolding remove_shm_pool_hook remove_range_and_pool_if_empty
remove_shm_pool_hook_whole c p committed unlinked l x whole v =
    let here : Contains p.pool p.pool.address = (omega arith, omega (arith, v.size_pos)) in
    let found = find-lookup_shm_pool c.pools p.pool.address p.pool.address p l x here in
    let subset =
      (is_subset-Contains p.pool p.pool.address p.pool.size 0 v).1
        (here, omega arith, omega arith) in
    let o : RemoveOutcome = record { unmapped = true; unlinked = unlinked } in
    elim (Bool-cases committed) [
      | inl with_decommit ↦
          ground
            (arith, found, subset, with_decommit, v.size_pos, remove_range_whole c p o x whole v)
      | inr without ↦
          ground (arith, found, subset, without, v.size_pos, remove_range_whole c p o x whole v)
    ]

-- Where jemalloc obtains a pool from the collection, mapped apart from the pools there, and later destroys
-- the whole extent, the collection is as before: the creation returns the mapped address and sets `zero` to
-- the flag `commit`, and the destruction reports the range as removed, committed or not, as long
-- as the pages can be decommitted.
pub remove_shm_pool_hook-create_shm_pool_hook :
    (c : OwnerCollection) (id : ℕ) (name_generator : ℕ → String) (size fd address : ℕ)
    (zeroed commit : Bool) (o : CreateOutcome) (committed unlinked : Bool)
    → o.opened ≡ some fd
    → o.permitted ≡ true
    → o.truncated ≡ true
    → o.mapped ≡ some address
    → IsLaidOut c.pools
    → IsValid (new_divisible id (name_generator id) address size fd).pool
    → Apart (new_divisible id (name_generator id) address size fd).pool c.pools
    → let (c', address', zeroed', effects) =
        create_shm_pool_hook c id name_generator size zeroed commit o in
      let (c'', removed, effects') =
        remove_shm_pool_hook c' address' size committed true unlinked in
      (address' ≡ address) × (zeroed' ≡ commit) × (removed ≡ true) × (c'' ≡ c)
unfolding new_divisible
remove_shm_pool_hook-create_shm_pool_hook c id name_generator size fd address zeroed commit o
      committed unlinked a b d e l v apart =
    let p = new_divisible id (name_generator id) address size fd in
    let new : find address c.pools ≡ none = Apart-find p.pool 0 c.pools v l apart in
    let (made, at, flag) =
      create_shm_pool_hook_lem c id name_generator size fd address zeroed commit o a b d e new in
    let c' = record c { pools = insert_ordered address p c.pools } in
    let l' : IsLaidOut c'.pools = insert_ordered-Above 0 p c.pools v (omega arith) apart l in
    let x : find address c'.pools ≡ some p =
      find-insert_ordered address address p c.pools new ∙ ground arith in
    let (removed, back) = remove_shm_pool_hook_whole c' p committed unlinked l' x refl v in
    (
      at,
      flag,
      rw (made, at) removed,
      rw (made, at) (back ∙ ground (arith, erase-insert_ordered address p c.pools)),
    )
