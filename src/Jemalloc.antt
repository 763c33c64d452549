-- ===== src/Jemalloc.antt =====
-- shm/arena_lend/jemalloc/shm_pool_collection.hpp and .cpp (class `Shm_pool_collection` of `jemalloc`): the
-- extent hooks that jemalloc calls for the memory of an arena. `Jemalloc_pages`, a copy of jemalloc's page
-- functions, and jemalloc itself are arguments: what a call returns. The assertions that the collection
-- was started are left out.
pub mod Merge
pub mod Pages
pub mod Lifetime
pub mod Caches
pub mod Start
pub mod Objects
use ipc_shm_arena_lend.Base.{
  ℕ, zero, suc, ◌+◌, ◌-◌, ◌%◌, ◌^◌, Bool, true, false, not, ◌&&◌, ◌||◌, Option, none, some, List,
  [], ◌∷◌, if◌then◌else◌, ltb, ◌==◌, String,
}
use ipc_shm_arena_lend.Base.Dict.{Dict, is_some, find}
use ipc_shm_arena_lend.Base.Words.{sign_extend}
use ipc_shm_arena_lend.Pool.{Pool, is_subset, is_adjacent}
use ipc_shm_arena_lend.Pool.Divisible.{DivisiblePool}
use ipc_shm_arena_lend.AddressMap.{divisible_like, emplace_ordered}
use ipc_shm_arena_lend.Collection.{Effect, lookup_shm_pool}
use ipc_shm_arena_lend.Collection.Owner.{
  OwnerCollection, CreateOutcome, RemoveOutcome, Created, null, created, duplicate, create_shm_pool,
  remove_range_and_pool_if_empty,
}

-- What the hook returns, and the flag `zero` that it writes where the pool was mapped. The map
-- function of `Jemalloc_pages` is the functor of `create_shm_pool`; `commit` is after its call.
unfoldable pub created_address : Created → ℕ
created_address null = 0
created_address (created p) = p.pool.address
created_address (duplicate p) = p.pool.address

unfoldable pub create_shm_pool_hook :
    OwnerCollection
    → ℕ
    → (ℕ → String)
    → ℕ
    → Bool
    → Bool
    → CreateOutcome
    → OwnerCollection × ℕ × Bool × List Effect
unfolding created_address
create_shm_pool_hook c id name_generator size zeroed commit o =
    let (c', result, effects) = create_shm_pool c id (name_generator id) size o in
    let reached = is_some o.opened && o.permitted && o.truncated && is_some o.mapped in
    (c', created_address result, if reached then commit else zeroed, effects)

-- The pages are always retained.
unfoldable pub optional_remove_shm_pool : ℕ → ℕ → Bool → Bool
optional_remove_shm_pool address size committed = false

-- `remove_shm_pool`, given what the decommit and `shm_unlink` return. The unmapping functor returns
-- true.
unfoldable pub remove_shm_pool_hook :
    OwnerCollection → ℕ → ℕ → Bool → Bool → Bool → OwnerCollection × Bool × List Effect
remove_shm_pool_hook c address size committed decommitted unlinked =
    let (c', r, effects) =
      remove_range_and_pool_if_empty c address size (if committed then some decommitted else none)
        (record { unmapped = true; unlinked = unlinked }) in
    (c', r.removed_range, effects)

-- A range of an extent, checked against the pool that holds the extent: the pool and the offset of the
-- range in its file.
unfoldable pub compute_pool_and_offset :
    Dict DivisiblePool → ℕ → ℕ → ℕ → ℕ → Option (DivisiblePool × ℕ)
unfolding sign_extend
compute_pool_and_offset pools address size offset length = elim (lookup_shm_pool pools address) [
  | none ↦ none
  | some p ↦ elim (is_subset p.pool address size) [
    | none ↦ none
    | some address_offset ↦
        if ltb size offset || ltb size length || ltb size ((offset + length) % 2 ^ 64)
        then none
        else some (p, (sign_extend address_offset + offset) % 2 ^ 64)
  ]
]

-- The calls of `Jemalloc_pages`: an address or a file descriptor with an offset, and a length.
pub data PageCall : Type 0 where
  commits : ℕ → ℕ → PageCall
  decommits : ℕ → ℕ → ℕ → ℕ → PageCall
  purges : ℕ → ℕ → ℕ → PageCall

-- The end of the three operations: the call, if there is one, and its result.
unfoldable pub call_pages : (PageCall → Bool) → Option PageCall → Bool × Option PageCall
call_pages pages none = (false, none)
call_pages pages (some x) = (pages x, some x)

unfoldable pub commit_memory_pages :
    (PageCall → Bool) → Dict DivisiblePool → ℕ → ℕ → ℕ → ℕ → Bool × Option PageCall
unfolding call_pages
commit_memory_pages pages pools address size offset length =
    call_pages pages (elim (compute_pool_and_offset pools address size offset length) [
      | none ↦ none
      | some (p, pool_offset) ↦ some (commits ((address + offset) % 2 ^ 64) length)
    ])

unfoldable pub decommit_memory_pages :
    (PageCall → Bool) → Dict DivisiblePool → ℕ → ℕ → ℕ → ℕ → Bool × Option PageCall
unfolding call_pages
decommit_memory_pages pages pools address size offset length =
    call_pages pages (elim (compute_pool_and_offset pools address size offset length) [
      | none ↦ none
      | some (p, pool_offset) ↦
          some (decommits ((address + offset) % 2 ^ 64) p.pool.fd pool_offset length)
    ])

unfoldable pub purge_forced_memory_pages :
    (PageCall → Bool) → Dict DivisiblePool → ℕ → ℕ → ℕ → ℕ → Bool × Option PageCall
unfolding call_pages
purge_forced_memory_pages pages pools address size offset length =
    call_pages pages (elim (compute_pool_and_offset pools address size offset length) [
      | none ↦ none
      | some (p, pool_offset) ↦ some (purges p.pool.fd pool_offset length)
    ])

unfoldable pub split_memory_pages : ℕ → ℕ → ℕ → ℕ → Bool
split_memory_pages address size size_a size_b = true

-- `merge_memory_pages`: equal pools are equal pointers, which is the same base in one map. The sizes are
-- cut to 32 bits for `is_adjacent`.
unfoldable pub merge_memory_pages : Dict DivisiblePool → ℕ → ℕ → ℕ → ℕ → Bool
merge_memory_pages pools address_a size_a address_b size_b =
    elim (lookup_shm_pool pools address_a) [
      | none ↦ false
      | some p ↦ elim (lookup_shm_pool pools address_b) [
        | none ↦ false
        | some q ↦
            (p.pool.address == q.pool.address)
            && is_adjacent address_a (size_a % 2 ^ 32) address_b (size_b % 2 ^ 32)
            && is_some (is_subset p.pool address_a size_a)
            && is_some (is_subset p.pool address_b size_b)
      ]
    ]

-- The hooks as jemalloc calls them: they return true for a failure.
unfoldable pub optional_remove_shm_pool_handler : ℕ → ℕ → Bool → Bool
unfolding optional_remove_shm_pool
optional_remove_shm_pool_handler address size committed =
    not (optional_remove_shm_pool address size committed)

unfoldable pub split_memory_pages_handler : ℕ → ℕ → ℕ → ℕ → Bool
unfolding split_memory_pages
split_memory_pages_handler address size size_a size_b =
    not (split_memory_pages address size size_a size_b)

unfoldable pub merge_memory_pages_handler : Dict DivisiblePool → ℕ → ℕ → ℕ → ℕ → Bool
merge_memory_pages_handler pools address_a size_a address_b size_b =
    not (merge_memory_pages pools address_a size_a address_b size_b)

unfoldable pub commit_memory_pages_handler :
    (PageCall → Bool) → Dict DivisiblePool → ℕ → ℕ → ℕ → ℕ → Bool
commit_memory_pages_handler pages pools address size offset length =
    not (commit_memory_pages pages pools address size offset length).0

unfoldable pub decommit_memory_pages_handler :
    (PageCall → Bool) → Dict DivisiblePool → ℕ → ℕ → ℕ → ℕ → Bool
decommit_memory_pages_handler pages pools address size offset length =
    not (decommit_memory_pages pages pools address size offset length).0

unfoldable pub purge_forced_memory_pages_handler :
    (PageCall → Bool) → Dict DivisiblePool → ℕ → ℕ → ℕ → ℕ → Bool
purge_forced_memory_pages_handler pages pools address size offset length =
    not (purge_forced_memory_pages pages pools address size offset length).0
