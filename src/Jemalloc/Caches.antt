-- ===== src/Jemalloc/Caches.antt =====
-- The caches of one thread in shm/arena_lend/jemalloc/shm_pool_collection.hpp and .cpp
-- (`Thread_local_data` and `Thread_cache`). A cache and a collection are the addresses of their objects.
use ipc_shm_arena_lend.Base.{
  ℕ, ◌≡◌, refl, Bool, true, false, Option, none, some, List, [], ◌∷◌, arith, if◌then◌else◌, ◌==◌,
  Option-cases, inl, inr,
}
use ipc_shm_arena_lend.Base.Dict.{Dict, find, emplace}

-- `Thread_cache`
pub record ThreadCache : Type 0 where
  pub pointer : ℕ
  pub thread_cache_id : ℕ
  pub owner : ℕ
  pub arena_id : ℕ

unfoldable pub get_cache : Dict ThreadCache → ℕ → Option ThreadCache
get_cache m arena_id = find arena_id m

unfoldable pub insert_cache : Dict ThreadCache → ThreadCache → Dict ThreadCache × Bool
unfolding get_cache
insert_cache m c = elim (get_cache m c.arena_id) [
  | some d ↦ if d.pointer == c.pointer then (m, true) else (m, false)
  | none ↦ emplace c.arena_id c m
]

-- The thread's cache for an arena, where a new one would have this address and this ID: the caches and
-- the cache.
unfoldable pub get_or_create_thread_cache :
    Dict ThreadCache → ℕ → ℕ → ℕ → ℕ → Dict ThreadCache × ThreadCache
unfolding insert_cache
get_or_create_thread_cache m owner arena_id pointer thread_cache_id = elim (get_cache m arena_id) [
  | some c ↦ (m, c)
  | none ↦
      let c : ThreadCache = record {
        pointer = pointer;
        thread_cache_id = thread_cache_id;
        owner = owner;
        arena_id = arena_id;
      } in
      ((insert_cache m c).0, c)
]

-- The loop over the entries, and whether any was erased.
unfoldable pub remove_caches_by_owner : Dict ThreadCache → ℕ → Dict ThreadCache × Bool
remove_caches_by_owner [] owner = ([], false)
remove_caches_by_owner ((k, c) ∷ m) owner =
    let (rest, result) = remove_caches_by_owner m owner in
    if owner == c.owner then (rest, true) else ((k, c) ∷ rest, result)

-- The IDs that are flushed.
unfoldable pub flush_all_caches : Dict ThreadCache → List ℕ
flush_all_caches [] = []
flush_all_caches ((k, c) ∷ m) = c.thread_cache_id ∷ flush_all_caches m

-- Each arena has one cache.
abbrev pub HasOneEach : Dict ThreadCache → Type 0
HasOneEach [] = Unit {0}
HasOneEach ((k, c) ∷ m) = (find k m ≡ none) × HasOneEach m

remove_caches_by_owner-none :
    (m : Dict ThreadCache) (owner k : ℕ)
    → find k m ≡ none
    → find k (remove_caches_by_owner m owner).0 ≡ none
unfolding find remove_caches_by_owner
remove_caches_by_owner-none [] owner k h = refl
remove_caches_by_owner-none ((j, c) ∷ m) owner k h =
    ground (arith, remove_caches_by_owner-none m owner k)

-- After `remove_caches_by_owner` the thread has the caches that it had, except those of this owner.
get_cache-remove_caches_by_owner :
    (m : Dict ThreadCache) (owner arena_id : ℕ)
    → HasOneEach m
    → get_cache (remove_caches_by_owner m owner).0 arena_id ≡ elim (get_cache m arena_id) [
      | none ↦ none
      | some c ↦ if owner == c.owner then none else some c
    ]
unfolding get_cache find remove_caches_by_owner
get_cache-remove_caches_by_owner [] owner a h = refl
get_cache-remove_caches_by_owner ((j, c) ∷ m) owner a (x, y) =
    ground
      (arith, get_cache-remove_caches_by_owner m owner a y, remove_caches_by_owner-none m owner j x)

-- The cache that `get_or_create_thread_cache` returns is then the thread's cache for the arena; asking
-- again returns the same cache and creates none.
get_or_create_thread_cache_twice :
    (m : Dict ThreadCache) (owner a pointer id owner' pointer' id' : ℕ)
    → let (m', c) = get_or_create_thread_cache m owner a pointer id in
      (get_cache m' a ≡ some c) × (get_or_create_thread_cache m' owner' a pointer' id' ≡ (m', c))
unfolding get_or_create_thread_cache get_cache find emplace
get_or_create_thread_cache_twice m owner a pointer id owner' pointer' id' =
    elim (Option-cases (find a m)) [
      | inl new ↦ ground (arith, new)
      | inr (c, here) ↦ ground (arith, here)
    ]
