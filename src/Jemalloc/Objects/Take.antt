-- ===== src/Jemalloc/Objects/Take.antt =====
-- The three cases of `get_or_create_thread_cache`, of shm/arena_lend/jemalloc/shm_pool_collection.cpp.
use ipc_shm_arena_lend.Base.{ℕ, ◌≡◌, true, false, ◌∷◌, arith, ◌==◌, none, some}
use ipc_shm_arena_lend.Base.Dict.{find, emplace}
use ipc_shm_arena_lend.Memory.{mallctl, tcache_create, create_thread_cache}
use ipc_shm_arena_lend.Jemalloc.Caches.{ThreadCache, get_cache, get_or_create_thread_cache}
use ipc_shm_arena_lend.Jemalloc.Objects.{
  Heap, Answers, local_caches, set_local_caches, take_thread_cache,
}

module _ (h : Heap) (thread owner arena : ℕ) (o : Answers) where
  abbrev pub new_cache : ThreadCache
  new_cache = record {
    pointer = o.cache_pointer;
    thread_cache_id = o.cache_id;
    owner = owner;
    arena_id = arena;
  }

  -- The heap with the new cache in the thread's map.
  unfoldable pub with_cache : Heap
  unfolding set_local_caches
  with_cache = record h {
    threads =
        set_local_caches thread ((arena, new_cache) ∷ local_caches thread h.threads) h.threads;
    calls = mallctl tcache_create o.ec o.cache_id ∷ h.calls;
  }

  pub take_thread_cache-here :
      (c : ThreadCache)
      → find arena (local_caches thread h.threads) ≡ some c
      → take_thread_cache h thread owner arena o ≡ (h, some c)
  unfolding take_thread_cache get_cache
  take_thread_cache-here c e = ground arith

  pub take_thread_cache-failed :
      find arena (local_caches thread h.threads) ≡ none
      → (o.ec == 0) ≡ false
      → take_thread_cache h thread owner arena o
        ≡ (record h { calls = mallctl tcache_create o.ec o.cache_id ∷ h.calls }, none)
  unfolding take_thread_cache get_cache create_thread_cache
  take_thread_cache-failed e f = ground arith

  pub take_thread_cache-new :
      find arena (local_caches thread h.threads) ≡ none
      → (o.ec == 0) ≡ true
      → take_thread_cache h thread owner arena o ≡ (with_cache, some new_cache)
  unfolding with_cache take_thread_cache get_cache create_thread_cache get_or_create_thread_cache
      emplace
  take_thread_cache-new e f = ground arith
