-- ===== src/Arena/Process/Steps.antt =====
-- The histories of a process that creates arenas by shm/arena_lend/jemalloc/ipc_arena.cpp, constructs and releases
-- objects in them, and lets go of them.
use ipc_shm_arena_lend.Base.{
  ℕ, ◌+◌, ◌^◌, ◌<◌, ◌≡◌, Bool, false, ◌||◌, none, some, List, [], ◌∷◌, ◌==◌, arith,
}
use ipc_shm_arena_lend.Base.Dict.{Dict, find}
use ipc_shm_arena_lend.Jemalloc.Caches.{ThreadCache}
use ipc_shm_arena_lend.Jemalloc.Objects.{
  Heap, Answers, ObjectDeleter, thread_references, Constructed, release_object,
  remove_current_thread_cache, exit_thread, flush_current_thread_cache_all,
}
use ipc_shm_arena_lend.Jemalloc.Objects.References.{Refers}
use ipc_shm_arena_lend.Jemalloc.Objects.Trace.{is_arena_open}
use ipc_shm_arena_lend.Jemalloc.Objects.Steps.{IsNew, no_objects}
use ipc_shm_arena_lend.Arena.Process.{Process, create, destroy, construct_impl, get_pool_collection}

-- Whether a cache or a deleter holds a pointer to an arena.
unfoldable pub owns_cache : ℕ → List ThreadCache → Bool
owns_cache address [] = false
owns_cache address (c ∷ cs) = (c.owner == address) || owns_cache address cs

unfoldable pub owns_object : ℕ → Dict ObjectDeleter → Bool
unfolding get_pool_collection
owns_object address [] = false
owns_object address ((a, d) ∷ m) = (get_pool_collection d.base == address) || owns_object address m

unfoldable pub is_held : ℕ → Heap → Bool
unfolding owns_cache owns_object
is_held address h =
    owns_cache address (thread_references h.threads) || owns_object address h.objects

-- The process ends where the counter of the collection IDs does.
pub data Step (p : Process) : Process → Type 0 where
  creates :
      (address : ℕ) (answers : ℕ → ℕ × ℕ)
      → find address p.arenas ≡ none
      → is_arena_open (answers 0).1 p.heap.calls ≡ false
      → p.collection_id_counter + 1 < 2 ^ 32
      → Step p (create p address answers).0
  constructs :
      (thread address : ℕ) (use_cache : Bool) (size : ℕ) (o : Answers) (q : Process)
      (r : Constructed)
      → IsNew p.heap o
      → construct_impl p thread address use_cache size o ≡ some (q, r)
      → Step p q
  releases : (object : ℕ) → Step p (record p { heap = release_object p.heap object })
  removes :
      (thread address : ℕ)
      → Step p (record p { heap = remove_current_thread_cache p.heap thread address })
  exits : (thread : ℕ) → Step p (record p { heap = exit_thread p.heap thread })
  flushes :
      (thread : ℕ) (ec : ℕ → ℕ)
      → Step p (record p { heap = (flush_current_thread_cache_all p.heap thread ec).0 })
  lets_go : (address : ℕ) → is_held address p.heap ≡ false → Step p (destroy p address)

abbrev pub no_arenas : Process
no_arenas = record { collection_id_counter = 0; arenas = []; heap = no_objects }

pub data Reach : Process → Type 0 where
  start : Reach no_arenas
  later : {p q : Process} → Reach p → Step p q → Reach q

pub owns_cache-Refers :
    (address : ℕ) (c : ThreadCache) (R : List ThreadCache)
    → owns_cache address R ≡ false
    → Refers c R
    → (c.owner == address) ≡ false
unfolding owns_cache
owns_cache-Refers address c [] e r = elim r [ ]
owns_cache-Refers address c (d ∷ R) e r = ground (arith, owns_cache-Refers address c R)

pub owns_object-find :
    (address a : ℕ) (d : ObjectDeleter) (m : Dict ObjectDeleter)
    → owns_object address m ≡ false
    → find a m ≡ some d
    → (get_pool_collection d.base == address) ≡ false
unfolding owns_object find
owns_object-find address a d [] e h = cc
owns_object-find address a d ((b, f) ∷ m) e h = ground (arith, owns_object-find address a d m)
