-- ===== src/Jemalloc/Objects/Steps.antt =====
-- The histories of a process in which threads construct and release objects by
-- shm/arena_lend/jemalloc/shm_pool_collection.hpp and .cpp, and use their caches.
use ipc_shm_arena_lend.Base.{ℕ, ◌≡◌, Bool, false, [], none}
use ipc_shm_arena_lend.Jemalloc.Objects.{
  Heap, Answers, references, has_pointer, construct, release_object, remove_current_thread_cache,
  exit_thread, flush_current_thread_cache_all,
}
use ipc_shm_arena_lend.Jemalloc.Objects.Trace.{is_open, allocation}

abbrev pub no_objects : Heap
no_objects = record { threads = []; objects = []; calls = []; leaked = [] }

-- A new `Thread_cache` is not at the address of another, jemalloc gives it an ID that is not in use, and
-- an allocation that is in use is not given out again.
pub record IsNew (h : Heap) (o : Answers) : Type 0 where
  pub new_pointer : has_pointer o.cache_pointer (references h) ≡ false
  pub new_id : is_open o.cache_id h.calls ≡ false
  pub new_address : allocation o.address h.calls ≡ none

pub data Step (h : Heap) : Heap → Type 0 where
  constructs :
      (is_ipc : Bool) (thread collection arena_id : ℕ) (use_cache : Bool) (size : ℕ) (o : Answers)
      → IsNew h o
      → Step h (construct is_ipc h thread collection arena_id use_cache size o).0
  releases : (address : ℕ) → Step h (release_object h address)
  removes : (thread owner : ℕ) → Step h (remove_current_thread_cache h thread owner)
  exits : (thread : ℕ) → Step h (exit_thread h thread)
  flushes : (thread : ℕ) (ec : ℕ → ℕ) → Step h (flush_current_thread_cache_all h thread ec).0

pub data Reach : Heap → Type 0 where
  start : Reach no_objects
  later : {h k : Heap} → Reach h → Step h k → Reach k
