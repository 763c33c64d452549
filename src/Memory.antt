-- ===== src/Memory.antt =====
-- shm/arena_lend/memory_manager.cpp and shm/arena_lend/jemalloc/memory_manager.cpp (the two classes
-- `Memory_manager`). The C library and jemalloc, of other repositories, are arguments: the address that an
-- allocation returns, and the error code and the output of `mallctl`. The calls are a list, newest first. A
-- result of none is a throw. The printing of statistics is left out.
use ipc_shm_arena_lend.Base.{ℕ, Option, none, some, List, ◌∷◌, if◌then◌else◌, ◌==◌}

-- The flags `MALLOCX_TCACHE_NONE` and `MALLOCX_TCACHE(id)`, which go with those of the arena.
pub data CacheFlags : Type 0 where
  tcache_none : CacheFlags
  tcache : ℕ → CacheFlags

-- The names that `mallctl` is called by, each with its input.
pub data Command : Type 0 where
  arenas_create : Option ℕ → Command
  arena_destroy : ℕ → Command
  tcache_create : Command
  tcache_destroy : ℕ → Command
  tcache_flush : ℕ → Command

pub data Call : Type 0 where
  mallocs : ℕ → ℕ → Call
  frees : ℕ → Call
  mallocx : ℕ → ℕ → CacheFlags → ℕ → Call
  dallocx : ℕ → ℕ → CacheFlags → Call
  mallctl : Command → ℕ → ℕ → Call

-- Without an arena: in both classes.
unfoldable pub allocate : ℕ → ℕ → List Call → List Call × ℕ
allocate size address calls = (mallocs size address ∷ calls, address)

unfoldable pub deallocate : ℕ → List Call → List Call
deallocate address calls = frees address ∷ calls

-- The arguments are the size, the arena, the flags and the address that is returned.
unfoldable pub allocate_helper : ℕ → ℕ → CacheFlags → ℕ → List Call → List Call × ℕ
allocate_helper size arena_id flags address calls =
    (mallocx size arena_id flags address ∷ calls, address)

unfoldable pub allocate_in_arena : ℕ → ℕ → ℕ → List Call → List Call × ℕ
unfolding allocate_helper
allocate_in_arena size arena_id = allocate_helper size arena_id tcache_none

unfoldable pub allocate_cached : ℕ → ℕ → ℕ → ℕ → List Call → List Call × ℕ
unfolding allocate_helper
allocate_cached size arena_id thread_cache_id =
    allocate_helper size arena_id (tcache thread_cache_id)

unfoldable pub deallocate_helper : ℕ → ℕ → CacheFlags → List Call → List Call
deallocate_helper address arena_id flags calls = dallocx address arena_id flags ∷ calls

unfoldable pub deallocate_in_arena : ℕ → ℕ → List Call → List Call
unfolding deallocate_helper
deallocate_in_arena address arena_id = deallocate_helper address arena_id tcache_none

unfoldable pub deallocate_cached : ℕ → ℕ → ℕ → List Call → List Call
unfolding deallocate_helper
deallocate_cached address arena_id thread_cache_id =
    deallocate_helper address arena_id (tcache thread_cache_id)

-- A call of `mallctl` that answers the code `ec` and the output `id`, and the throw after it.
unfoldable pub command : Command → ℕ → ℕ → List Call → List Call × Option ℕ
command x ec id calls = (mallctl x ec id ∷ calls, if ec == 0 then some id else none)

unfoldable pub create_arena : Option ℕ → ℕ → ℕ → List Call → List Call × Option ℕ
unfolding command
create_arena extent_hooks = command (arenas_create extent_hooks)

unfoldable pub destroy_arena : ℕ → ℕ → List Call → List Call × Option ℕ
unfolding command
destroy_arena arena_id ec = command (arena_destroy arena_id) ec 0

unfoldable pub create_thread_cache : ℕ → ℕ → List Call → List Call × Option ℕ
unfolding command
create_thread_cache = command tcache_create

unfoldable pub destroy_thread_cache : ℕ → ℕ → List Call → List Call × Option ℕ
unfolding command
destroy_thread_cache id ec = command (tcache_destroy id) ec 0

unfoldable pub flush_thread_cache : ℕ → ℕ → List Call → List Call × Option ℕ
unfolding command
flush_thread_cache id ec = command (tcache_flush id) ec 0
