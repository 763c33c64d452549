-- ===== src/Jemalloc/Objects/Trace.antt =====
-- What a list of calls of jemalloc, newest first, says of thread caches and of allocations (shm/arena_lend/
-- jemalloc/memory_manager.cpp).
use ipc_shm_arena_lend.Base.{
  ℕ, ◌≡◌, Bool, true, false, ◌&&◌, Option, none, some, List, [], ◌∷◌, if◌then◌else◌, ◌==◌,
}
use ipc_shm_arena_lend.Memory.{
  CacheFlags, tcache_none, tcache, arenas_create, arena_destroy, tcache_create, tcache_destroy,
  tcache_flush, Call, mallocs, frees, mallocx, dallocx, mallctl,
}

-- A thread cache is open from its creation to its destruction.
unfoldable pub is_open : ℕ → List Call → Bool
is_open id [] = false
is_open id (mallocs size a ∷ t) = is_open id t
is_open id (frees a ∷ t) = is_open id t
is_open id (mallocx size arena f a ∷ t) = is_open id t
is_open id (dallocx a arena f ∷ t) = is_open id t
is_open id (mallctl tcache_create ec i ∷ t) = if (ec == 0) && (i == id) then true else is_open id t
is_open id (mallctl (tcache_destroy i) ec o ∷ t) =
    if (ec == 0) && (i == id) then false else is_open id t
is_open id (mallctl (tcache_flush i) ec o ∷ t) = is_open id t
is_open id (mallctl (arenas_create hooks) ec o ∷ t) = is_open id t
is_open id (mallctl (arena_destroy i) ec o ∷ t) = is_open id t

abbrev AllowsFlags : CacheFlags → List Call → Type 0
AllowsFlags tcache_none t = Unit {0}
AllowsFlags (tcache id) t = is_open id t ≡ true

-- A call may only use or destroy a thread cache that is open.
abbrev pub Allows : Call → List Call → Type 0
Allows (mallocx size arena f a) t = AllowsFlags f t
Allows (dallocx a arena f) t = AllowsFlags f t
Allows (mallctl (tcache_destroy id) ec o) t = is_open id t ≡ true
Allows (mallctl (tcache_flush id) ec o) t = is_open id t ≡ true
Allows x t = Unit {0}

abbrev pub IsSafe : List Call → Type 0
IsSafe [] = Unit {0}
IsSafe (x ∷ t) = Allows x t × IsSafe t

-- The arena and the flags of the allocation that is in use at an address; null is a failed allocation.
unfoldable pub allocation : ℕ → List Call → Option (ℕ × CacheFlags)
allocation a [] = none
allocation a (mallocs size b ∷ t) = allocation a t
allocation a (frees b ∷ t) = allocation a t
allocation a (mallocx size arena f b ∷ t) =
    if b == 0 then allocation a t else if b == a then some (arena, f) else allocation a t
allocation a (dallocx b arena f ∷ t) = if b == a then none else allocation a t
allocation a (mallctl x ec o ∷ t) = allocation a t

-- Every deallocation names the arena and the flags of the allocation that is in use at the address.
abbrev pub IsMatched : List Call → Type 0
IsMatched [] = Unit {0}
IsMatched (dallocx a arena f ∷ t) = (allocation a t ≡ some (arena, f)) × IsMatched t
IsMatched (x ∷ t) = IsMatched t

-- An arena is open from its creation to its destruction.
unfoldable pub is_arena_open : ℕ → List Call → Bool
is_arena_open id [] = false
is_arena_open id (mallocs size a ∷ t) = is_arena_open id t
is_arena_open id (frees a ∷ t) = is_arena_open id t
is_arena_open id (mallocx size arena f a ∷ t) = is_arena_open id t
is_arena_open id (dallocx a arena f ∷ t) = is_arena_open id t
is_arena_open id (mallctl tcache_create ec o ∷ t) = is_arena_open id t
is_arena_open id (mallctl (tcache_destroy i) ec o ∷ t) = is_arena_open id t
is_arena_open id (mallctl (tcache_flush i) ec o ∷ t) = is_arena_open id t
is_arena_open id (mallctl (arenas_create hooks) ec i ∷ t) =
    if (ec == 0) && (i == id) then true else is_arena_open id t
is_arena_open id (mallctl (arena_destroy i) ec o ∷ t) =
    if (ec == 0) && (i == id) then false else is_arena_open id t

-- A call may only use or destroy an arena that is open.
abbrev pub AllowsArena : Call → List Call → Type 0
AllowsArena (mallocx size arena f a) t = is_arena_open arena t ≡ true
AllowsArena (dallocx a arena f) t = is_arena_open arena t ≡ true
AllowsArena (mallctl (arena_destroy id) ec o) t = is_arena_open id t ≡ true
AllowsArena x t = Unit {0}

abbrev pub IsArenaSafe : List Call → Type 0
IsArenaSafe [] = Unit {0}
IsArenaSafe (x ∷ t) = AllowsArena x t × IsArenaSafe t
