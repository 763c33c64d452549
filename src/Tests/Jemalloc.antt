-- ===== src/Tests/Jemalloc.antt =====
-- The extent hooks, the thread caches and the arena on concrete input.
use ipc_shm_arena_lend.Base.{◌≡◌, refl, Bool, true, false, none, some, List, [], ◌∷◌, arith, ◌⊎◌}
use ipc_shm_arena_lend.Base.Dict.{is_some, find}
use ipc_shm_arena_lend.Pool.{Pool}
use ipc_shm_arena_lend.AddressMap.{divisible_like}
use ipc_shm_arena_lend.Repository.{Repository, empty, pool_holder}
use ipc_shm_arena_lend.Collection.{notifies_created}
use ipc_shm_arena_lend.Collection.Owner.{OwnerCollection, CreateOutcome, hear}
use ipc_shm_arena_lend.Arena.{Arena, Notice, receive}
use ipc_shm_arena_lend.Arena.Forward.{notify_all, IsNews, known, receive-hear}
use ipc_shm_arena_lend.Jemalloc.{PageCall}
use ipc_shm_arena_lend.Jemalloc.Pages.{decommit, operate, WithinPool, operate-WithinPool}
use ipc_shm_arena_lend.Tests.{pool_a, two_pools, two_pools-IsLaidOut}

abbrev pages : PageCall → Bool
pages x = true

operate-WithinPool_example :
    (operate decommit pages two_pools 4096 4096 1024 512 ≡ (false, none))
    ⊎ ((x : PageCall) × (operate decommit pages two_pools 4096 4096 1024 512 ≡ (pages x, some x))
        × WithinPool two_pools x)
operate-WithinPool_example =
    operate-WithinPool decommit pages two_pools 4096 4096 1024 512 two_pools-IsLaidOut (omega arith)
      (omega arith)

abbrev nothing : OwnerCollection
nothing = record { pools = []; listeners = (7, tt) ∷ [] }

abbrev succeeding : CreateOutcome
succeeding = record {
  opened = some 3;
  permitted = true;
  truncated = true;
  mapped = some 4096;
  unlinked = true;
}

-- The arena at the address 7 has no pools; the repository's listener is at the address 8.
abbrev arena : Arena
arena = record { shm_pools = []; listeners = (8, tt) ∷ [] }

abbrev no_repository_pools : Repository Pool
no_repository_pools = empty

listens : is_some (find 8 arena.listeners) ≡ true
unfolding find
listens = refl

created_is_new : IsNews arena (notifies_created 7 pool_a)
unfolding find
created_is_new = refl

receive-hear_example :
    (a : Arena) × (ns : List Notice) × (receive 7 arena (notifies_created 7 pool_a) ≡ some (a, ns))
    × (a.listeners ≡ arena.listeners)
    × (notify_all 8 no_repository_pools ns ≡ hear 7 no_repository_pools (notifies_created 7 pool_a))
    × (is_some (find 1 a.shm_pools) ≡ known 7 arena (notifies_created 7 pool_a) 1)
receive-hear_example =
    receive-hear 7 8 arena no_repository_pools (notifies_created 7 pool_a) 1 listens created_is_new
