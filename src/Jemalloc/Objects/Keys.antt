-- ===== src/Jemalloc/Objects/Keys.antt =====
-- The maps of the threads in shm/arena_lend/jemalloc/shm_pool_collection.hpp: the entry of an arena is a cache of that
-- arena.
use ipc_shm_arena_lend.Base.{ℕ, ◌≡◌, [], ◌∷◌, arith, some}
use ipc_shm_arena_lend.Base.Dict.{Dict, find}
use ipc_shm_arena_lend.Jemalloc.Caches.{ThreadCache, remove_caches_by_owner}
use ipc_shm_arena_lend.Jemalloc.Objects.{local_caches, set_local_caches, others}

-- The cache of a thread for an arena is of that arena.
abbrev pub HasKeys : Dict ThreadCache → Type 0
HasKeys [] = Unit {0}
HasKeys ((k, c) ∷ m) = (c.arena_id ≡ k) × HasKeys m

abbrev pub AllHaveKeys : Dict (Dict ThreadCache) → Type 0
AllHaveKeys [] = Unit {0}
AllHaveKeys ((k, m) ∷ ts) = HasKeys m × AllHaveKeys ts

pub HasKeys-find :
    (k : ℕ) (c : ThreadCache) (m : Dict ThreadCache)
    → HasKeys m
    → find k m ≡ some c
    → c.arena_id ≡ k
unfolding find
HasKeys-find k c [] u e = cc
HasKeys-find k c ((j, d) ∷ m) (x, u) e = ground (arith, HasKeys-find k c m u)

pub remove_caches_by_owner-HasKeys :
    (m : Dict ThreadCache) (owner : ℕ) → HasKeys m → HasKeys (remove_caches_by_owner m owner).0
unfolding remove_caches_by_owner
remove_caches_by_owner-HasKeys [] owner u = tt
remove_caches_by_owner-HasKeys ((k, c) ∷ m) owner (x, u) =
    ground (arith, remove_caches_by_owner-HasKeys m owner u)

pub local_caches-HasKeys :
    (thread : ℕ) (ts : Dict (Dict ThreadCache)) → AllHaveKeys ts → HasKeys (local_caches thread ts)
unfolding local_caches find
local_caches-HasKeys thread [] u = tt
local_caches-HasKeys thread ((k, m) ∷ ts) (x, u) = ground (arith, local_caches-HasKeys thread ts u)

pub set_local_caches-AllHaveKeys :
    (thread : ℕ) (m : Dict ThreadCache) (ts : Dict (Dict ThreadCache))
    → HasKeys m
    → AllHaveKeys ts
    → AllHaveKeys (set_local_caches thread m ts)
unfolding set_local_caches others
set_local_caches-AllHaveKeys thread m [] x u = (x, tt)
set_local_caches-AllHaveKeys thread m ((k, n) ∷ ts) x (y, u) =
    ground (arith, set_local_caches-AllHaveKeys thread m ts x u)
