-- ===== src/Tests.antt =====
-- Concrete pools and collections on which the theorems of the other files are run.
pub mod Pools
pub mod Pointers
pub mod Collections
pub mod Sessions
pub mod Registries
pub mod Lending
pub mod Protocol
pub mod Objects
pub mod Jemalloc
pub mod Setup
pub mod Arenas
use ipc_shm_arena_lend.Repository.Borrower.{UseCounted}
use ipc_shm_arena_lend.Base.{
  ℕ, ◌-◌, ◌≡◌, refl, Bool, true, false, Option, none, some, List, [], ◌∷◌, arith, inl, inr, String,
  ◌≤◌, ◌+◌, ◌<◌, ◌^◌,
}
use ipc_shm_arena_lend.Base.Dict.{Dict}
use ipc_shm_arena_lend.Pool.{Pool, IsValid}
use ipc_shm_arena_lend.Pool.Divisible.{DivisiblePool}
use ipc_shm_arena_lend.AddressMap.{pool_like, divisible_like}
use ipc_shm_arena_lend.AddressMap.Layout.{IsLaidOut}

abbrev pub pool_a : Pool
pool_a = record { id = 1; name = "a"; address = 4096; size = 4096; fd = 3 }

abbrev pub pool_b : Pool
pool_b = record { id = 2; name = "b"; address = 8192; size = 4096; fd = 4 }

pub pool_a-IsValid : IsValid pool_a
pool_a-IsValid = record {
  id_pos = omega arith;
  id_bound = omega arith;
  address_pos = omega arith;
  size_pos = omega arith;
  size_bound = omega arith;
  end_bound = omega arith;
}

pub pool_b-IsValid : IsValid pool_b
pool_b-IsValid = record {
  id_pos = omega arith;
  id_bound = omega arith;
  address_pos = omega arith;
  size_pos = omega arith;
  size_bound = omega arith;
  end_bound = omega arith;
}

abbrev pub whole_a : DivisiblePool
whole_a = record { pool = pool_a; remaining_size = 4096 }

abbrev pub whole_b : DivisiblePool
whole_b = record { pool = pool_b; remaining_size = 4096 }

abbrev pub two_pools : Dict DivisiblePool
two_pools = (4096, whole_a) ∷ (8192, whole_b) ∷ []

pub two_pools-IsLaidOut : IsLaidOut two_pools
two_pools-IsLaidOut = (refl, pool_a-IsValid, omega arith, (refl, pool_b-IsValid, omega arith, tt))

instance abbrev pub counter : UseCounted ℕ
counter = record {
  new_use = 1;
  increment_use = λ c. c + 1;
  decrement_use = λ c. c - 1;
  get_use_count = λ c. c;
  new_count = refl;
  increment_count = λ c. refl;
  decrement_count = λ c h. refl;
}
