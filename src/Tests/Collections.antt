-- ===== src/Tests/Collections.antt =====
-- Owner and borrower collections on concrete input.
use ipc_shm_arena_lend.Base.{
  ℕ, ◌≡◌, refl, true, false, not, ◌||◌, none, some, [], ◌∷◌, arith, if◌then◌else◌,
}
use ipc_shm_arena_lend.Base.Dict.{is_some, find, emplace}
use ipc_shm_arena_lend.Pool.{Pool, IsValid}
use ipc_shm_arena_lend.Pool.Divisible.{new_divisible}
use ipc_shm_arena_lend.AddressMap.Layout.{Apart}
use ipc_shm_arena_lend.AddressMap.{pool_like, emplace_ordered}
use ipc_shm_arena_lend.Repository.{Repository, empty, insert, pool_holder}
use ipc_shm_arena_lend.Repository.Invariant.{empty-IsConsistent, insert-IsConsistent}
use ipc_shm_arena_lend.Collection.Resources.{fd_open, name_exists}
use ipc_shm_arena_lend.Collection.Borrower.{OpenOutcome, open_shm_pool}
use ipc_shm_arena_lend.Collection.Borrower.Open.{read_only, open_shm_pool-fd_open}
use ipc_shm_arena_lend.Collection.Owner.{
  OwnerCollection, CreateOutcome, RemoveOutcome, create_shm_pool, remove_range_and_pool_if_empty,
}
use ipc_shm_arena_lend.Collection.Owner.Create.{is_created, create_shm_pool-resources}
use ipc_shm_arena_lend.Collection.Owner.Remove.{Ends, remove_range_and_pool_if_empty-Ends}
use ipc_shm_arena_lend.Collection.Owner.Mirror.{plain, hear_all, Mirrors}
use ipc_shm_arena_lend.Collection.Owner.Mirror.Create.{create_shm_pool-Mirrors}
use ipc_shm_arena_lend.Collection.Owner.Mirror.Remove.{remove_range_and_pool_if_empty-Mirrors}
use ipc_shm_arena_lend.Tests.{pool_a, pool_a-IsValid, whole_a, two_pools, two_pools-IsLaidOut}

-- The listener at the address 7 is registered.
abbrev no_pools : OwnerCollection
no_pools = record { pools = []; listeners = (7, tt) ∷ [] }

abbrev one_pool : OwnerCollection
one_pool = record { pools = (4096, whole_a) ∷ []; listeners = (7, tt) ∷ [] }

abbrev owner : OwnerCollection
owner = record { pools = two_pools; listeners = (7, tt) ∷ [] }

abbrev all_succeed : CreateOutcome
all_succeed = record {
  opened = some 3;
  permitted = true;
  truncated = true;
  mapped = some 4096;
  unlinked = true;
}

-- The pool is not mapped, and its name cannot be removed.
abbrev stuck : CreateOutcome
stuck = record {
  opened = some 3;
  permitted = true;
  truncated = true;
  mapped = none;
  unlinked = false;
}

abbrev removed_well : RemoveOutcome
removed_well = record { unmapped = true; unlinked = true }

remove_range_and_pool_if_empty-Ends_example :
    let (c, r, effects) = remove_range_and_pool_if_empty owner 5000 96 none removed_well in
    Ends owner c 5000 96 r effects
remove_range_and_pool_if_empty-Ends_example =
    remove_range_and_pool_if_empty-Ends owner 5000 96 none removed_well two_pools-IsLaidOut

create_shm_pool-resources_example :
    let (c, result, effects) = create_shm_pool no_pools 1 "a" 4096 stuck in
    (fd_open 3 false effects ≡ is_created result)
    × (name_exists "a" false effects ≡ (is_created result || not stuck.unlinked))
create_shm_pool-resources_example = create_shm_pool-resources no_pools 1 "a" 4096 3 stuck refl

abbrev no_repository_pools : Repository Pool
no_repository_pools = empty

no_pools-Mirrors : Mirrors no_pools no_repository_pools
unfolding plain empty
no_pools-Mirrors = (empty-IsConsistent, refl)

mapped_a :
    (fd address : ℕ)
    → some 3 ≡ some fd
    → some 4096 ≡ some address
    → let p = new_divisible 1 "a" address 4096 fd in IsValid p.pool × Apart p.pool (plain [])
unfolding new_divisible plain
mapped_a fd address e f =
    let same : 4096 ≡ address = cc f in
    (
      record {
        id_pos = omega arith;
        id_bound = omega arith;
        address_pos = omega arith;
        size_pos = omega arith;
        size_bound = omega arith;
        end_bound = omega arith;
      },
      tt,
    )

create_shm_pool-Mirrors_example :
    let (c, result, effects) = create_shm_pool no_pools 1 "a" 4096 all_succeed in
    Mirrors c (hear_all 7 no_repository_pools effects)
unfolding empty find
create_shm_pool-Mirrors_example =
    create_shm_pool-Mirrors 7 no_pools no_repository_pools 1 "a" 4096 all_succeed refl mapped_a refl
      no_pools-Mirrors

abbrev one_repository_pool : Repository Pool
one_repository_pool = (insert empty pool_a).0

one_pool-Mirrors : Mirrors one_pool one_repository_pool
unfolding insert plain empty find emplace emplace_ordered
one_pool-Mirrors = (insert-IsConsistent empty pool_a pool_a-IsValid tt empty-IsConsistent, refl)

remove_range_and_pool_if_empty-Mirrors_example :
    let (c, result, effects) =
      remove_range_and_pool_if_empty one_pool 4096 4096 none removed_well in
    Mirrors c (hear_all 7 one_repository_pool effects)
unfolding find
remove_range_and_pool_if_empty-Mirrors_example =
    remove_range_and_pool_if_empty-Mirrors 7 one_pool one_repository_pool 4096 4096 none
      removed_well refl one_pool-Mirrors

-- The mapping fails, and the descriptor stays open.
abbrev unmappable : OpenOutcome
unmappable = record { opened = some 3; mapped = λ p. none; unmapped = true; closed = true }

open_shm_pool-fd_open_example :
    let (m, result, effects) = open_shm_pool [] 1 "a" 4096 unmappable in
    fd_open 3 false effects ≡ (
      if is_some result
      then true
      else if is_some (unmappable.mapped read_only)
      then not true
      else true)
open_shm_pool-fd_open_example = open_shm_pool-fd_open [] 1 "a" 4096 3 unmappable refl

abbrev mappable : OpenOutcome
mappable = record { opened = some 3; mapped = λ p. some 4096; unmapped = true; closed = true }
