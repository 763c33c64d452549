-- ===== src/Tests/Pools.antt =====
-- Pools, their IDs, the address map and the repositories on concrete input.
use ipc_shm_arena_lend.Base.{
  ℕ, ◌≡◌, ◌+◌, ◌-◌, refl, true, false, none, some, List, [], ◌∷◌, arith, inl, inr, leb,
  if◌then◌else◌, ◌==◌,
}
use ipc_shm_arena_lend.Base.Dict.{is_some, find, emplace}
use ipc_shm_arena_lend.Pool.{Pool}
use ipc_shm_arena_lend.PoolId.{map_failed, init_region}
use ipc_shm_arena_lend.PoolId.Sequence.{
  Event, opens, takes, creates_half_way, fails_half_way, step, AllClean, Distinct, run, boot, take,
  id_count, issued-Distinct,
}
use ipc_shm_arena_lend.AddressMap.{divisible_like, lookup, emplace_ordered, insert_ordered}
use ipc_shm_arena_lend.AddressMap.Lookup.{holder, lookup-holder}
use ipc_shm_arena_lend.Repository.{Repository, pool_holder, empty, insert, api}
use ipc_shm_arena_lend.Repository.Invariant.{IsConsistent, empty-IsConsistent}
use ipc_shm_arena_lend.Repository.History.{
  Change, inserts, erases, changes, Mapped, change, changes-IsConsistent, pointer-changes,
}
use ipc_shm_arena_lend.Repository.Borrower.{UseTracker, tracker_holder}
use ipc_shm_arena_lend.Repository.Borrower.Counts.{
  uses, use_times, release_times, release_times-use_times,
}
use ipc_shm_arena_lend.OffsetPtr.{get, of_address}
use ipc_shm_arena_lend.Tests.{
  counter, pool_a, pool_b, pool_a-IsValid, pool_b-IsValid, two_pools, two_pools-IsLaidOut,
}

-- Two processes: one opens, the other fails to map the object, opens again and takes, the first takes.
abbrev two_processes : List Event
two_processes =
    opens 1 none 0 ∷ opens 2 (some map_failed) 0 ∷ opens 2 none 0 ∷ takes 2 ∷ takes 1 ∷ []

two_processes-AllClean : AllClean boot two_processes
unfolding creates_half_way fails_half_way step init_region
two_processes-AllClean = (refl, (refl, (refl, (refl, (refl, tt)))))

issued-Distinct_example : Distinct (take id_count (run boot two_processes).issued)
issued-Distinct_example = issued-Distinct two_processes two_processes-AllClean

lookup-holder_example : lookup 9000 two_pools ≡ holder 9000 two_pools
lookup-holder_example = lookup-holder 9000 two_pools two_pools-IsLaidOut

-- Both pools come, and the first goes.
abbrev history : List Change
history = inserts pool_a ∷ inserts pool_b ∷ erases 1 ∷ []

history-Mapped : Mapped {H = Pool} empty history
unfolding change insert empty find emplace emplace_ordered insert_ordered
history-Mapped = ((pool_a-IsValid, tt), ((pool_b-IsValid, (inr (omega arith), tt)), tt))

abbrev after_history : Repository Pool
after_history = changes empty history

after_history-IsConsistent : IsConsistent after_history
after_history-IsConsistent = changes-IsConsistent empty history history-Mapped empty-IsConsistent

changes-IsConsistent_example : IsConsistent after_history
changes-IsConsistent_example = changes-IsConsistent empty history history-Mapped empty-IsConsistent

pointer-changes_example :
    (get true (api after_history) (of_address true (api after_history) 77 9000) ≡ 9000)
    × (get false (api after_history) (of_address false (api after_history) 77 9000)
        ≡ (if ((api after_history).from_address 9000).0 == 0 then 0 else 9000))
pointer-changes_example = pointer-changes Pool history 77 9000 history-Mapped (inl (omega arith))

abbrev no_trackers : Repository (UseTracker ℕ)
no_trackers = empty

release_times-use_times_example :
    let r = release_times 2 1 (use_times 3 1 (insert no_trackers pool_a).0) in
    (is_some (find 1 r.id_map) ≡ leb 2 3) × (uses r 1 ≡ 1 + 3 - 2)
unfolding insert empty find emplace emplace_ordered
release_times-use_times_example = release_times-use_times no_trackers pool_a 3 2 refl
