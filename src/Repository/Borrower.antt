-- ===== src/Repository/Borrower.antt =====
-- shm/arena_lend/borrower_shm_pool_repository.hpp and .cpp (class `Borrower_shm_pool_repository`), and
-- detail/shm_pool_use_tracker.hpp. `util::Use_counted_object` belongs to another repository: it is the
-- interface `UseCounted`.
pub mod Counts
use ipc_shm_arena_lend.Base.{
  ℕ, ◌+◌, ◌-◌, ◌≡◌, ◌<◌, refl, Bool, true, false, Option, none, some, leb, if◌then◌else◌,
}
use ipc_shm_arena_lend.Base.Dict.{Dict, find, assign, erase}
use ipc_shm_arena_lend.Pool.{Pool}
use ipc_shm_arena_lend.Repository.{Holder, Repository, erase_locked}

-- A use counter: a new object has one use, and the counter goes up and down by one.
pub record UseCounted (C : Type 0) : Type 0 where
  pub new_use : C
  pub increment_use : C → C
  pub decrement_use : C → C
  pub get_use_count : C → ℕ
  pub new_count : get_use_count new_use ≡ 1
  pub increment_count : (c : C) → get_use_count (increment_use c) ≡ get_use_count c + 1
  pub decrement_count :
      (c : C) → 0 < get_use_count c → get_use_count (decrement_use c) ≡ get_use_count c - 1

-- `Shm_pool_use_tracker`: a use counter and a pool.
pub record UseTracker (C : Type 0) : Type 0 where
  pub uses : C
  pub shm_pool : Pool

instance abbrev pub tracker_holder : {C : Type 0} ⦃u : UseCounted C⦄ → Holder (UseTracker C)
tracker_holder ⦃u⦄ = record {
  hold = λ p. record { uses = u.new_use; shm_pool = p };
  get_shm_pool = λ t. t.shm_pool;
  get_shm_pool-hold = λ p. refl;
}

module _ {C : Type 0} ⦃u : UseCounted C⦄ where
  -- The pool, or null where the ID is unknown.
  unfoldable pub increment_use :
      Repository (UseTracker C) → ℕ → Repository (UseTracker C) × Option Pool
  increment_use r id = elim (find id r.id_map) [
    | none ↦ (r, none)
    | some t ↦ (
      record r { id_map = assign id (record t { uses = u.increment_use t.uses }) r.id_map },
      some t.shm_pool,
    )
  ]

  -- The pool and the count that is left, or null where the ID is unknown.
  unfoldable pub erase_or_decrement_use :
      Repository (UseTracker C) → ℕ → Repository (UseTracker C) × Option (Pool × ℕ)
  unfolding erase_locked
  erase_or_decrement_use r id = elim (find id r.id_map) [
    | none ↦ (r, none)
    | some t ↦
        if leb (u.get_use_count t.uses) 1
        then (erase_locked r id t, some (t.shm_pool, 0))
        else let uses = u.decrement_use t.uses in
          (
            record r { id_map = assign id (record t { uses = uses }) r.id_map },
            some (t.shm_pool, u.get_use_count uses),
          )
  ]
