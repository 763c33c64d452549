-- ===== src/AddressMap.antt =====
-- `std::map<const void*, std::shared_ptr<Shm_pool>>`, the ordered map of shm/arena_lend/
-- shm_pool_repository.hpp and shm_pool_collection.cpp, with the search for the pool of an address
-- that both files spell out. The map is the list of its entries in ascending order of the keys.
pub mod Layout
pub mod Lookup
use ipc_shm_arena_lend.Base.{
  ℕ, Bool, true, false, Option, none, some, List, [], ◌∷◌, ltb, if◌then◌else◌,
}
use ipc_shm_arena_lend.Base.Dict.{Dict, find}
use ipc_shm_arena_lend.Pool.{Pool, determine_offset}
use ipc_shm_arena_lend.Pool.Divisible.{DivisiblePool}

-- What a `shared_ptr` in the map leads to: a `Shm_pool`, or a class derived from it.
pub record PoolLike (E : Type 0) : Type 0 where
  pub pool_of : E → Pool

instance abbrev pub pool_like : PoolLike Pool
pool_like = record { pool_of = λ p. p }

instance abbrev pub divisible_like : PoolLike DivisiblePool
divisible_like = record { pool_of = λ p. p.pool }

module _ {E : Type 0} where
  unfoldable pub insert_ordered : ℕ → E → Dict E → Dict E
  insert_ordered k e [] = (k, e) ∷ []
  insert_ordered k e ((j, f) ∷ m) =
      if ltb k j then (k, e) ∷ (j, f) ∷ m else (j, f) ∷ insert_ordered k e m

  -- `emplace`: the new map, and whether the entry was inserted.
  unfoldable pub emplace_ordered : ℕ → E → Dict E → Dict E × Bool
  unfolding insert_ordered find
  emplace_ordered k e m = elim (find k m) [
    | none ↦ (insert_ordered k e m, true)
    | some f ↦ (m, false)
  ]

  -- `lower_bound`: an iterator is the entries before it, nearest first, and those from it on.
  unfoldable pub lower_bound : ℕ → Dict E → Dict E → Dict E × Dict E
  lower_bound address before [] = (before, [])
  lower_bound address before ((k, e) ∷ m) =
      let later = lower_bound address ((k, e) ∷ before) m in
      if ltb k address then later else (before, (k, e) ∷ m)

  -- The entry at `rbegin()`, or `d` if the map is empty.
  unfoldable pub last_or : Option E → Dict E → Option E
  last_or d [] = d
  last_or d ((k, e) ∷ m) = last_or (some e) m

  unfoldable pub previous : Dict E → Option E
  previous [] = none
  previous ((k, e) ∷ before) = some e

module _ {E : Type 0} ⦃like : PoolLike E⦄ where
  -- The choice between the entry at the iterator, the preceding one and the last one.
  unfoldable pub choose : ℕ → Option E → Dict E × Dict E → Option E
  unfolding previous
  choose address last (before, []) = last
  choose address last (before, (k, e) ∷ after) =
      if ltb address (like.pool_of e).address then previous before else some e

  -- The pool that may hold the address.
  unfoldable pub candidate : ℕ → Dict E → Option E
  unfolding choose last_or lower_bound
  candidate address m = choose address (last_or none m) (lower_bound address [] m)

  -- The range check at the end: the pool with the offset of the address.
  unfoldable pub check_range : ℕ → Option E → Option (E × ℕ)
  check_range address none = none
  check_range address (some e) = elim (determine_offset (like.pool_of e) address) [
    | none ↦ none
    | some offset ↦ some (e, offset)
  ]

  unfoldable pub lookup : ℕ → Dict E → Option (E × ℕ)
  unfolding candidate check_range
  lookup address m = check_range address (candidate address m)
