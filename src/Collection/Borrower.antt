-- ===== src/Collection/Borrower.antt =====
-- shm/arena_lend/borrower_shm_pool_collection.hpp and .cpp (class `Borrower_shm_pool_collection`).
pub mod Open
use ipc_shm_arena_lend.Base.{
  ℕ, ◌+◌, ◌%◌, ◌^◌, Bool, true, false, Option, none, some, List, [], ◌∷◌, ◌++◌, if◌then◌else◌,
  String, ltb, ◌==◌,
}
use ipc_shm_arena_lend.Base.Dict.{Dict}
use ipc_shm_arena_lend.Base.Words.{sign_extend}
use ipc_shm_arena_lend.Pool.{Pool}
use ipc_shm_arena_lend.AddressMap.{pool_like}
use ipc_shm_arena_lend.Collection.{
  Effect, opens, Protection, map_shm, register_shm_pool, deregister_shm_pool, close_shm_pool,
}

-- What the system does in `open_shm_pool`: `shm_open`, the mapping under some flags, and the
-- unmapping and closing of a mapping that could not be registered.
pub record OpenOutcome : Type 0 where
  pub opened : Option ℕ
  pub mapped : Protection → Option ℕ
  pub unmapped : Bool
  pub closed : Bool

-- The part after the mapping.
unfoldable pub register_opened :
    Dict Pool → Pool → OpenOutcome → Dict Pool × Option Pool × List Effect
unfolding register_shm_pool close_shm_pool
register_opened m p o =
    let (m', registered) = register_shm_pool m p in
    if registered then (m', some p, []) else (m', none, (close_shm_pool o.unmapped o.closed p).1)

unfoldable pub use_mapped :
    Dict Pool
    → ℕ
    → String
    → ℕ
    → ℕ
    → OpenOutcome
    → Option ℕ × List Effect
    → Dict Pool × Option Pool × List Effect
unfolding register_opened
use_mapped m id name size fd o (none, effects) = (m, none, effects)
use_mapped m id name size fd o (some address, effects) =
    let p : Pool = record { id = id; name = name; address = address; size = size; fd = fd } in
    let (m', result, more) = register_opened m p o in (m', result, effects ++ more)

-- Opened and mapped for reading only.
unfoldable pub open_shm_pool :
    Dict Pool → ℕ → String → ℕ → OpenOutcome → Dict Pool × Option Pool × List Effect
unfolding use_mapped map_shm
open_shm_pool m id name size o = elim o.opened [
  | none ↦ (m, none, [])
  | some fd ↦
      let (m', result, effects) = use_mapped m id name size fd o (map_shm o.mapped true false fd) in
      (m', result, opens name fd ∷ effects)
]

-- `release_shm_pool`, given whether `munmap` and `close` succeed.
unfoldable pub release_shm_pool : Dict Pool → Pool → Bool → Bool → Dict Pool × Bool × List Effect
unfolding deregister_shm_pool close_shm_pool
release_shm_pool m p unmapped closed =
    let (m', found) = deregister_shm_pool m p in
    if found
    then (let (ok, effects) = close_shm_pool unmapped closed p in (m', ok, effects))
    else (m', false, [])

-- `construct`: the address of the object, or null where the sum wraps around or is null. The offset
-- is a `size_t`, so a negative `pool_offset_t` arrives as its sign extension.
unfoldable pub construct : ℕ → ℕ → Option ℕ
construct base_address offset =
    let actual_address = (base_address + offset) % 2 ^ 64 in
    if ltb actual_address base_address
    then none
    else if actual_address == 0
    then none
    else some actual_address
