-- ===== src/Collection.antt =====
-- shm/arena_lend/shm_pool_collection.hpp and .cpp (class `Shm_pool_collection`). The elements of the
-- map are `Shm_pool`s or objects derived from it. A call of the operating system is an outcome that
-- the caller is given, and a line of the trace; logging is left out.
pub mod Owner
pub mod Borrower
pub mod Resources
use ipc_shm_arena_lend.Base.{
  ℕ, ◌≡◌, Bool, true, false, Option, none, some, List, [], ◌∷◌, if◌then◌else◌, String, ◌||◌,
}
use ipc_shm_arena_lend.Base.Dict.{Dict, find, erase, is_some}
use ipc_shm_arena_lend.Pool.{Pool}
use ipc_shm_arena_lend.AddressMap.{PoolLike, lookup, emplace_ordered}

-- What the program asks of the operating system and tells its listeners. `opens` and `maps` are
-- calls that succeeded; the others are recorded whatever they return.
pub data Effect : Type 0 where
  opens : String → ℕ → Effect
  maps : ℕ → ℕ → Effect
  unmaps : ℕ → ℕ → Effect
  closes : ℕ → Effect
  unlinks : String → Bool → Effect
  notifies_created : ℕ → Pool → Effect
  notifies_removed : ℕ → Pool → Bool → Effect

-- The memory protection flags of `map_shm`: PROT_READ and PROT_WRITE; neither is PROT_NONE.
pub record Protection : Type 0 where
  pub read : Bool
  pub write : Bool

unfoldable pub protection : Bool → Bool → Protection
protection read_enabled true = record { read = read_enabled; write = true }
protection read_enabled false = record { read = read_enabled; write = false }

-- `map_shm`, where the mapping of the file under these flags returns an address or fails.
unfoldable pub map_shm : (Protection → Option ℕ) → Bool → Bool → ℕ → Option ℕ × List Effect
unfolding protection
map_shm mmap read_enabled write_enabled fd = elim (mmap (protection read_enabled write_enabled)) [
  | none ↦ (none, [])
  | some address ↦ (some address, maps fd address ∷ [])
]

module _ {E : Type 0} ⦃like : PoolLike E⦄ where
  -- `lookup_shm_pool`: the search of the ordered map, without the offset.
  unfoldable pub lookup_shm_pool : Dict E → ℕ → Option E
  lookup_shm_pool m address = elim (lookup address m) [ none ↦ none | some (e, offset) ↦ some e ]

  unfoldable pub lookup_shm_pool_exact : Dict E → ℕ → Option E
  lookup_shm_pool_exact m address = find address m

  unfoldable pub register_shm_pool : Dict E → E → Dict E × Bool
  register_shm_pool m e = emplace_ordered (like.pool_of e).address e m

  -- `deregister_shm_pool`: whether an entry was erased under the base of the pool.
  unfoldable pub deregister_shm_pool : Dict E → Pool → Dict E × Bool
  deregister_shm_pool m p = (erase p.address m, is_some (find p.address m))

-- `close_shm_pool`, given whether `munmap` and `close` succeed: the file stays open if the unmapping
-- fails.
unfoldable pub close_shm_pool : Bool → Bool → Pool → Bool × List Effect
close_shm_pool unmapped closed p =
    if unmapped
    then (closed, unmaps p.address p.size ∷ closes p.fd ∷ [])
    else (false, unmaps p.address p.size ∷ [])
