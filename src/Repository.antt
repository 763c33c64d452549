-- ===== src/Repository.antt =====
-- shm/arena_lend/shm_pool_repository.hpp (class template `Shm_pool_repository`) and
-- shm_pool_repository_singleton.hpp. A repository has two maps over the same pools: by ID, with the
-- holder that is the template parameter, and by base address. The mutex makes each operation one
-- step. The conversions of the singleton are those of its one instance.
pub mod Invariant
pub mod Lookup
pub mod Borrower
pub mod History
use ipc_shm_arena_lend.Base.{ℕ, Bool, true, false, ◌≡◌, refl, Option, none, some, List, []}
use ipc_shm_arena_lend.Base.Dict.{Dict, find, erase, emplace}
use ipc_shm_arena_lend.Pool.{Pool, to_address}
use ipc_shm_arena_lend.AddressMap.{pool_like, lookup, emplace_ordered}
use ipc_shm_arena_lend.OffsetPtr.{RepositoryApi}

-- The template parameter: constructed from a pool, and gives it back.
pub record Holder (H : Type 0) : Type 0 where
  pub hold : Pool → H
  pub get_shm_pool : H → Pool
  pub get_shm_pool-hold : (p : Pool) → get_shm_pool (hold p) ≡ p

-- `Shm_pool_holder`
instance abbrev pub pool_holder : Holder Pool
pool_holder = record { hold = λ p. p; get_shm_pool = λ p. p; get_shm_pool-hold = λ p. refl }

pub record Repository (H : Type 0) : Type 0 where
  pub id_map : Dict H
  pub address_map : Dict Pool

unfoldable pub empty : {H : Type 0} → Repository H
empty = record { id_map = []; address_map = [] }

module _ {H : Type 0} ⦃holder : Holder H⦄ where
  -- Null where the ID is unknown.
  unfoldable pub pool_address : Repository H → ℕ → ℕ → ℕ
  pool_address r id offset = elim (find id r.id_map) [
    | none ↦ 0
    | some h ↦ to_address (holder.get_shm_pool h) offset
  ]

  -- `from_address`: null, or the pool and the offset.
  unfoldable pub from_address : Repository H → ℕ → Option (Pool × ℕ)
  from_address r address = lookup address r.address_map

  -- An insertion that fails in the second map is taken back in the first.
  insert_result : Repository H → Dict H → Dict Pool → Bool → Bool → ℕ → Repository H × Bool
  insert_result r ids addresses false new_address id = (r, false)
  insert_result r ids addresses true false id = (record r { id_map = erase id ids }, false)
  insert_result r ids addresses true true id =
      (record { id_map = ids; address_map = addresses }, true)

  unfoldable pub insert : Repository H → Pool → Repository H × Bool
  unfolding insert_result
  insert r p =
      let (ids, new_id) = emplace p.id (holder.hold p) r.id_map in
      let (addresses, new_address) = emplace_ordered p.address p r.address_map in
      insert_result r ids addresses new_id new_address p.id

  -- The holder's entry goes first, then the entry of its pool's address.
  unfoldable pub erase_locked : Repository H → ℕ → H → Repository H
  erase_locked r id h = record {
    id_map = erase id r.id_map;
    address_map = erase (holder.get_shm_pool h).address r.address_map;
  }

  unfoldable pub erase_pool : Repository H → ℕ → Repository H × Bool
  unfolding erase_locked
  erase_pool r id = elim (find id r.id_map) [
    | none ↦ (r, false)
    | some h ↦ (erase_locked r id h, true)
  ]

  -- `Shm_pool_repository_singleton::from_address`: the pool's ID, or 0.
  unfoldable pub from_address_ids : Repository H → ℕ → ℕ × ℕ
  from_address_ids r address = elim (from_address r address) [
    | none ↦ (0, 0)
    | some (p, offset) ↦ (p.id, offset)
  ]

  -- A repository as the template parameter of a fancy pointer.
  unfoldable pub api : Repository H → RepositoryApi
  api r = record { to_address = pool_address r; from_address = from_address_ids r }
