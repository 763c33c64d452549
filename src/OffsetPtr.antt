-- ===== src/OffsetPtr.antt =====
-- shm/arena_lend/detail/shm_pool_offset_ptr_data.hpp (class template `Shm_pool_offset_ptr_data`).
-- The 64 bits of a pointer are a number `rep` below 2 ^ 64, and the bit fields of `Offset_ptr_rep` and
-- `Raw_ptr_rep` are read and written by division and remainder. `raw_ok` is CAN_STORE_RAW_PTR, and
-- `repo` is the template parameter Repository_type.
pub mod Fields
pub mod RoundTrip
pub mod Increment
use ipc_shm_arena_lend.Base.{
  ℕ, ◌+◌, ◌*◌, ◌/◌, ◌%◌, ◌^◌, Bool, true, false, not, ◌&&◌, ◌==◌, if◌then◌else◌,
}
use ipc_shm_arena_lend.Base.Words.{sign_extend}

-- The two static functions of a repository. `from_address` returns the pool's ID, or 0 where no pool
-- holds the address, and the offset.
pub record RepositoryApi : Type 0 where
  pub to_address : ℕ → ℕ → ℕ
  pub from_address : ℕ → ℕ × ℕ

-- `Offset_ptr_rep`: 32 bits of offset, 31 bits of pool ID, the selector.
unfoldable pub pool_offset : ℕ → ℕ
pool_offset rep = rep % 2 ^ 32

unfoldable pub pool_id : ℕ → ℕ
pool_id rep = rep / 2 ^ 32 % 2 ^ 31

unfoldable pub selector : ℕ → ℕ
selector rep = rep / 2 ^ 63 % 2

unfoldable pub set_pool_offset : ℕ → ℕ → ℕ
set_pool_offset rep v = rep / 2 ^ 32 * 2 ^ 32 + v % 2 ^ 32

unfoldable pub set_pool_id : ℕ → ℕ → ℕ
set_pool_id rep v = rep / 2 ^ 63 * 2 ^ 63 + v % 2 ^ 31 * 2 ^ 32 + rep % 2 ^ 32

unfoldable pub set_selector : ℕ → ℕ → ℕ
set_selector rep v = v % 2 * 2 ^ 63 + rep % 2 ^ 63

-- `Raw_ptr_rep`: 48 bits of address, 14 bits of sign extension, its top bit, the selector.
unfoldable pub val_bits : ℕ → ℕ
val_bits rep = rep % 2 ^ 48

unfoldable pub ext_sign_bits_except_msb : ℕ → ℕ
ext_sign_bits_except_msb rep = rep / 2 ^ 48 % 2 ^ 14

unfoldable pub ext_sign_msb : ℕ → ℕ
ext_sign_msb rep = rep / 2 ^ 62 % 2

-- The default constructor.
unfoldable pub null_rep : ℕ
null_rep = 0

module _ (raw_ok : Bool) (repo : RepositoryApi) where
  -- The constructor from a `void*`. `garbage` is what the uninitialized member holds.
  unfoldable pub of_address : ℕ → ℕ → ℕ
  unfolding set_pool_offset set_pool_id set_selector
  of_address garbage p =
      if p == 0
      then 0
      else let (id, offset) = repo.from_address p in
        if id == 0
        then if raw_ok then set_selector p 0 else 0
        else set_pool_offset (set_pool_id (set_selector garbage 1) id) offset

  unfoldable pub get : ℕ → ℕ
  unfolding pool_offset pool_id selector set_selector ext_sign_msb
  get rep =
      if rep == 0
      then 0
      else if raw_ok && selector rep == 0
      then if ext_sign_msb rep == 0 then rep else set_selector rep 1
      else repo.to_address (pool_id rep) (pool_offset rep)

  unfoldable pub is_raw : ℕ → Bool
  unfolding selector
  is_raw rep = if raw_ok then selector rep == 0 && not (rep == 0) else false

  -- `operator bool`
  unfoldable pub to_bool : ℕ → Bool
  to_bool rep = not (rep == 0)

  -- `increment` by an `int32_t`. The offset's overflow wraps.
  unfoldable pub increment : ℕ → ℕ → ℕ
  unfolding selector set_pool_offset pool_offset sign_extend
  increment rep bytes =
      if raw_ok && selector rep == 0
      then (rep + sign_extend bytes) % 2 ^ 64
      else if not raw_ok && rep == 0
      then rep
      else set_pool_offset rep (pool_offset rep + bytes)

-- The copy constructor from a pointer whose `raw_ok` is the opposite: through its address.
unfoldable pub convert : Bool → RepositoryApi → ℕ → ℕ → ℕ
convert raw_ok repo garbage src = of_address raw_ok repo garbage (get (not raw_ok) repo src)
