-- ===== src/Pool.antt =====
-- shm/arena_lend/shm_pool.hpp and shm_pool.cpp (class `Shm_pool`), divisible_shm_pool.hpp and .cpp
-- (class `Divisible_shm_pool`). An address is a number below 2 ^ 64 and null is 0. `Shm_pool::size_t`
-- is the signed `int32_t`: sizes and offsets are 32-bit patterns. A `shared_ptr` to a pool is the
-- pool's record, and a null `shared_ptr` is `none`; the members of a `Shm_pool` are const.
pub mod Range
pub mod Divisible
use text.Mathlib.Text.{◌==◌ as str_eq}
use ipc_shm_arena_lend.Base.{
  ℕ, ◌+◌, ◌-◌, ◌%◌, ◌^◌, ◌≤◌, ◌<◌, ◌≢◌, ◌≡◌, String, Bool, true, false, not, ◌&&◌, ◌||◌, Option,
  none, some, ltb, leb, ◌==◌, if◌then◌else◌,
}
use ipc_shm_arena_lend.Base.Dict.{is_some}
use ipc_shm_arena_lend.Base.Words.{add_offset, sign_extend}

pub record Pool : Type 0 where
  pub id : ℕ
  pub name : String
  pub address : ℕ
  pub size : ℕ
  pub fd : ℕ

-- The constructor's arguments as its assertions want them, with what `mmap` promises of a mapping:
-- it ends below the top of the address space.
pub record IsValid (p : Pool) : Type 0 where
  pub id_pos : 0 < p.id
  pub id_bound : p.id < 2 ^ 31
  pub address_pos : 0 < p.address
  pub size_pos : 0 < p.size
  pub size_bound : p.size < 2 ^ 31
  pub end_bound : p.address + p.size < 2 ^ 64

-- `determine_offset`: the out-argument where the code returns true.
unfoldable pub determine_offset : Pool → ℕ → Option ℕ
determine_offset p address =
    if ltb address p.address || leb (add_offset p.address p.size) address
    then none
    else some ((address - p.address) % 2 ^ 32)

-- `is_subset`, with the offset that it writes: `determine_offset` comes first, and the comparison
-- is made on 64 bits after the 32-bit subtraction.
unfoldable pub is_subset : Pool → ℕ → ℕ → Option ℕ
is_subset p address range_size = elim (determine_offset p address) [
  | none ↦ none
  | some offset ↦
      if leb range_size (sign_extend ((p.size + 2 ^ 32 - offset) % 2 ^ 32))
      then some offset
      else none
]

-- `to_address`: no check against the size.
unfoldable pub to_address : Pool → ℕ → ℕ
to_address p offset = add_offset p.address offset

-- `operator==`
unfoldable pub pool_eq : Pool → Pool → Bool
pool_eq p q = str_eq p.name q.name && p.address == q.address && p.size == q.size && p.fd == q.fd

-- `operator!=`
unfoldable pub pool_ne : Pool → Pool → Bool
unfolding pool_eq
pool_ne p q = not (pool_eq p q)

-- `is_adjacent`
unfoldable pub is_adjacent : ℕ → ℕ → ℕ → ℕ → Bool
is_adjacent address_a size_a address_b size_b =
    add_offset address_a size_a == address_b || add_offset address_b size_b == address_a
