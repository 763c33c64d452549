-- ===== src/Pool/Range.antt =====
-- What the address arithmetic of shm/arena_lend/shm_pool.cpp and shm_pool.hpp computes.
use ipc_shm_arena_lend.Base.{ℕ, ◌+◌, ◌-◌, ◌^◌, ◌≤◌, ◌<◌, ◌≡◌, true, some, arith, ◌⊎◌, ◌↔◌}
use ipc_shm_arena_lend.Base.Words.{sign_extend, add_offset-nonneg}
use ipc_shm_arena_lend.Pool.{Pool, IsValid, determine_offset, is_subset, to_address, is_adjacent}

-- An address lies in the mapped range.
abbrev pub Contains : Pool → ℕ → Type 0
Contains p address = (p.address ≤ address) × (address < p.address + p.size)

pub determine_offset-Contains :
    (p : Pool) (address : ℕ)
    → IsValid p
    → Contains p address
    → determine_offset p address ≡ some (address - p.address)
unfolding determine_offset
determine_offset-Contains p address v c = ground (arith, add_offset-nonneg p.address p.size)

pub determine_offset-some :
    (p : Pool) (address : ℕ) {offset : ℕ}
    → IsValid p
    → determine_offset p address ≡ some offset
    → (p.address ≤ address) × (address < p.address + p.size) × (offset ≡ address - p.address)
unfolding determine_offset
determine_offset-some p address v h = ground (arith, add_offset-nonneg p.address p.size)

-- For a valid pool, `determine_offset` succeeds exactly on the addresses of the pool, and then the
-- offset it returns is below the pool's size and `to_address` leads back to the address.
determine_offset-to_address :
    (p : Pool) (address : ℕ)
    → IsValid p
    → (Contains p address ↔ (
        (offset : ℕ) × (determine_offset p address ≡ some offset)
        × (offset < p.size)
        × (to_address p offset ≡ address)))
unfolding to_address
determine_offset-to_address p address v = (
  λ c. (
    address - p.address,
    determine_offset-Contains p address v c,
    omega arith,
    omega (arith, add_offset-nonneg p.address (address - p.address)),
  ),
  λ (offset, e, _, _). let (lo, hi, _) = determine_offset-some p address v e in (lo, hi),
)

-- For a valid pool, `is_subset` succeeds exactly when the whole range lies in the pool and starts
-- inside it, and then it returns the distance of the range from the base.
pub is_subset-Contains :
    (p : Pool) (address range_size offset : ℕ)
    → IsValid p
    → ((is_subset p address range_size ≡ some offset) ↔ (
        Contains p address
        × (address + range_size ≤ p.address + p.size)
        × (p.address + offset ≡ address)))
unfolding is_subset determine_offset sign_extend
is_subset-Contains p address range_size offset v = (
  ground (arith, add_offset-nonneg p.address p.size),
  ground (arith, add_offset-nonneg p.address p.size),
)

-- Two ranges below 2 ^ 31 bytes that end within the address space are adjacent exactly when one
-- starts where the other ends.
pub is_adjacent_iff :
    (a size_a b size_b : ℕ)
    → size_a < 2 ^ 31
    → size_b < 2 ^ 31
    → a + size_a < 2 ^ 64
    → b + size_b < 2 ^ 64
    → ((is_adjacent a size_a b size_b ≡ true) ↔ ((a + size_a ≡ b) ⊎ (b + size_b ≡ a)))
unfolding is_adjacent
is_adjacent_iff a size_a b size_b ha hb ea eb =
    ground (arith, add_offset-nonneg a size_a, add_offset-nonneg b size_b)
