-- ===== src/Base/Words.antt =====
-- Machine integers as bit patterns: `uint64_t` and pointers below 2 ^ 64, `int32_t` below 2 ^ 32.
use mathlib.Core.Path.{◌≡◌}
use Prim.Native.Nat.{ℕ, ◌+◌, ◌-◌, ◌%◌, ◌^◌, ◌<◌, ◌≤◌}
use native.Mathlib.Omega.{arith}
use ipc_shm_arena_lend.Base.Tests.{ltb, if◌then◌else◌}

-- The conversion of an `int32_t` to 64 bits, as a two's complement pattern.
unfoldable pub sign_extend : ℕ → ℕ
sign_extend b = if ltb b (2 ^ 31) then b else 2 ^ 64 - 2 ^ 32 + b

-- `p + b` for a byte pointer and an `int32_t`.
unfoldable pub add_offset : ℕ → ℕ → ℕ
unfolding sign_extend
add_offset p b = (p + sign_extend b) % 2 ^ 64

pub add_offset-lt : (p b : ℕ) → add_offset p b < 2 ^ 64
unfolding add_offset
add_offset-lt p b = omega arith

pub add_offset-nonneg : (p b : ℕ) → b < 2 ^ 31 → p + b < 2 ^ 64 → add_offset p b ≡ p + b
unfolding add_offset
add_offset-nonneg p b h k = ground arith

pub add_offset-zero : (p : ℕ) → p < 2 ^ 64 → add_offset p 0 ≡ p
unfolding add_offset
add_offset-zero p h = ground arith

-- The sum of two `int32_t` does not overflow.
abbrev pub Fits : ℕ → ℕ → Type 0
Fits a b =
    (a < 2 ^ 31 → b < 2 ^ 31 → a + b < 2 ^ 31) × (2 ^ 31 ≤ a → 2 ^ 31 ≤ b → 2 ^ 32 + 2 ^ 31 ≤ a + b)

-- Steps that stay in the range of an `int32_t` add up.
pub add_offset-add :
    (p a b : ℕ)
    → a < 2 ^ 32
    → b < 2 ^ 32
    → Fits a b
    → add_offset (add_offset p a) b ≡ add_offset p ((a + b) % 2 ^ 32)
unfolding add_offset
add_offset-add p a b ha hb f = ground arith
