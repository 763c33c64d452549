-- ===== src/Pool/Divisible.antt =====
-- shm/arena_lend/divisible_shm_pool.hpp and .cpp (class `Divisible_shm_pool`). The mutex of
-- `Lockable_shm_pool` makes each of these steps atomic.
use ipc_shm_arena_lend.Base.{
  ℕ, ◌-◌, ◌≤◌, ◌≡◌, Bool, true, false, arith, ltb, leb, ◌==◌, if◌then◌else◌, ◌+◌, List, [], ◌∷◌,
  String,
}
use ipc_shm_arena_lend.Pool.{Pool}

pub record DivisiblePool : Type 0 where
  pub pool : Pool
  pub remaining_size : ℕ

-- The constructor.
unfoldable pub new_divisible : ℕ → String → ℕ → ℕ → ℕ → DivisiblePool
new_divisible id name address size fd = record {
  pool = record { id = id; name = name; address = address; size = size; fd = fd };
  remaining_size = size;
}

unfoldable pub is_completely_removed : DivisiblePool → Bool
is_completely_removed p = p.remaining_size == 0

unfoldable pub remove_size : DivisiblePool → ℕ → DivisiblePool × Bool
remove_size p n =
    if ltb p.remaining_size n
    then (record p { remaining_size = 0 }, false)
    else (record p { remaining_size = p.remaining_size - n }, true)

-- Removals in sequence, and whether all of them fitted.
unfoldable pub remove_sizes : DivisiblePool → List ℕ → DivisiblePool
remove_sizes p [] = p
remove_sizes p (n ∷ ns) = remove_sizes (remove_size p n).0 ns

unfoldable pub total : List ℕ → ℕ
total [] = 0
total (n ∷ ns) = n + total ns

-- Whatever the order and the sizes, what is left after a sequence of removals is the size less
-- their sum, and 0 where the sum is larger; the pool itself does not change.
remove_sizes-total :
    (p : DivisiblePool) (ns : List ℕ)
    → ((remove_sizes p ns).remaining_size ≡ p.remaining_size - total ns)
      × ((remove_sizes p ns).pool ≡ p.pool)
unfolding remove_sizes total remove_size
remove_sizes-total p [] = ground arith
remove_sizes-total p (n ∷ ns) = ground (arith, remove_sizes-total (remove_size p n).0 ns)

-- `remove_size` returns whether the size fitted, never grows the remainder, and leaves the pool
-- completely removed exactly when the size was at least the remainder.
pub remove_size-is_completely_removed :
    (p : DivisiblePool) (n : ℕ)
    → ((remove_size p n).1 ≡ leb n p.remaining_size)
      × (is_completely_removed (remove_size p n).0 ≡ leb p.remaining_size n)
      × ((remove_size p n).0.remaining_size ≤ p.remaining_size)
unfolding remove_size is_completely_removed
remove_size-is_completely_removed p n = ground arith
