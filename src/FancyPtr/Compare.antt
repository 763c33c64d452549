-- ===== src/FancyPtr/Compare.antt =====
-- The conversions and the comparisons of shm/arena_lend/shm_pool_offset_ptr.hpp.
use ipc_shm_arena_lend.Base.{ℕ, ◌≡◌, ◌+◌, Bool, true, false, not, ◌||◌, arith, refl, if◌then◌else◌}
use ipc_shm_arena_lend.OffsetPtr.{RepositoryApi}
use ipc_shm_arena_lend.OffsetPtr as Data
use ipc_shm_arena_lend.OffsetPtr.RoundTrip.{IsCanonical, Knows, get-of_address}
use ipc_shm_arena_lend.FancyPtr.{
  get, is_raw, is_offset, is_null, from_same, from_other, eq, ne, lt, le, gt, ge,
}

module _ (raw_ok : Bool) (repo : RepositoryApi) where
  -- Every two pointers compare as less, equal or greater and as just one of these, `<=`, `>=` and `!=` agree
  -- with that, and `<=` is transitive; pointers that compare as equal have one address and no more.
  lt-eq-gt :
      (p q r : ℕ)
      → (((if lt raw_ok repo p q then 1 else 0)
            + ((if eq raw_ok repo p q then 1 else 0) + (if gt raw_ok repo p q then 1 else 0)))
          ≡ 1)
        × (le raw_ok repo p q ≡ (lt raw_ok repo p q || eq raw_ok repo p q))
        × (ge raw_ok repo p q ≡ not (lt raw_ok repo p q))
        × (ne raw_ok repo p q ≡ (lt raw_ok repo p q || gt raw_ok repo p q))
        × (le raw_ok repo p q ≡ true → le raw_ok repo q r ≡ true → le raw_ok repo p r ≡ true)
  unfolding eq ne lt le gt ge
  lt-eq-gt p q r = (ground arith, ground arith, ground arith, ground arith, ground arith)

  -- Every pointer is null, raw or in a pool, and just one of these.
  is_null-is_raw-is_offset :
      (p : ℕ)
      → (if is_null raw_ok repo p then 1 else 0)
          + ((if is_raw raw_ok repo p then 1 else 0) + (if is_offset raw_ok repo p then 1 else 0))
        ≡ 1
  unfolding is_null is_raw is_offset Data.is_raw Data.to_bool
  is_null-is_raw-is_offset p = ground arith

-- A conversion to a pointer that may be raw, from a pointer that may be raw or not, keeps the address
-- that the other pointer leads to, or to which the `static_cast` leads from there, where that
-- address is canonical and the repository knows the pools that hold it.
get-from_same :
    (repo : RepositoryApi) (other_raw_ok : Bool) (cast : ℕ → ℕ) (garbage p : ℕ)
    → IsCanonical (Data.get other_raw_ok repo p)
    → Knows repo (Data.get other_raw_ok repo p)
    → IsCanonical (cast (Data.get other_raw_ok repo p))
    → Knows repo (cast (Data.get other_raw_ok repo p))
    → (get true repo (from_same true repo other_raw_ok garbage p) ≡ Data.get other_raw_ok repo p)
      × (get true repo (from_other true repo other_raw_ok cast garbage p)
          ≡ cast (Data.get other_raw_ok repo p))
unfolding get from_same from_other Data.convert
get-from_same repo true cast garbage p a b c d =
    (refl, get-of_address repo garbage (cast (Data.get true repo p)) c d)
get-from_same repo false cast garbage p a b c d = (
  get-of_address repo garbage (Data.get false repo p) a b,
  get-of_address repo garbage (cast (Data.get false repo p)) c d,
)
