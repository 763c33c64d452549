-- ===== src/FancyPtr.antt =====
-- shm/arena_lend/shm_pool_offset_ptr.hpp (class template `Shm_pool_offset_ptr`): the pointer operations over
-- the 64 bits of `Shm_pool_offset_ptr_data`. `raw_ok` is CAN_STORE_RAW_PTR, `repo` is Repository_type, and
-- `width` is the size of Pointed_type. Difference_type is `int`, a pattern of 32 bits. Reading and writing
-- through a pointer, which is the access to the object at its address, is left out.
pub mod Arithmetic
pub mod Compare
use ipc_shm_arena_lend.Base.{
  ℕ, ◌+◌, ◌*◌, ◌/◌, ◌-◌, ◌%◌, ◌^◌, Bool, true, false, not, ◌&&◌, ◌==◌, ◌||◌, ltb, leb,
  if◌then◌else◌,
}
use ipc_shm_arena_lend.Base.Words.{sign_extend}
use ipc_shm_arena_lend.OffsetPtr.{RepositoryApi, of_address, convert, increment, to_bool}
use ipc_shm_arena_lend.OffsetPtr as Data

module _ (raw_ok : Bool) (repo : RepositoryApi) where
  unfoldable pub get : ℕ → ℕ
  get p = Data.get raw_ok repo p

  unfoldable pub is_raw : ℕ → Bool
  is_raw p = Data.is_raw raw_ok repo p

  unfoldable pub is_offset : ℕ → Bool
  unfolding is_raw
  is_offset p = not (is_raw p) && to_bool raw_ok repo p

  -- The pointer to an object at this address.
  unfoldable pub pointer_to : ℕ → ℕ → ℕ
  pointer_to garbage object = of_address raw_ok repo garbage object

  -- The conversion from a pointer to the same type but for const, which may store raw pointers or not.
  unfoldable pub from_same : Bool → ℕ → ℕ → ℕ
  from_same other_raw_ok garbage other =
      if raw_ok && other_raw_ok || not raw_ok && not other_raw_ok
      then other
      else convert raw_ok repo garbage other

  -- The conversion from a pointer to another type, where `cast` is the `static_cast` of the address.
  unfoldable pub from_other : Bool → (ℕ → ℕ) → ℕ → ℕ → ℕ
  from_other other_raw_ok cast garbage other =
      of_address raw_ok repo garbage (cast (Data.get other_raw_ok repo other))

  module _ (width : ℕ) where
    -- `operator+=`
    unfoldable pub add : ℕ → ℕ → ℕ
    add p n = increment raw_ok repo p (n * width % 2 ^ 32)

    -- `operator-=`
    unfoldable pub subtract : ℕ → ℕ → ℕ
    unfolding add
    subtract p n = add p ((2 ^ 32 - n) % 2 ^ 32)

    -- `operator++`
    unfoldable pub succ : ℕ → ℕ
    succ p = increment raw_ok repo p (width % 2 ^ 32)

    -- `operator--`
    unfoldable pub pred : ℕ → ℕ
    pred p = increment raw_ok repo p ((2 ^ 32 - width % 2 ^ 32) % 2 ^ 32)

    -- The postfix operators: the new pointer, and the result.
    unfoldable pub post_succ : ℕ → ℕ × ℕ
    unfolding succ
    post_succ p = (succ p, p)

    unfoldable pub post_pred : ℕ → ℕ × ℕ
    unfolding pred
    post_pred p = (pred p, p)

    -- `operator-` of two pointers: the signed 64-bit difference of the addresses in elements, which
    -- divides by the size, cut to 32 bits.
    unfoldable pub difference : ℕ → ℕ → ℕ
    unfolding get
    difference p q =
        let bytes = (get p + (2 ^ 64 - get q)) % 2 ^ 64 in
        if ltb bytes (2 ^ 63)
        then bytes / width % 2 ^ 32
        else (2 ^ 32 - (2 ^ 64 - bytes) / width % 2 ^ 32) % 2 ^ 32

    -- The address that `operator[]` reads.
    unfoldable pub element : ℕ → ℕ → ℕ
    unfolding get
    element p n = (get p + sign_extend n * width) % 2 ^ 64

  -- `operator!`
  unfoldable pub is_null : ℕ → Bool
  is_null p = not (to_bool raw_ok repo p)

  -- The comparisons, all of them of the addresses.
  unfoldable pub eq : ℕ → ℕ → Bool
  unfolding get
  eq p q = get p == get q

  unfoldable pub ne : ℕ → ℕ → Bool
  unfolding eq
  ne p q = not (eq p q)

  unfoldable pub lt : ℕ → ℕ → Bool
  unfolding get
  lt p q = ltb (get p) (get q)

  unfoldable pub le : ℕ → ℕ → Bool
  unfolding get
  le p q = leb (get p) (get q)

  unfoldable pub gt : ℕ → ℕ → Bool
  unfolding get
  gt p q = ltb (get q) (get p)

  unfoldable pub ge : ℕ → ℕ → Bool
  unfolding get
  ge p q = leb (get q) (get p)
