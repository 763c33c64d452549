-- ===== src/FancyPtr/Arithmetic.antt =====
-- The pointer arithmetic of shm/arena_lend/shm_pool_offset_ptr.hpp.
use ipc_shm_arena_lend.Base.{
  ℕ, ◌≡◌, ◌+◌, ◌*◌, ◌/◌, ◌-◌, ◌%◌, ◌^◌, ◌<◌, Bool, arith, Bool-cases, inl, inr, ◌⊎◌, ◌==◌, refl,
  sym, ap, ◌∙◌,
}
use native.Mathlib.Nat.{mul-div_cancel, add-mul, zero-div}
use ipc_shm_arena_lend.Base.Words.{add_offset, add_offset-nonneg}
use ipc_shm_arena_lend.OffsetPtr.{RepositoryApi}
use ipc_shm_arena_lend.OffsetPtr as Data
use ipc_shm_arena_lend.OffsetPtr.Fields.{encode}
use ipc_shm_arena_lend.OffsetPtr.RoundTrip.{get-encode}
use ipc_shm_arena_lend.OffsetPtr.Increment.{increment-encode}
use ipc_shm_arena_lend.FancyPtr.{get, add, subtract, succ, pred, post_succ, post_pred, difference}

module _ (raw_ok : Bool) (repo : RepositoryApi) (width : ℕ) where
  add-encode :
      (id offset n : ℕ)
      → id < 2 ^ 31
      → offset < 2 ^ 32
      → add raw_ok repo width (encode id offset) n
        ≡ encode id ((offset + n * width % 2 ^ 32) % 2 ^ 32)
  unfolding add
  add-encode id offset n h k = increment-encode raw_ok repo id offset (n * width % 2 ^ 32) h k

  get-pool :
      (id base o : ℕ)
      → id < 2 ^ 31
      → ((o : ℕ) → repo.to_address id o ≡ add_offset base o)
      → o < 2 ^ 31
      → base + o < 2 ^ 63
      → get raw_ok repo (encode id o) ≡ base + o
  unfolding get
  get-pool id base o h at k l =
      get-encode raw_ok repo id o h (omega arith)
      ∙ (at o ∙ add_offset-nonneg base o k (omega arith))

  undo :
      (id offset a b : ℕ)
      → id < 2 ^ 31
      → offset < 2 ^ 32
      → (a + b) % 2 ^ 32 ≡ 0
      → Data.increment raw_ok repo (Data.increment raw_ok repo (encode id offset) a) b
        ≡ encode id offset
  undo id offset a b h k e = rw (increment-encode raw_ok repo id offset a h k) (
      increment-encode raw_ok repo id ((offset + a) % 2 ^ 32) b h (omega arith)
      ∙ ap (encode id) (omega arith))

  -- `++` and `--`, prefix and postfix, undo each other on every offset pointer, also after an overflow of the
  -- offset, and the postfix operators return the pointer as it was.
  pred-succ :
      (id offset : ℕ)
      → id < 2 ^ 31
      → offset < 2 ^ 32
      → let p = encode id offset in
        (pred raw_ok repo width (succ raw_ok repo width p) ≡ p)
        × (succ raw_ok repo width (pred raw_ok repo width p) ≡ p)
        × (post_succ raw_ok repo width p ≡ (succ raw_ok repo width p, p))
        × (post_pred raw_ok repo width p ≡ (pred raw_ok repo width p, p))
  unfolding succ pred post_succ post_pred
  pred-succ id offset h k = (
    undo id offset (width % 2 ^ 32) ((2 ^ 32 - width % 2 ^ 32) % 2 ^ 32) h k (omega arith),
    undo id offset ((2 ^ 32 - width % 2 ^ 32) % 2 ^ 32) (width % 2 ^ 32) h k (omega arith),
    refl,
    refl,
  )

  difference_forward :
      (p q x m n : ℕ)
      → get raw_ok repo p ≡ x
      → get raw_ok repo q ≡ x + m
      → x + m < 2 ^ 63
      → m / width ≡ n
      → n < 2 ^ 31
      → difference raw_ok repo width q p ≡ n
  unfolding difference
  difference_forward p q x m n e f l d k =
      let bytes : (get raw_ok repo q + (2 ^ 64 - get raw_ok repo p)) % 2 ^ 64 ≡ m = omega arith in
      rw bytes (ground (arith, d))

  difference_backward :
      (p q x m n : ℕ)
      → get raw_ok repo p ≡ x
      → get raw_ok repo q ≡ x + m
      → x + m < 2 ^ 63
      → 0 < m
      → m / width ≡ n
      → n < 2 ^ 31
      → difference raw_ok repo width p q ≡ (2 ^ 32 - n) % 2 ^ 32
  unfolding difference
  difference_backward p q x m n e f l z d k =
      let bytes : (get raw_ok repo p + (2 ^ 64 - get raw_ok repo q)) % 2 ^ 64 ≡ 2 ^ 64 - m =
        omega arith in
      let back : 2 ^ 64 - (2 ^ 64 - m) ≡ m = omega arith in rw (bytes, back) (ground (arith, d))

  opposite_sum : (n m : ℕ) → (n + m ≡ 0) ⊎ (n + m ≡ 2 ^ 32) → (n * width + m * width) % 2 ^ 32 ≡ 0
  opposite_sum n m (inl e) =
      let sum = sym (add-mul n m width) ∙ ap (λ x. x * width) e in omega arith
  opposite_sum n m (inr e) =
      let sum = sym (add-mul n m width) ∙ ap (λ x. x * width) e in omega arith

  opposite : (n : ℕ) → n < 2 ^ 31 → ((2 ^ 32 - n) % 2 ^ 32 * width + n * width) % 2 ^ 32 ≡ 0
  opposite n k = opposite_sum ((2 ^ 32 - n) % 2 ^ 32) n (elim (Bool-cases (n == 0)) [
    | inl e ↦ inl (ground (arith, e))
    | inr e ↦ inr (ground (arith, e))
  ])

  subtract-encode :
      (id offset n : ℕ)
      → id < 2 ^ 31
      → n < 2 ^ 31
      → offset + n * width < 2 ^ 31
      → subtract raw_ok repo width (encode id (offset + n * width)) n ≡ encode id offset
  unfolding subtract
  subtract-encode id offset n h k fits =
      let back = opposite n k in
      add-encode id (offset + n * width) ((2 ^ 32 - n) % 2 ^ 32) h (omega arith)
      ∙ ap (encode id) (omega arith)

  -- A step forward by `n` elements that stays in the pool moves the address by as many elements, the
  -- difference of the two pointers is `n` either way around, and `-=` takes the step back; where the
  -- repository adds the offsets of the pool to one base in the lower half of the address space.
  pub difference-add :
      (id offset base n : ℕ)
      → id < 2 ^ 31
      → 0 < width
      → n < 2 ^ 31
      → offset + n * width < 2 ^ 31
      → base + (offset + n * width) < 2 ^ 63
      → ((o : ℕ) → repo.to_address id o ≡ add_offset base o)
      → let p = encode id offset in
        let q = add raw_ok repo width p n in
        (get raw_ok repo q ≡ get raw_ok repo p + n * width)
        × (difference raw_ok repo width q p ≡ n)
        × (difference raw_ok repo width p q ≡ (2 ^ 32 - n) % 2 ^ 32)
        × (subtract raw_ok repo width q n ≡ p)
  difference-add id offset base n h w k fits low at =
      let moved : add raw_ok repo width (encode id offset) n ≡ encode id (offset + n * width) =
        add-encode id offset n h (omega arith) ∙ ap (encode id) (omega arith) in
      let here = get-pool id base offset h at (omega arith) (omega arith) in
      let there = get-pool id base (offset + n * width) h at fits low in
      rw moved (
        there ∙ (omega arith ∙ ap (λ x. x + n * width) (sym here)),
        difference_forward (encode id offset) (encode id (offset + n * width)) (base + offset)
            (n * width) n here (there ∙ omega arith) (omega arith) (mul-div_cancel n w) k,
        elim (Bool-cases (n * width == 0)) [
          | inl e ↦
              let none_moved : n * width ≡ 0 = ground (arith, e) in
              let zero_steps : n ≡ 0 =
                sym (mul-div_cancel n w) ∙ (ap (λ x. x / width) none_moved ∙ zero-div width) in
              difference_forward (encode id (offset + n * width)) (encode id offset) (base + offset)
                0 0 (there ∙ omega arith) (here ∙ omega arith) (omega arith) (zero-div width)
                (omega arith)
              ∙ omega arith
          | inr e ↦
              difference_backward (encode id offset) (encode id (offset + n * width))
                (base + offset) (n * width) n here (there ∙ omega arith) (omega arith)
                (ground (arith, e)) (mul-div_cancel n w) k
        ],
        subtract-encode id offset n h k fits,
      )
