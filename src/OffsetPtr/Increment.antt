-- ===== src/OffsetPtr/Increment.antt =====
-- `increment`, `operator bool` and the representation invariant of
-- shm/arena_lend/detail/shm_pool_offset_ptr_data.hpp.
use ipc_shm_arena_lend.Base.{
  ℕ, ◌+◌, ◌-◌, ◌%◌, ◌^◌, ◌<◌, ◌≤◌, ◌≡◌, refl, ap, sym, Bool, true, false, not, arith, ◌⊎◌, inl, inr,
  ◌∙◌,
}
use ipc_shm_arena_lend.Base.Words.{add_offset, add_offset-add, Fits}
use ipc_shm_arena_lend.OffsetPtr.Fields.{encode, encode_fields}
use ipc_shm_arena_lend.OffsetPtr.RoundTrip.{get-encode}
use ipc_shm_arena_lend.OffsetPtr.{
  RepositoryApi, selector, null_rep, of_address, get, to_bool, convert, increment,
}

-- 64 bits; a pointer that may not be raw is null or has its selector set.
abbrev pub IsRep : Bool → ℕ → Type 0
IsRep raw_ok rep = (rep < 2 ^ 64) × ((raw_ok ≡ true) ⊎ ((rep ≡ 0) ⊎ (selector rep ≡ 1)))

null_rep-IsRep : (raw_ok : Bool) → IsRep raw_ok null_rep
unfolding null_rep
null_rep-IsRep raw_ok = (omega arith, inr (inl refl))

of_address-IsRep :
    (raw_ok : Bool) (repo : RepositoryApi) (garbage p : ℕ)
    → IsRep raw_ok (of_address raw_ok repo garbage p)
unfolding of_address selector
of_address-IsRep raw_ok repo garbage p = ground arith

increment-IsRep :
    (raw_ok : Bool) (repo : RepositoryApi) (rep bytes : ℕ)
    → IsRep raw_ok rep
    → IsRep raw_ok (increment raw_ok repo rep bytes)
unfolding increment
increment-IsRep raw_ok repo rep bytes r = ground arith

-- Every way to make or change a pointer keeps the representation invariant: the default
-- constructor, the constructor from an address with any repository and any garbage, the conversion
-- from the other kind, and `increment` of a pointer that satisfies it by any number of bytes.
pub IsRep-kept :
    (raw_ok : Bool) (repo : RepositoryApi) (garbage p rep bytes : ℕ)
    → IsRep raw_ok null_rep
      × IsRep raw_ok (of_address raw_ok repo garbage p)
      × IsRep raw_ok (convert raw_ok repo garbage rep)
      × (IsRep raw_ok rep → IsRep raw_ok (increment raw_ok repo rep bytes))
unfolding convert
IsRep-kept raw_ok repo garbage p rep bytes = (
  null_rep-IsRep raw_ok,
  of_address-IsRep raw_ok repo garbage p,
  of_address-IsRep raw_ok repo garbage (get (not raw_ok) repo rep),
  increment-IsRep raw_ok repo rep bytes,
)

pub increment-encode :
    (raw_ok : Bool) (repo : RepositoryApi) (id offset bytes : ℕ)
    → id < 2 ^ 31
    → offset < 2 ^ 32
    → increment raw_ok repo (encode id offset) bytes ≡ encode id ((offset + bytes) % 2 ^ 32)
unfolding increment encode
increment-encode raw_ok repo id offset bytes h k = ground arith

-- Two increments of an offset pointer are one by the wrapped sum, so the opposite increment undoes
-- an increment, also after an overflow of the offset.
increment-increment :
    (raw_ok : Bool) (repo : RepositoryApi) (id offset a b : ℕ)
    → id < 2 ^ 31
    → offset < 2 ^ 32
    → (increment raw_ok repo (increment raw_ok repo (encode id offset) a) b
        ≡ increment raw_ok repo (encode id offset) ((a + b) % 2 ^ 32))
      × (increment raw_ok repo (increment raw_ok repo (encode id offset) a) (2 ^ 32 - a % 2 ^ 32)
          ≡ encode id offset)
increment-increment raw_ok repo id offset a b h k = (
  rw (increment-encode raw_ok repo id offset a h k) (
      rw (increment-encode raw_ok repo id offset ((a + b) % 2 ^ 32) h k) (
        increment-encode raw_ok repo id ((offset + a) % 2 ^ 32) b h (omega arith)
        ∙ ap (encode id) (omega arith))),
  rw (increment-encode raw_ok repo id offset a h k) (
      increment-encode raw_ok repo id ((offset + a) % 2 ^ 32) (2 ^ 32 - a % 2 ^ 32) h (omega arith)
      ∙ ap (encode id) (omega arith)),
)

-- Where the repository adds the offsets of a pool to one base, as pools do, an increment of an
-- offset pointer whose 32-bit sum of offset and increment does not overflow moves the pointer's
-- address by as many bytes.
get-increment :
    (raw_ok : Bool) (repo : RepositoryApi) (id offset bytes base : ℕ)
    → id < 2 ^ 31
    → offset < 2 ^ 32
    → bytes < 2 ^ 32
    → ((o : ℕ) → repo.to_address id o ≡ add_offset base o)
    → Fits offset bytes
    → get raw_ok repo (increment raw_ok repo (encode id offset) bytes)
      ≡ add_offset (get raw_ok repo (encode id offset)) bytes
get-increment raw_ok repo id offset bytes base h k l e f =
    rw (increment-encode raw_ok repo id offset bytes h k) (
      rw (get-encode raw_ok repo id offset h k) (
        get-encode raw_ok repo id ((offset + bytes) % 2 ^ 32) h (omega arith)
        ∙ rw (e offset)
            (e ((offset + bytes) % 2 ^ 32) ∙ sym (add_offset-add base offset bytes k l f))))

-- An increment of a pointer to a canonical address outside every pool moves its address by as many
-- bytes, if the sum is canonical in the same half of the address space.
pub get-increment_raw :
    (repo : RepositoryApi) (garbage p bytes : ℕ)
    → (repo.from_address p).0 ≡ 0
    → bytes < 2 ^ 32
    → ((p < 2 ^ 47) × (add_offset p bytes < 2 ^ 47))
      ⊎ ((2 ^ 64 - 2 ^ 47 ≤ p) × (p < 2 ^ 64) × (2 ^ 64 - 2 ^ 47 ≤ add_offset p bytes))
    → get true repo (increment true repo (of_address true repo garbage p) bytes)
      ≡ add_offset p bytes
unfolding get increment of_address add_offset
get-increment_raw repo garbage p bytes out b (inl lo) = ground arith
get-increment_raw repo garbage p bytes out b (inr hi) = ground arith

-- A pointer that tests false has a null address. An offset pointer whose fields lead to a null
-- address in the repository, as for a pool that it does not know, tests true, although its address
-- is null.
to_bool-get :
    (raw_ok : Bool) (repo : RepositoryApi) (rep id offset : ℕ)
    → (to_bool raw_ok repo rep ≡ false → get raw_ok repo rep ≡ 0)
      × (id < 2 ^ 31
          → offset < 2 ^ 32
          → repo.to_address id offset ≡ 0
          → (to_bool raw_ok repo (encode id offset) ≡ true)
            × (get raw_ok repo (encode id offset) ≡ 0))
unfolding to_bool get
to_bool-get raw_ok repo rep id offset = (
  ground arith,
  λ h k e. (ground (arith, encode_fields id offset h k), get-encode raw_ok repo id offset h k ∙ e),
)
