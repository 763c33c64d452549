-- ===== src/OffsetPtr/RoundTrip.antt =====
-- Construction from an address and back, in shm/arena_lend/detail/shm_pool_offset_ptr_data.hpp.
use ipc_shm_arena_lend.Base.{
  ℕ, ◌-◌, ◌^◌, ◌<◌, ◌≤◌, ◌≡◌, ◌≢◌, refl, Bool, true, false, not, arith, ◌⊎◌, inl, inr, ◌∙◌, ◌==◌,
  if◌then◌else◌, Bool-cases,
}
use ipc_shm_arena_lend.OffsetPtr.Fields.{encode, encode-eq-set, encode_fields}
use ipc_shm_arena_lend.OffsetPtr.{RepositoryApi, of_address, get, is_raw, convert}

-- A canonical x86-64 address: bits 63 to 48 repeat bit 47.
abbrev pub IsCanonical : ℕ → Type 0
IsCanonical p = (p < 2 ^ 47) ⊎ ((2 ^ 64 - 2 ^ 47 ≤ p) × (p < 2 ^ 64))

-- What a repository says of an address: no pool holds it, or a pool does, whose ID and offset fit
-- their bit fields and lead back to the address.
abbrev pub Knows : RepositoryApi → ℕ → Type 0
Knows repo p =
    ((repo.from_address p).0 ≡ 0)
    ⊎ ((id : ℕ) × (offset : ℕ) × (repo.from_address p ≡ (id, offset))
        × (0 < id)
        × (id < 2 ^ 31)
        × (offset < 2 ^ 32)
        × (repo.to_address id offset ≡ p))

pub get-encode :
    (raw_ok : Bool) (repo : RepositoryApi) (id offset : ℕ)
    → id < 2 ^ 31
    → offset < 2 ^ 32
    → get raw_ok repo (encode id offset) ≡ repo.to_address id offset
unfolding get
get-encode raw_ok repo id offset h k = ground (arith, encode_fields id offset h k)

of_null :
    (raw_ok : Bool) (repo : RepositoryApi) (garbage p : ℕ)
    → (p == 0) ≡ true
    → get raw_ok repo (of_address raw_ok repo garbage p) ≡ p
unfolding of_address get
of_null raw_ok repo garbage p h = ground arith

of_absent :
    (repo : RepositoryApi) (garbage p : ℕ)
    → (repo.from_address p).0 ≡ 0
    → get false repo (of_address false repo garbage p)
      ≡ (if (repo.from_address p).0 == 0 then 0 else p)
unfolding of_address get
of_absent repo garbage p h = ground arith

module _ (raw_ok : Bool) (repo : RepositoryApi) (garbage p : ℕ) where
  of_address-pool :
      (id offset : ℕ)
      → repo.from_address p ≡ (id, offset)
      → p ≢ 0
      → 0 < id
      → id < 2 ^ 31
      → offset < 2 ^ 32
      → of_address raw_ok repo garbage p ≡ encode id offset
  unfolding of_address
  of_address-pool id offset e h a b c = rw e (ground (arith, encode-eq-set garbage id offset b c))

  get-of_address_pool :
      (id offset : ℕ)
      → repo.from_address p ≡ (id, offset)
      → p ≢ 0
      → 0 < id
      → id < 2 ^ 31
      → offset < 2 ^ 32
      → repo.to_address id offset ≡ p
      → get raw_ok repo (of_address raw_ok repo garbage p) ≡ p
  get-of_address_pool id offset e h a b c back =
      rw (of_address-pool id offset e h a b c) (get-encode raw_ok repo id offset b c ∙ back)

  -- Where no pool holds the address and raw pointers are allowed, the pointer holds a canonical
  -- address again; it is raw unless the address is null.
  pub get-of_address_raw :
      (repo.from_address p).0 ≡ 0
      → IsCanonical p
      → (raw_ok ≡ true)
      → (get raw_ok repo (of_address raw_ok repo garbage p) ≡ p)
        × (is_raw raw_ok repo (of_address raw_ok repo garbage p) ≡ not (p == 0))
  unfolding get of_address is_raw
  get-of_address_raw h (inl lo) r = ground arith
  get-of_address_raw h (inr hi) r = ground arith

-- Where the repository says of a canonical address that no pool holds it, or gives an ID and an
-- offset that fit their fields and lead back to the address, a pointer that may be raw and is made
-- from the address holds it again, whatever the uninitialized member held.
pub get-of_address :
    (repo : RepositoryApi) (garbage p : ℕ)
    → IsCanonical p
    → Knows repo p
    → get true repo (of_address true repo garbage p) ≡ p
get-of_address repo garbage p c (inl out) = (get-of_address_raw true repo garbage p out c refl).0
get-of_address repo garbage p c (inr (id, offset, e, a, b, d, back)) = elim (Bool-cases (p == 0)) [
  | inl null ↦ of_null true repo garbage p null
  | inr ne ↦ get-of_address_pool true repo garbage p id offset e (ground arith) a b d back
]

-- A pointer that may not be raw holds the address again where a pool of the repository holds it, and
-- is null where none does.
pub get-of_address_offset :
    (repo : RepositoryApi) (garbage p : ℕ)
    → Knows repo p
    → get false repo (of_address false repo garbage p)
      ≡ (if (repo.from_address p).0 == 0 then 0 else p)
get-of_address_offset repo garbage p (inl out) = of_absent repo garbage p out
get-of_address_offset repo garbage p (inr (id, offset, e, a, b, d, back)) =
    elim (Bool-cases (p == 0)) [
      | inl null ↦ of_null false repo garbage p null ∙ ground arith
      | inr ne ↦
          get-of_address_pool false repo garbage p id offset e (ground arith) a b d back
          ∙ ground arith
    ]

-- Where the repository leads from an ID, which is not 0, and an offset, both within their fields,
-- to an address that is not null and back, conversion of the offset pointer of that ID and offset
-- between the two kinds of pointer keeps its bits.
convert-encode :
    (raw_ok : Bool) (repo : RepositoryApi) (garbage id offset : ℕ)
    → 0 < id
    → id < 2 ^ 31
    → offset < 2 ^ 32
    → repo.to_address id offset ≢ 0
    → repo.from_address (repo.to_address id offset) ≡ (id, offset)
    → convert raw_ok repo garbage (encode id offset) ≡ encode id offset
unfolding convert
convert-encode raw_ok repo garbage id offset a b c n e =
    rw (get-encode (not raw_ok) repo id offset b c)
      (of_address-pool raw_ok repo garbage (repo.to_address id offset) id offset e n a b c)
