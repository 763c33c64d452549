-- ===== src/OffsetPtr/Fields.antt =====
-- The bit fields of shm/arena_lend/detail/shm_pool_offset_ptr_data.hpp: reading what was written.
use ipc_shm_arena_lend.Base.{ℕ, ◌+◌, ◌*◌, ◌%◌, ◌^◌, ◌<◌, ◌≡◌, arith}
use ipc_shm_arena_lend.OffsetPtr.{
  pool_offset, pool_id, selector, set_pool_offset, set_pool_id, set_selector, val_bits,
  ext_sign_bits_except_msb, ext_sign_msb,
}

-- The bits of an offset pointer.
unfoldable pub encode : ℕ → ℕ → ℕ
encode id offset = 2 ^ 63 + id * 2 ^ 32 + offset

pub encode-eq-set :
    (garbage id offset : ℕ)
    → id < 2 ^ 31
    → offset < 2 ^ 32
    → set_pool_offset (set_pool_id (set_selector garbage 1) id) offset ≡ encode id offset
unfolding encode set_pool_offset set_pool_id set_selector
encode-eq-set garbage id offset h k = omega arith

pub encode_fields :
    (id offset : ℕ)
    → id < 2 ^ 31
    → offset < 2 ^ 32
    → (selector (encode id offset) ≡ 1)
      × (pool_id (encode id offset) ≡ id)
      × (pool_offset (encode id offset) ≡ offset)
      × (encode id offset < 2 ^ 64)
unfolding encode selector pool_id pool_offset
encode_fields id offset h k = omega arith

-- Writing one bit field of an offset pointer leaves the other two as they were and reads back the
-- written value, cut to the width of the field.
set_fields :
    (rep v : ℕ)
    → rep < 2 ^ 64
    → ((pool_offset (set_pool_offset rep v) ≡ v % 2 ^ 32)
        × (pool_id (set_pool_offset rep v) ≡ pool_id rep)
        × (selector (set_pool_offset rep v) ≡ selector rep))
      × ((pool_offset (set_pool_id rep v) ≡ pool_offset rep)
          × (pool_id (set_pool_id rep v) ≡ v % 2 ^ 31)
          × (selector (set_pool_id rep v) ≡ selector rep))
      × ((pool_offset (set_selector rep v) ≡ pool_offset rep)
          × (pool_id (set_selector rep v) ≡ pool_id rep)
          × (selector (set_selector rep v) ≡ v % 2))
unfolding selector pool_id pool_offset set_pool_offset set_pool_id set_selector
set_fields rep v h = omega arith

-- Both overlays of the bit fields cover all 64 bits: the fields determine the value.
pub fields_cover :
    (rep : ℕ)
    → rep < 2 ^ 64
    → (rep ≡ selector rep * 2 ^ 63 + pool_id rep * 2 ^ 32 + pool_offset rep)
      × (rep
          ≡ selector rep * 2 ^ 63
            + ext_sign_msb rep * 2 ^ 62
            + ext_sign_bits_except_msb rep * 2 ^ 48
            + val_bits rep)
unfolding selector pool_id pool_offset val_bits ext_sign_bits_except_msb ext_sign_msb
fields_cover rep h = omega arith
