-- ===== src/Session/Protocol/Handle.antt =====
-- The handle of a lent object as bytes (`Shm_object_handle`, `serialize_handle`, `deserialize_handle`) in
-- session/standalone/shm/arena_lend/jemalloc/shm_session.hpp and .cpp. Its three members have 32 bits each and
-- no padding between them; x86-64 is little-endian.
use ipc_shm_arena_lend.Base.{
  ℕ, ◌+◌, ◌*◌, ◌/◌, ◌%◌, ◌^◌, ◌<◌, ◌≡◌, Option, none, some, List, [], ◌∷◌, arith,
}

bytes_of : ℕ → List ℕ → List ℕ
bytes_of n rest = n % 256 ∷ n / 256 % 256 ∷ n / 256 / 256 % 256 ∷ n / 256 / 256 / 256 % 256 ∷ rest

word_of : ℕ → ℕ → ℕ → ℕ → ℕ
word_of a b c d = a + 256 * b + 65536 * c + 16777216 * d

unfoldable pub serialize_handle : ℕ → ℕ → ℕ → List ℕ
unfolding bytes_of
serialize_handle collection_id shm_pool_id offset =
    bytes_of collection_id (bytes_of shm_pool_id (bytes_of offset []))

-- None where the blob has another size than the handle.
unfoldable pub deserialize_handle : List ℕ → Option (ℕ × ℕ × ℕ)
unfolding word_of
deserialize_handle (a ∷ b ∷ c ∷ d ∷ e ∷ f ∷ g ∷ h ∷ i ∷ j ∷ k ∷ l ∷ []) =
    some (word_of a b c d, word_of e f g h, word_of i j k l)
deserialize_handle _ = none

word_of-bytes :
    (n : ℕ)
    → n < 2 ^ 32
    → word_of (n % 256) (n / 256 % 256) (n / 256 / 256 % 256) (n / 256 / 256 / 256 % 256) ≡ n
unfolding word_of
word_of-bytes n h = omega arith

-- A handle of three 32-bit numbers is read back from its bytes.
pub deserialize_handle-serialize_handle :
    (collection_id shm_pool_id offset : ℕ)
    → collection_id < 2 ^ 32
    → shm_pool_id < 2 ^ 32
    → offset < 2 ^ 32
    → deserialize_handle (serialize_handle collection_id shm_pool_id offset)
      ≡ some (collection_id, shm_pool_id, offset)
unfolding deserialize_handle serialize_handle
deserialize_handle-serialize_handle a b c x y z =
    ground (arith, word_of-bytes a x, word_of-bytes b y, word_of-bytes c z)
