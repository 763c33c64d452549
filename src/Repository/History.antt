-- ===== src/Repository/History.antt =====
-- The histories of a repository (shm/arena_lend/shm_pool_repository.hpp), and the fancy pointers of
-- detail/shm_pool_offset_ptr_data.hpp over it.
use ipc_shm_arena_lend.Base.{ℕ, ◌≡◌, true, false, List, [], ◌∷◌, ◌==◌, if◌then◌else◌}
use ipc_shm_arena_lend.Pool.{Pool, IsValid}
use ipc_shm_arena_lend.AddressMap.{pool_like}
use ipc_shm_arena_lend.AddressMap.Layout.{Apart}
use ipc_shm_arena_lend.OffsetPtr.{of_address, get}
use ipc_shm_arena_lend.OffsetPtr.RoundTrip.{IsCanonical, get-of_address, get-of_address_offset}
use ipc_shm_arena_lend.Repository.Invariant.{
  IsConsistent, empty-IsConsistent, insert-IsConsistent, erase_pool-IsConsistent,
}
use ipc_shm_arena_lend.Repository.Lookup.{api-Knows}
use ipc_shm_arena_lend.Repository.{Holder, Repository, empty, insert, erase_pool, api}

-- The life of a repository: pools come and go.
pub data Change : Type 0 where
  inserts : Pool → Change
  erases : ℕ → Change

module _ {H : Type 0} ⦃h : Holder H⦄ where
  unfoldable pub change : Repository H → Change → Repository H
  change r (inserts p) = (insert r p).0
  change r (erases id) = (erase_pool r id).0

  unfoldable pub changes : Repository H → List Change → Repository H
  unfolding change
  changes r [] = r
  changes r (x ∷ xs) = changes (change r x) xs

  -- Each new pool is valid and, as mappings of one process are, apart from those that are there.
  abbrev pub Mapped : Repository H → List Change → Type 0
  Mapped r [] = Unit {0}
  Mapped r (inserts p ∷ xs) = (IsValid p × Apart p r.address_map) × Mapped (change r (inserts p)) xs
  Mapped r (erases id ∷ xs) = Mapped (change r (erases id)) xs

  -- A repository stays consistent through every history of insertions and erasures, the failing
  -- ones included, whose pools are valid and apart from those there when they are inserted.
  pub changes-IsConsistent :
      (r : Repository H) (xs : List Change)
      → Mapped r xs
      → IsConsistent r
      → IsConsistent (changes r xs)
  unfolding changes
  changes-IsConsistent r [] m c = c
  changes-IsConsistent r (inserts p ∷ xs) ((v, a), m) c =
      changes-IsConsistent (change r (inserts p)) xs m (insert-IsConsistent r p v a c)
  changes-IsConsistent r (erases id ∷ xs) m c =
      changes-IsConsistent (change r (erases id)) xs m (erase_pool-IsConsistent r id c)

-- After every history of insertions and erasures from the empty repository, where each inserted
-- pool is valid and apart from the pools there, a fancy pointer made from a canonical address
-- holds it again if it may be raw; one that may not be raw holds it again where the repository
-- finds a pool for the address, and is null otherwise.
pub pointer-changes :
    (H : Type 0) ⦃h : Holder H⦄ (xs : List Change) (garbage a : ℕ)
    → Mapped {H = H} empty xs
    → IsCanonical a
    → let repo = api {H = H} (changes empty xs) in
      (get true repo (of_address true repo garbage a) ≡ a)
      × (get false repo (of_address false repo garbage a)
          ≡ (if (repo.from_address a).0 == 0 then 0 else a))
pointer-changes H xs garbage a m n =
    let r : Repository H = changes empty xs in
    let known = api-Knows r (changes-IsConsistent empty xs m empty-IsConsistent) a in
    (get-of_address (api r) garbage a n known, get-of_address_offset (api r) garbage a known)
