-- ===== src/AddressMap/Layout.antt =====
-- The layout that the pools of a process keep in an ordered map: ascending and disjoint.
use ipc_shm_arena_lend.Base.{
  ℕ, ◌+◌, ◌≤◌, ◌<◌, ◌≡◌, ◌⊎◌, inl, inr, refl, subst, none, some, [], ◌∷◌, arith, ◌==◌,
  if◌then◌else◌, ltb, Bool-cases, Option-cases,
}
use ipc_shm_arena_lend.Base.Dict.{Dict, find, erase, erase-absent}
use ipc_shm_arena_lend.Pool.{Pool, IsValid}
use ipc_shm_arena_lend.AddressMap.{PoolLike, insert_ordered, emplace_ordered}

module _ {E : Type 0} ⦃like : PoolLike E⦄ where
  -- From `lo` up: each key is the base of its pool, each pool is valid, and starts where the
  -- previous one ends or later.
  abbrev pub Above : ℕ → Dict E → Type 0
  Above lo [] = Unit {0}
  Above lo ((k, e) ∷ m) =
      (k ≡ (like.pool_of e).address)
      × IsValid (like.pool_of e)
      × (lo ≤ k)
      × Above (k + (like.pool_of e).size) m

  abbrev pub IsLaidOut : Dict E → Type 0
  IsLaidOut m = Above 0 m

  -- The range of a pool overlaps no pool of the map, as `mmap` chooses it.
  abbrev pub Apart : Pool → Dict E → Type 0
  Apart p [] = Unit {0}
  Apart p ((k, e) ∷ m) =
      ((p.address + p.size ≤ (like.pool_of e).address)
        ⊎ ((like.pool_of e).address + (like.pool_of e).size ≤ p.address))
      × Apart p m

  pub Above-mono : (lo hi : ℕ) (m : Dict E) → lo ≤ hi → Above hi m → Above lo m
  Above-mono lo hi [] h a = tt
  Above-mono lo hi ((k, e) ∷ m) h (b, v, c, r) = (b, v, omega arith, r)

  pub insert_ordered-Above :
      (lo : ℕ) (e : E) (m : Dict E)
      → IsValid (like.pool_of e)
      → lo ≤ (like.pool_of e).address
      → Apart (like.pool_of e) m
      → Above lo m
      → Above lo (insert_ordered (like.pool_of e).address e m)
  unfolding insert_ordered
  insert_ordered-Above lo e [] v h a b = (refl, v, h, tt)
  insert_ordered-Above lo e ((k, f) ∷ m) v h (a, others) (b, w, c, r) =
      elim (Bool-cases (ltb (like.pool_of e).address k)) [
        | inl before ↦ rw before (refl, v, h, (b, w, ground arith, r))
        | inr after ↦ rw after (
          b,
          w,
          c,
          insert_ordered-Above (k + (like.pool_of f).size) e m v (ground arith) others r,
        )
      ]

  pub erase-Above : (k lo : ℕ) (m : Dict E) → Above lo m → Above lo (erase k m)
  unfolding erase
  erase-Above k lo [] a = tt
  erase-Above k lo ((j, e) ∷ m) (b, v, c, r) =
      let rest = erase-Above k (j + (like.pool_of e).size) m r in
      elim (Bool-cases (j == k)) [
        | inl hit ↦
            rw hit (Above-mono lo (j + (like.pool_of e).size) (erase k m) (omega arith) rest)
        | inr miss ↦ rw miss (b, v, c, rest)
      ]

  -- Below the first pool there is no key.
  pub find_below : (k lo : ℕ) (m : Dict E) → Above lo m → k < lo → find k m ≡ none
  unfolding find
  find_below k lo [] a h = refl
  find_below k lo ((j, e) ∷ m) (b, v, c, r) h =
      ground (arith, find_below k (j + (like.pool_of e).size) m r)

module _ {E : Type 0} where
  pub find-insert_ordered :
      (k j : ℕ) (e : E) (m : Dict E)
      → find k m ≡ none
      → find j (insert_ordered k e m) ≡ (if k == j then some e else find j m)
  unfolding find insert_ordered
  find-insert_ordered k j e [] h = ground arith
  find-insert_ordered k j e ((i, f) ∷ m) h = ground (arith, find-insert_ordered k j e m)

  -- Erasing what was just inserted gives the map back.
  pub erase-insert_ordered :
      (k : ℕ) (e : E) (m : Dict E) → find k m ≡ none → erase k (insert_ordered k e m) ≡ m
  unfolding find erase insert_ordered
  erase-insert_ordered k e [] h = ground arith
  erase-insert_ordered k e ((j, f) ∷ m) h =
      ground (arith, erase-insert_ordered k e m, erase-absent k m)

module _ {E : Type 0} ⦃like : PoolLike E⦄ where
  -- `emplace` of a valid pool whose range overlaps no other keeps the layout.
  pub emplace_ordered-IsLaidOut :
      (e : E) (m : Dict E)
      → IsValid (like.pool_of e)
      → Apart (like.pool_of e) m
      → IsLaidOut m
      → IsLaidOut (emplace_ordered (like.pool_of e).address e m).0
  unfolding emplace_ordered
  emplace_ordered-IsLaidOut e m v a l = elim (Option-cases (find (like.pool_of e).address m)) [
    | inl new ↦ rw (new, emplace_ordered) (insert_ordered-Above 0 e m v (omega arith) a l)
    | inr (f, old) ↦ rw (old, emplace_ordered) l
  ]

  -- Every key is found with a pool of that base.
  pub find-address :
      (lo k : ℕ) (m : Dict E) {e : E}
      → Above lo m
      → find k m ≡ some e
      → (k ≡ (like.pool_of e).address) × IsValid (like.pool_of e)
  unfolding find
  find-address lo k [] a h = cc
  find-address lo k ((j, f) ∷ m) {e} (b, v, c, r) h = elim (Bool-cases (j == k)) [
    | inl hit ↦
        let same : some f ≡ some e = rw hit at h in
        let P : E → Type 0 = λ x. (k ≡ (like.pool_of x).address) × IsValid (like.pool_of x) in
        let fe : f ≡ e = cc same in subst P fe (ground arith, v)
    | inr miss ↦ find-address (j + (like.pool_of f).size) k m r (rw miss at h)
  ]
