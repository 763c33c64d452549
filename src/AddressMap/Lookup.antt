-- ===== src/AddressMap/Lookup.antt =====
-- The binary search of shm/arena_lend/shm_pool_repository.hpp and shm_pool_collection.cpp against a
-- scan of all pools.
use ipc_shm_arena_lend.Base.{
  ℕ, ◌+◌, ◌-◌, ◌≤◌, ◌<◌, ◌≡◌, inl, inr, refl, ap, subst, sym, ◌∙◌, Option, none, some, [], ◌∷◌,
  arith, ◌==◌, if◌then◌else◌, Bool, true, ltb, leb, ◌&&◌, Bool-cases,
}
use ipc_shm_arena_lend.Base.Dict.{Dict, find}
use ipc_shm_arena_lend.Base.Words.{add_offset-nonneg}
use ipc_shm_arena_lend.Pool.{Pool, IsValid, determine_offset}
use ipc_shm_arena_lend.Pool.Range.{Contains}
use ipc_shm_arena_lend.AddressMap.Layout.{Above, IsLaidOut, find_below, find-address}
use ipc_shm_arena_lend.AddressMap.{
  PoolLike, lower_bound, last_or, previous, choose, check_range, lookup,
}

-- A pool holds an address.
unfoldable pub holds : Pool → ℕ → Bool
holds p address = leb p.address address && ltb address (p.address + p.size)

module _ {E : Type 0} ⦃like : PoolLike E⦄ where
  -- The specification: the first pool that holds the address, with its distance from the base.
  unfoldable pub holder : ℕ → Dict E → Option (E × ℕ)
  unfolding holds
  holder address [] = none
  holder address ((k, e) ∷ m) =
      if holds (like.pool_of e) address
      then some (e, address - (like.pool_of e).address)
      else holder address m

  -- The search as one pass: the last pool that starts at or below the address.
  floor : ℕ → Option E → Dict E → Option E
  floor address best [] = best
  floor address best ((k, e) ∷ m) =
      let later = floor address (some e) m in
      if ltb k address then later else if ltb address (like.pool_of e).address then best else some e

  choose-floor :
      (address : ℕ) (before m : Dict E)
      → choose address (last_or (previous before) m) (lower_bound address before m)
        ≡ floor address (previous before) m
  unfolding choose last_or lower_bound floor
  choose-floor address before [] = refl
  choose-floor address before ((k, e) ∷ m) = elim (Bool-cases (ltb k address)) [
    | inl below ↦ rw below (choose-floor address ((k, e) ∷ before) m)
    | inr above ↦ rw above refl
  ]

  holder_below : (address lo : ℕ) (m : Dict E) → Above lo m → address < lo → holder address m ≡ none
  unfolding holder
  holder_below address lo [] a h = refl
  holder_below address lo ((k, e) ∷ m) (b, v, c, r) h =
      ground (arith, holder_below address (k + (like.pool_of e).size) m r)

  check_range-holds :
      (address : ℕ) (e : E)
      → IsValid (like.pool_of e)
      → check_range address (some e) ≡ (
          if holds (like.pool_of e) address
          then some (e, address - (like.pool_of e).address)
          else none)
  unfolding check_range holds determine_offset
  check_range-holds address e v =
      ground (arith, add_offset-nonneg (like.pool_of e).address (like.pool_of e).size)

  check_range-floor-some :
      (address : ℕ) (b : E) (lo : ℕ) (m : Dict E)
      → IsValid (like.pool_of b)
      → (like.pool_of b).address ≤ address
      → (like.pool_of b).address + (like.pool_of b).size ≤ lo
      → Above lo m
      → check_range address (floor address (some b) m) ≡ holder address ((lo, b) ∷ m)
  unfolding floor holder holds
  check_range-floor-some address b lo [] v h k a = check_range-holds address b v
  check_range-floor-some address b lo ((j, e) ∷ m) v h k (x, w, c, r) =
      elim (Bool-cases (ltb j address)) [
        | inl below ↦ rw below (
            check_range-floor-some address e (j + (like.pool_of e).size) m w (ground arith)
              (omega arith) r
            ∙ ground arith)
        | inr above ↦ rw above (
            ground (
              arith,
              check_range-holds address b v,
              check_range-holds address e w,
              holder_below address (j + (like.pool_of e).size) m r,
            ))
      ]

  check_range-floor-none :
      (address lo : ℕ) (m : Dict E)
      → Above lo m
      → check_range address (floor address none m) ≡ holder address m
  unfolding floor holder check_range holds
  check_range-floor-none address lo [] a = refl
  check_range-floor-none address lo ((j, e) ∷ m) (x, w, c, r) = elim (Bool-cases (ltb j address)) [
    | inl below ↦ rw below (
        check_range-floor-some address e (j + (like.pool_of e).size) m w (ground arith)
          (omega arith) r)
    | inr above ↦ rw above (
        ground (
          arith,
          check_range-holds address e w,
          holder_below address (j + (like.pool_of e).size) m r,
        ))
  ]

  -- Over pools in ascending order that do not overlap, the search with `lower_bound` returns what a
  -- scan of all pools returns: the pool that holds the address and the offset in it, or none.
  pub lookup-holder : (address : ℕ) (m : Dict E) → IsLaidOut m → lookup address m ≡ holder address m
  unfolding lookup previous
  lookup-holder address m l =
      ap (check_range address) (choose-floor address [] m) ∙ check_range-floor-none address 0 m l

  held_here :
      (k a : ℕ) (f : E) (m : Dict E) (e : E) (offset : ℕ)
      → holds (like.pool_of f) a ≡ true
      → f ≡ e
      → a - (like.pool_of f).address ≡ offset
      → k ≡ (like.pool_of f).address
      → (find (like.pool_of e).address ((k, f) ∷ m) ≡ some e)
        × Contains (like.pool_of e) a
        × (offset ≡ a - (like.pool_of e).address)
  unfolding holds find
  held_here k a f m e offset hit same d key = rw (← same) (ground arith, ground arith, sym d)

  -- What the scan finds is in the map under its base, and holds the address.
  pub holder-find :
      (a lo : ℕ) (m : Dict E) (e : E) (offset : ℕ)
      → Above lo m
      → holder a m ≡ some (e, offset)
      → (find (like.pool_of e).address m ≡ some e)
        × Contains (like.pool_of e) a
        × (offset ≡ a - (like.pool_of e).address)
  unfolding holder holds find
  holder-find a lo [] e offset l h = absurd (cc h)
  holder-find a lo ((k, f) ∷ m) e offset (b, v, c, r) h =
      let q = like.pool_of f in
      elim (Bool-cases (holds q a)) [
        | inl hit ↦
            let same : some (f, a - q.address) ≡ some (e, offset) = rw hit at h in
            held_here k a f m e offset hit (cc same) (ground (arith, same)) b
        | inr miss ↦
            let t : holder a m ≡ some (e, offset) = rw miss at h in
            let (x, y, z) = holder-find a (k + q.size) m e offset r t in
            (ground (arith, x, find_below (like.pool_of e).address (k + q.size) m r), y, z)
      ]

  -- A pool of the map that holds the address is what the scan finds.
  pub find-holder :
      (a k lo : ℕ) (m : Dict E) (e : E)
      → Above lo m
      → find k m ≡ some e
      → Contains (like.pool_of e) a
      → holder a m ≡ some (e, a - (like.pool_of e).address)
  unfolding holder holds find
  find-holder a k lo [] e l h c = absurd (cc h)
  find-holder a k lo ((j, f) ∷ m) e (b, v, d, r) h c = elim (Bool-cases (j == k)) [
    | inl hit ↦
        let same : some f ≡ some e = rw hit at h in
        let P : E → Type 0 = λ x.
          Contains (like.pool_of x) a
          → holder a ((j, f) ∷ m) ≡ some (x, a - (like.pool_of x).address) in
        let fe : f ≡ e = cc same in subst P fe (λ t. ground (arith, t)) c
    | inr miss ↦
        let t : find k m ≡ some e = rw miss at h in
        ground (
          arith,
          find-holder a k (j + (like.pool_of f).size) m e r t c,
          find_below k (j + (like.pool_of f).size) m r,
          find-address (j + (like.pool_of f).size) k m r t,
        )
  ]
