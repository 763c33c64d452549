-- ===== src/Collection/Owner/Remove.antt =====
-- Removal of ranges and pools in shm/arena_lend/owner_shm_pool_collection.cpp.
use ipc_shm_arena_lend.Base.{
  ℕ, ◌≡◌, ◌+◌, ◌-◌, ◌<◌, ◌≤◌, ◌%◌, ◌^◌, refl, sym, subst, ◌∙◌, Bool, true, false, Option, none,
  some, List, [], arith, if◌then◌else◌, ◌==◌, leb, Option-cases, inl, inr, Bool-cases, ◌⊎◌,
}
use ipc_shm_arena_lend.Base.Dict.{Dict, find, assign, find-assign, find-erase}
use ipc_shm_arena_lend.Pool.{is_subset, IsValid}
use ipc_shm_arena_lend.Pool.Range.{Contains, is_subset-Contains}
use ipc_shm_arena_lend.Pool.Divisible.{DivisiblePool, remove_size}
use ipc_shm_arena_lend.AddressMap.{divisible_like, lookup}
use ipc_shm_arena_lend.AddressMap.Layout.{IsLaidOut, find-address}
use ipc_shm_arena_lend.AddressMap.Lookup.{lookup-holder, holder-find}
use ipc_shm_arena_lend.Collection.{Effect, lookup_shm_pool}
use ipc_shm_arena_lend.Collection.Owner.{
  OwnerCollection, RemoveOutcome, RemoveResult, refused, remove_range,
  remove_range_and_pool_if_empty,
}

-- The pool after a removal of `size` bytes: gone if nothing is left of it.
unfoldable pub shrunk : DivisiblePool → ℕ → Option DivisiblePool
shrunk p size =
    if leb p.remaining_size size
    then none
    else some (record p { remaining_size = p.remaining_size - size })

-- The accounting of one removal from the pool `p`.
pub record Shrinks (c c' : OwnerCollection) (p : DivisiblePool) (size : ℕ) (r : RemoveResult)
    : Type 0 where
  pub removed : r.removed_range ≡ true
  pub succeeded : r.result ≡ true
  pub listeners : c'.listeners ≡ c.listeners
  pub pools :
      (a : ℕ) → find a c'.pools ≡ (if p.pool.address == a then shrunk p size else find a c.pools)

remove_range-Shrinks :
    (c : OwnerCollection) (p : DivisiblePool) (size : ℕ) (o : RemoveOutcome)
    → find p.pool.address c.pools ≡ some p
    → 0 < p.remaining_size
    → size < 2 ^ 32
    → let (c', r, effects) = remove_range c p size o in Shrinks c c' p size r
unfolding remove_range shrunk
remove_range-Shrinks c p size o e l h =
    let p' = (remove_size p (size % 2 ^ 32)).0 in
    let m = assign p.pool.address p' c.pools in
    let at_p = find-assign p.pool.address p.pool.address p' c.pools in
    record {
      removed = ground arith;
      succeeded = ground (arith, e, at_p);
      listeners = ground arith;
      pools = λ a.
          ground (
            arith,
            e,
            find-assign p.pool.address a p' c.pools,
            find-erase p.pool.address a m,
            at_p,
          );
    }

pub lookup_shm_pool-find :
    (m : Dict DivisiblePool) (address : ℕ) (p : DivisiblePool)
    → IsLaidOut m
    → lookup_shm_pool m address ≡ some p
    → (find p.pool.address m ≡ some p) × IsValid p.pool × Contains p.pool address
unfolding lookup_shm_pool
lookup_shm_pool-find m address p l h = elim (Option-cases (lookup address m)) [
  | inl out ↦ absurd (ground (arith, h, out))
  | inr ((q, offset), e) ↦
      let same : q ≡ p = ground (arith, h, e) in
      let (x, y, z) = holder-find address 0 m q offset l (sym (lookup-holder address m l) ∙ e) in
      let (_, v) = find-address 0 q.pool.address m l x in
      let P : DivisiblePool → Type 0 =
        λ t. (find t.pool.address m ≡ some t) × IsValid t.pool × Contains t.pool address in
      subst P same (x, v, y)
]

-- How a call ends: refused, with nothing changed and nothing asked of the system, or with the range
-- taken off the remaining size of the pool that holds it.
abbrev pub Ends : OwnerCollection → OwnerCollection → ℕ → ℕ → RemoveResult → List Effect → Type 0
Ends c c' address size r effects =
    ((c' ≡ c) × (effects ≡ []) × (r ≡ refused))
    ⊎ ((p : DivisiblePool) × (find p.pool.address c.pools ≡ some p)
        × Contains p.pool address
        × (address + size ≤ p.pool.address + p.pool.size)
        × Shrinks c c' p size r)

-- The call once the range is known to lie in the pool `p`.
locked-Ends :
    (c : OwnerCollection) (p : DivisiblePool) (address size : ℕ) (o : RemoveOutcome)
    → 0 < size
    → find p.pool.address c.pools ≡ some p
    → IsValid p.pool
    → Contains p.pool address
    → address + size ≤ p.pool.address + p.pool.size
    → let (c', r, effects) = remove_range c p size o in Ends c c' address size r effects
locked-Ends c p address size o pos e v h k = elim (Bool-cases (p.remaining_size == 0)) [
  | inl drained ↦ inl (unfold remove_range in ground (arith, drained))
  | inr some_left ↦
      inr
        (p, e, h, k, remove_range-Shrinks c p size o e (ground arith) (omega (arith, v.size_bound)))
]

decommit_cases {ℓ} :
    (P : OwnerCollection × RemoveResult × List Effect → Type ℓ) (c : OwnerCollection)
    (p : DivisiblePool) (address size : ℕ) {offset : ℕ} (decommit : Option Bool) (o : RemoveOutcome)
    → (size == 0) ≡ false
    → lookup_shm_pool c.pools address ≡ some p
    → is_subset p.pool address size ≡ some offset
    → P (c, refused, [])
    → P (remove_range c p size o)
    → P (remove_range_and_pool_if_empty c address size decommit o)
unfolding remove_range_and_pool_if_empty
decommit_cases P c p address size none o z e i no_call call = rw (z, e) (rw i call)
decommit_cases P c p address size (some true) o z e i no_call call = rw (z, e) (rw i call)
decommit_cases P c p address size (some false) o z e i no_call call = rw (z, e) (rw i no_call)

-- A call is refused, or it comes to the part under the lock of the pool that holds the range.
pub removal_cases {ℓ} :
    (P : OwnerCollection × RemoveResult × List Effect → Type ℓ) (c : OwnerCollection)
    (address size : ℕ) (decommit : Option Bool) (o : RemoveOutcome)
    → IsLaidOut c.pools
    → P (c, refused, [])
    → ((p : DivisiblePool)
        → 0 < size
        → find p.pool.address c.pools ≡ some p
        → IsValid p.pool
        → Contains p.pool address
        → address + size ≤ p.pool.address + p.pool.size
        → P (remove_range c p size o))
    → P (remove_range_and_pool_if_empty c address size decommit o)
unfolding remove_range_and_pool_if_empty
removal_cases P c address size decommit o l no_call call = elim (Bool-cases (size == 0)) [
  | inl zero_size ↦ rw zero_size no_call
  | inr z ↦ elim (Option-cases (lookup_shm_pool c.pools address)) [
    | inl out ↦ rw (z, out) no_call
    | inr (p, e) ↦ elim (Option-cases (is_subset p.pool address size)) [
      | inl straddles ↦ rw (z, e) (rw straddles no_call)
      | inr (offset, i) ↦
          let (x, v, h) = lookup_shm_pool-find c.pools address p l e in
          let (_, k, _) = (is_subset-Contains p.pool address size offset v).0 i in
          decommit_cases P c p address size decommit o z e i no_call (call p (ground arith) x v h k)
    ]
  ]
]

-- A call of `remove_range_and_pool_if_empty` on pools laid out without overlap is refused and changes
-- nothing, or the range lies in a pool of the collection, whose remaining size falls by the size of
-- the range; the pool goes exactly if nothing remains, and the other pools stay as they were.
pub remove_range_and_pool_if_empty-Ends :
    (c : OwnerCollection) (address size : ℕ) (decommit : Option Bool) (o : RemoveOutcome)
    → IsLaidOut c.pools
    → let (c', r, effects) = remove_range_and_pool_if_empty c address size decommit o in
      Ends c c' address size r effects
remove_range_and_pool_if_empty-Ends c address size decommit o l =
    removal_cases (λ t. Ends c t.0 address size t.1 t.2) c address size decommit o l
      (inl (refl, refl, refl)) (λ p pos x v h k. locked-Ends c p address size o pos x v h k)
