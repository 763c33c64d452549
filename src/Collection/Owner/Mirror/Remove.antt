-- ===== src/Collection/Owner/Mirror/Remove.antt =====
-- Removal of ranges and pools in shm/arena_lend/owner_shm_pool_collection.cpp, as the repository that
-- listens hears of it.
use ipc_shm_arena_lend.Base.{
  ℕ, ◌≡◌, ◌%◌, ◌^◌, sym, subst, ◌∙◌, Bool, true, Option, some, arith, ◌==◌, ltb, ◌&&◌, inl, inr,
  Bool-cases,
}
use ipc_shm_arena_lend.Base.Dict.{find, is_some, assign, find-assign}
use ipc_shm_arena_lend.Pool.{Pool}
use ipc_shm_arena_lend.Pool.Divisible.{DivisiblePool, remove_size}
use ipc_shm_arena_lend.AddressMap.{pool_like, divisible_like}
use ipc_shm_arena_lend.AddressMap.Layout.{IsLaidOut}
use ipc_shm_arena_lend.Repository.{Holder, Repository}
use ipc_shm_arena_lend.Collection.{deregister_shm_pool}
use ipc_shm_arena_lend.Collection.Owner.{
  OwnerCollection, RemoveOutcome, remove_shm_pool, remove_range, remove_range_and_pool_if_empty,
  hear,
}
use ipc_shm_arena_lend.Collection.Owner.Remove.{removal_cases}
use ipc_shm_arena_lend.Collection.Owner.Mirror.{
  hear_all, Mirrors, HeardMirrors, plain-assign, plain-Above, hear_all-notify_removed,
  erase-Mirrors,
}

module _ {H : Type 0} ⦃holder : Holder H⦄ where
  remove_shm_pool-Mirrors :
      (listener : ℕ) (c : OwnerCollection) (r : Repository H) (p : DivisiblePool)
      (o : RemoveOutcome)
      → is_some (find listener c.listeners) ≡ true
      → find p.pool.address c.pools ≡ some p
      → Mirrors c r
      → HeardMirrors listener (remove_shm_pool c p.pool o).0 r (remove_shm_pool c p.pool o).2
  unfolding remove_shm_pool deregister_shm_pool hear_all hear
  remove_shm_pool-Mirrors listener c r p o here e m = rw e (
      rw (hear_all-notify_removed listener c.listeners p.pool o.unlinked r, here)
        (erase-Mirrors c r p e m))

  remove_range-Mirrors :
      (listener : ℕ) (c : OwnerCollection) (r : Repository H) (p : DivisiblePool) (size : ℕ)
      (o : RemoveOutcome)
      → is_some (find listener c.listeners) ≡ true
      → find p.pool.address c.pools ≡ some p
      → Mirrors c r
      → let (c', result, effects) = remove_range c p size o in HeardMirrors listener c' r effects
  unfolding remove_range hear_all
  remove_range-Mirrors listener c r p size o here e (con, f) =
      let p' = (remove_size p (size % 2 ^ 32)).0 in
      let same : p'.pool ≡ p.pool = unfold remove_size in ground arith in
      let c' = record c { pools = assign p.pool.address p' c.pools } in
      let kept : Mirrors c' r = (con, f ∙ sym (plain-assign p.pool.address p p' c.pools e same)) in
      let at_p : find p.pool.address c'.pools ≡ some p' =
        ground (arith, find-assign p.pool.address p.pool.address p' c.pools, e) in
      elim (Bool-cases (ltb p.remaining_size size && p.remaining_size == 0)) [
        | inl drained ↦ rw drained (con, f)
        | inr some_left ↦ elim (Bool-cases (ltb 0 p'.remaining_size)) [
          | inl more ↦ rw (some_left, more) kept
          | inr gone ↦
              let P : Pool → Type 0 = λ q.
                find q.address c'.pools ≡ some p'
                → HeardMirrors listener (remove_shm_pool c' q o).0 r (remove_shm_pool c' q o).2 in
              let removed =
                subst P same (λ e'. remove_shm_pool-Mirrors listener c' r p' o here e' kept) at_p in
              rw (some_left, gone) removed
        ]
      ]

  -- Where a listener of the collection passes its calls on to a repository that mirrors the
  -- collection's pools, the repository mirrors them again after `remove_range_and_pool_if_empty`,
  -- on every branch, once it has heard what the listener is told.
  pub remove_range_and_pool_if_empty-Mirrors :
      (listener : ℕ) (c : OwnerCollection) (r : Repository H) (address size : ℕ)
      (decommit : Option Bool) (o : RemoveOutcome)
      → is_some (find listener c.listeners) ≡ true
      → Mirrors c r
      → let (c', result, effects) = remove_range_and_pool_if_empty c address size decommit o in
        Mirrors c' (hear_all listener r effects)
  unfolding hear_all
  remove_range_and_pool_if_empty-Mirrors listener c r address size decommit o here m =
      let (con, e) = m in
      removal_cases (λ t. HeardMirrors listener t.0 r t.2) c address size decommit o
        (plain-Above 0 c.pools (subst IsLaidOut e con.laid_out)) m
        (λ p pos x v h k. remove_range-Mirrors listener c r p size o here x m)
