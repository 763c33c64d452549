-- ===== src/Collection/Owner/Mirror/Create.antt =====
-- Creation of pools in shm/arena_lend/owner_shm_pool_collection.cpp, as the repository that listens
-- hears of it.
use ipc_shm_arena_lend.Base.{
  Bool, ℕ, ◌≡◌, true, none, some, [], ◌∷◌, arith, if◌then◌else◌, Option-cases, inl, inr, Bool-cases,
  String,
}
use ipc_shm_arena_lend.Base.Dict.{find, is_some}
use ipc_shm_arena_lend.Pool.{IsValid}
use ipc_shm_arena_lend.Pool.Divisible.{DivisiblePool, new_divisible}
use ipc_shm_arena_lend.AddressMap.{pool_like, divisible_like, insert_ordered, emplace_ordered}
use ipc_shm_arena_lend.AddressMap.Layout.{Apart}
use ipc_shm_arena_lend.Repository.{Holder, Repository}
use ipc_shm_arena_lend.Collection.{closes, unlinks, register_shm_pool}
use ipc_shm_arena_lend.Collection.Owner.{
  OwnerCollection, CreateOutcome, created, duplicate, create_shm_pool, notify_created, hear,
  create_shm_object, map_created, register_mapped, register_shm_pool_and_notify,
}
use ipc_shm_arena_lend.Collection.Owner.Mirror.{
  plain, hear_all, Mirrors, HeardMirrors, hear_all-notify_created, insert-Mirrors,
}

register_mapped_cases :
    (c : OwnerCollection) (p : DivisiblePool) (unlinked : Bool)
    → register_mapped c p unlinked ≡ (
        if is_some (find p.pool.address c.pools)
        then (c, duplicate p, closes p.pool.fd ∷ unlinks p.pool.name unlinked ∷ [])
        else (
          record c { pools = insert_ordered p.pool.address p c.pools },
          created p,
          notify_created c.listeners p.pool,
        ))
unfolding register_mapped register_shm_pool_and_notify register_shm_pool emplace_ordered
register_mapped_cases c p unlinked = ground arith

module _ {H : Type 0} ⦃holder : Holder H⦄ where
  register_mapped-Mirrors :
      (listener : ℕ) (c : OwnerCollection) (r : Repository H) (p : DivisiblePool) (unlinked : Bool)
      → is_some (find listener c.listeners) ≡ true
      → IsValid p.pool
      → Apart p.pool (plain c.pools)
      → find p.pool.id r.id_map ≡ none
      → Mirrors c r
      → HeardMirrors listener (register_mapped c p unlinked).0 r (register_mapped c p unlinked).2
  unfolding hear_all hear
  register_mapped-Mirrors listener c r p unlinked here v a new_id m =
      elim (Option-cases (find p.pool.address c.pools)) [
        | inr (q, old) ↦ rw (register_mapped_cases c p unlinked, old) m
        | inl new ↦
            rw (register_mapped_cases c p unlinked, new)
              (rw (hear_all-notify_created listener c.listeners p.pool r, here)
                (insert-Mirrors c r p v a new_id new m))
      ]

  -- Where a listener of the collection passes its calls on to a repository that mirrors the
  -- collection's pools, and the system maps a new pool, of an unused ID, apart from the others,
  -- the repository mirrors them again after `create_shm_pool`, on every branch, once it has heard
  -- what the listener is told.
  pub create_shm_pool-Mirrors :
      (listener : ℕ) (c : OwnerCollection) (r : Repository H) (id : ℕ) (name : String) (size : ℕ)
      (o : CreateOutcome)
      → is_some (find listener c.listeners) ≡ true
      → ((fd address : ℕ)
          → o.opened ≡ some fd
          → o.mapped ≡ some address
          → let p = new_divisible id name address size fd in
            IsValid p.pool × Apart p.pool (plain c.pools))
      → find id r.id_map ≡ none
      → Mirrors c r
      → let (c', result, effects) = create_shm_pool c id name size o in
        Mirrors c' (hear_all listener r effects)
  unfolding create_shm_pool create_shm_object map_created hear_all hear new_divisible
  create_shm_pool-Mirrors listener c r id name size o here apart new_id m =
      elim (Option-cases o.opened) [
        | inl e ↦ rw e m
        | inr (fd, e) ↦ elim (Bool-cases o.permitted) [
          | inr refused ↦ rw (e, refused) m
          | inl permitted ↦ elim (Bool-cases o.truncated) [
            | inr short ↦ rw (e, permitted, short) m
            | inl truncated ↦ elim (Option-cases o.mapped) [
              | inl unmapped ↦ rw (e, permitted, truncated, unmapped) m
              | inr (address, mapped) ↦
                  let (v, a) = apart fd address e mapped in
                  rw (e, permitted, truncated, mapped)
                    (register_mapped-Mirrors listener c r (new_divisible id name address size fd)
                      o.unlinked here v a new_id m)
            ]
          ]
        ]
      ]
