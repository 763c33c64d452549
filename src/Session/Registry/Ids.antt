-- ===== src/Session/Registry/Ids.antt =====
-- The IDs of the pools that session/standalone/shm/arena_lend/borrower_shm_pool_collection_repository.cpp returns.
use ipc_shm_arena_lend.Base.{
  ℕ, ◌≡◌, true, false, Option, none, some, List, arith, Option-cases, inl, inr, String, subst,
}
use ipc_shm_arena_lend.Base.Dict.{Dict, find}
use ipc_shm_arena_lend.Pool.{Pool}
use ipc_shm_arena_lend.Repository.{Repository}
use ipc_shm_arena_lend.Repository.Borrower.{UseCounted, UseTracker}
use ipc_shm_arena_lend.Collection.{map_shm, Effect}
use ipc_shm_arena_lend.Collection.Borrower.{OpenOutcome, register_opened, use_mapped, open_shm_pool}
use ipc_shm_arena_lend.Session.Registry.{
  CollectionData, OwnerData, Registry, ReleaseOutcome, find_collection, register_open_pool,
  register_new_pool, register_shm_pool,
}

use_mapped-id :
    (m : Dict Pool) (id : ℕ) (name : String) (size fd : ℕ) (o : OpenOutcome)
    (mapped : Option ℕ × List Effect) (q : Pool)
    → (use_mapped m id name size fd o mapped).1 ≡ some q
    → q.id ≡ id
unfolding use_mapped register_opened
use_mapped-id m id name size fd o (none, effects) q e = absurd (ground (arith, e))
use_mapped-id m id name size fd o (some address, effects) q e = ground (arith, e)

open_shm_pool-id :
    (m : Dict Pool) (id : ℕ) (name : String) (size : ℕ) (o : OpenOutcome) (q : Pool)
    → (open_shm_pool m id name size o).1 ≡ some q
    → q.id ≡ id
unfolding open_shm_pool
open_shm_pool-id m id name size o q e = elim (Option-cases o.opened) [
  | inl out ↦ absurd (ground (arith, e, out))
  | inr (fd, f) ↦
      use_mapped-id m id name size fd o (map_shm o.mapped true false fd) q (ground (arith, e, f))
]

module _ {C : Type 0} ⦃u : UseCounted C⦄ where
  register_open_pool-id :
      (repo : Repository (UseTracker C)) (c : CollectionData C) (p : Pool) (id : ℕ)
      (o : ReleaseOutcome) (q : Pool)
      → (register_open_pool repo c p id o).2 ≡ some q
      → p ≡ q
  unfolding register_open_pool
  register_open_pool-id repo c p id o q e = ground (arith, e)

  register_new_pool-id :
      (repo : Repository (UseTracker C)) (c : CollectionData C) (id : ℕ) (name : String) (size : ℕ)
      (opening : OpenOutcome) (o : ReleaseOutcome) (q : Pool)
      → (register_new_pool repo c id name size opening o).2 ≡ some q
      → q.id ≡ id
  unfolding register_new_pool
  register_new_pool-id repo c id name size opening o q e =
      let (collection, opened, effects) = open_shm_pool c.collection id name size opening in
      elim (Option-cases opened) [
        | inl out ↦ absurd (ground (arith, e, out))
        | inr (p, f) ↦
            let c' = record c { collection = collection } in
            let same = register_open_pool-id repo c' p id o q (ground (arith, e, f)) in
            subst (λ q. q.id ≡ id) same (open_shm_pool-id c.collection id name size opening p f)
      ]

  -- A pool that is new to a collection has the ID that it was registered with.
  pub register_shm_pool-id :
      (r : Registry C) (owner collection_id id : ℕ) (name : String) (size : ℕ)
      (opening : OpenOutcome) (o : ReleaseOutcome) (d : OwnerData C) (c : CollectionData C)
      (q : Pool)
      → find_collection r owner collection_id ≡ some (d, c)
      → find id c.shm_pool_ids ≡ none
      → (register_shm_pool r owner collection_id id name size opening o).1 ≡ some q
      → q.id ≡ id
  unfolding register_shm_pool
  register_shm_pool-id r owner collection_id id name size opening o d c q e new h =
      register_new_pool-id r.shm_pool_repository c id name size opening o q
        (ground (arith, h, e, new))
