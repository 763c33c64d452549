-- ===== src/Session/Registry/Undo.antt =====
-- Registration of pools and its undo in
-- session/standalone/shm/arena_lend/borrower_shm_pool_collection_repository.cpp.
use ipc_shm_arena_lend.Base.{
  ℕ, ◌≡◌, true, false, none, some, [], String, arith, Option-cases, Bool-cases, inl, inr,
}
use ipc_shm_arena_lend.Base.Dict.{assign-find, find}
use ipc_shm_arena_lend.Pool.{Pool}
use ipc_shm_arena_lend.AddressMap.{pool_like, emplace_ordered, insert_ordered}
use ipc_shm_arena_lend.AddressMap.Layout.{find-insert_ordered, erase-insert_ordered}
use ipc_shm_arena_lend.Repository.{Repository, insert}
use ipc_shm_arena_lend.Repository.Invariant.{insert_cases}
use ipc_shm_arena_lend.Repository.Borrower.{UseCounted, UseTracker, tracker_holder, increment_use}
use ipc_shm_arena_lend.Collection.Borrower.{OpenOutcome, open_shm_pool, release_shm_pool}
use ipc_shm_arena_lend.Collection.Borrower.Open.{open_shm_pool-some, open_shm_pool-none}
use ipc_shm_arena_lend.Session.Registry.{
  CollectionData, OwnerData, Registry, ReleaseOutcome, find_collection, put_collection, put_owner,
  register_open_pool, register_new_pool, register_shm_pool, deregister_shm_pool,
}

module _ {C : Type 0} ⦃u : UseCounted C⦄ where
  insert-refused :
      (repo : Repository (UseTracker C)) (p : Pool)
      → (insert repo p).1 ≡ false
      → (insert repo p).0 ≡ repo
  insert-refused repo p h = ground (arith, insert_cases repo p, h)

  -- The undo: a pool that was just opened and is not registered goes out of the collection again, and
  -- the repository stays.
  pub register_open_pool-none :
      (repo : Repository (UseTracker C)) (c : CollectionData C) (p : Pool) (id : ℕ)
      (o : ReleaseOutcome)
      → find p.address c.collection ≡ none
      → find id c.shm_pool_ids ≡ none
      → (insert repo p).1 ≡ false
      → let c' = record c { collection = insert_ordered p.address p c.collection } in
        let (repo', c'', result, effects) = register_open_pool repo c' p id o in
        (repo' ≡ repo) × (c'' ≡ c) × (result ≡ none)
  unfolding register_open_pool release_shm_pool emplace_ordered deregister_shm_pool
  register_open_pool-none repo c p id o new new_id h = ground (
    arith,
    new_id,
    h,
    insert-refused repo p,
    find-insert_ordered p.address p.address p c.collection new,
    erase-insert_ordered p.address p c.collection,
    erase-insert_ordered id tt c.shm_pool_ids,
  )

  pub register_open_pool-some :
      (repo : Repository (UseTracker C)) (c : CollectionData C) (p : Pool) (id : ℕ)
      (o : ReleaseOutcome)
      → find id c.shm_pool_ids ≡ none
      → (insert repo p).1 ≡ true
      → register_open_pool repo c p id o ≡ (
        (insert repo p).0,
        record c { shm_pool_ids = insert_ordered id tt c.shm_pool_ids },
        some p,
        [],
      )
  unfolding register_open_pool emplace_ordered
  register_open_pool-some repo c p id o new_id h = ground (arith, new_id, h)

  register_new_pool-none :
      (repo : Repository (UseTracker C)) (c : CollectionData C) (id : ℕ) (name : String) (size : ℕ)
      (opening : OpenOutcome) (o : ReleaseOutcome)
      → find id c.shm_pool_ids ≡ none
      → (register_new_pool repo c id name size opening o).2 ≡ none
      → ((register_new_pool repo c id name size opening o).0 ≡ repo)
        × ((register_new_pool repo c id name size opening o).1 ≡ c)
  unfolding register_new_pool
  register_new_pool-none repo c id name size opening o new_id h =
      elim (Option-cases (open_shm_pool c.collection id name size opening).1) [
        | inl failed ↦
            ground (arith, failed, open_shm_pool-none c.collection id name size opening failed)
        | inr (p, e) ↦
            let (_, new, ran) = open_shm_pool-some c.collection id name size opening p e in
            elim (Bool-cases (insert repo p).1) [
              | inl inserted ↦
                  let c' = record c { collection = insert_ordered p.address p c.collection } in
                  absurd
                    (ground (arith, h, ran, register_open_pool-some repo c' p id o new_id inserted))
              | inr refused ↦
                  ground (arith, ran, register_open_pool-none repo c p id o new new_id refused)
            ]
      ]

  pub find_collection_lem :
      (r : Registry C) (owner id : ℕ) (d : OwnerData C) (c : CollectionData C)
      → find_collection r owner id ≡ some (d, c)
      → (find owner r.owner_data_map ≡ some d) × (find id d.collection_data_map ≡ some c)
  unfolding find_collection
  find_collection_lem r owner id d c h = elim (Option-cases (find owner r.owner_data_map)) [
    | inl out ↦ absurd (ground (arith, h, out))
    | inr (d', e) ↦ elim (Option-cases (find id d'.collection_data_map)) [
      | inl out ↦ absurd (ground (arith, h, e, out))
      | inr (c', f) ↦ ground (arith, h, e, f)
    ]
  ]

  pub put_collection-find_collection :
      (r : Registry C) (owner id : ℕ) (d : OwnerData C) (c : CollectionData C)
      → find_collection r owner id ≡ some (d, c)
      → put_collection r owner d id c ≡ r
  unfolding put_collection put_owner
  put_collection-find_collection r owner id d c h =
      let (e, f) = find_collection_lem r owner id d c h in
      ground
        (arith, assign-find id c d.collection_data_map, assign-find owner d r.owner_data_map, e, f)

  increment_use-none :
      (repo : Repository (UseTracker C)) (id : ℕ)
      → (increment_use repo id).1 ≡ none
      → (increment_use repo id).0 ≡ repo
  unfolding increment_use
  increment_use-none repo id h = elim (Option-cases (find id repo.id_map)) [
    | inl out ↦ ground (arith, out)
    | inr (t, e) ↦ absurd (ground (arith, h, e))
  ]

  -- A registration of a pool that returns null leaves the owners, the collections, the open pools and
  -- the repository as they were, whichever step failed.
  pub register_shm_pool-none :
      (r : Registry C) (owner collection_id id : ℕ) (name : String) (size : ℕ)
      (opening : OpenOutcome) (o : ReleaseOutcome)
      → (register_shm_pool r owner collection_id id name size opening o).1 ≡ none
      → (register_shm_pool r owner collection_id id name size opening o).0 ≡ r
  unfolding register_shm_pool
  register_shm_pool-none r owner collection_id id name size opening o h =
      elim (Option-cases (find_collection r owner collection_id)) [
        | inl unknown ↦ ground (arith, unknown)
        | inr ((d, c), e) ↦ elim (Option-cases (find id c.shm_pool_ids)) [
          | inr (x, registered) ↦
              let failed = increment_use-none r.shm_pool_repository id in
              ground (arith, e, registered, h, failed)
          | inl new_id ↦
              let law =
                register_new_pool-none r.shm_pool_repository c id name size opening o new_id in
              let back = put_collection-find_collection r owner collection_id d c e in
              ground (arith, e, new_id, h, law, back)
        ]
      ]
