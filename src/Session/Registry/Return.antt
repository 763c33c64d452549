-- ===== src/Session/Registry/Return.antt =====
-- Registration of a new pool and its deregistration in
-- session/standalone/shm/arena_lend/borrower_shm_pool_collection_repository.cpp.
use ipc_shm_arena_lend.Base.{
  ℕ, ◌≡◌, sym, true, none, some, String, arith, Option-cases, Bool-cases, inl, inr,
}
use ipc_shm_arena_lend.Base.Dict.{assign-assign, find, erase, assign, find-assign, erase-absent}
use ipc_shm_arena_lend.Pool.{Pool}
use ipc_shm_arena_lend.AddressMap.{pool_like, insert_ordered}
use ipc_shm_arena_lend.AddressMap.Layout.{find-insert_ordered, erase-insert_ordered}
use ipc_shm_arena_lend.Repository.{Repository, insert, erase_locked}
use ipc_shm_arena_lend.Repository.Invariant.{insert_cases}
use ipc_shm_arena_lend.Repository.Borrower.{
  UseCounted, UseTracker, tracker_holder, erase_or_decrement_use,
}
use ipc_shm_arena_lend.Collection.{deregister_shm_pool as deregister_pool}
use ipc_shm_arena_lend.Collection.Borrower.{OpenOutcome, open_shm_pool, release_shm_pool}
use ipc_shm_arena_lend.Collection.Borrower.Open.{open_shm_pool-some}
use ipc_shm_arena_lend.Session.Registry.{
  CollectionData, OwnerData, Registry, ReleaseOutcome, find_collection, put_collection, put_owner,
  register_new_pool, register_shm_pool, release_unused, deregister_shm_pool,
}
use ipc_shm_arena_lend.Session.Registry.Undo.{
  find_collection_lem, put_collection-find_collection, register_open_pool-none,
  register_open_pool-some,
}

module _ {C : Type 0} ⦃u : UseCounted C⦄ where
  erase_or_decrement_use-insert :
      (repo : Repository (UseTracker C)) (p : Pool)
      → (insert repo p).1 ≡ true
      → erase_or_decrement_use (insert repo p).0 p.id ≡ (repo, some (p, 0))
  unfolding erase_or_decrement_use find erase erase_locked
  erase_or_decrement_use-insert repo p h = elim (Option-cases (find p.id repo.id_map)) [
    | inr (x, old) ↦ absurd (ground (arith, h, insert_cases repo p, old))
    | inl new_id ↦ elim (Option-cases (find p.address repo.address_map)) [
      | inr (x, old) ↦ absurd (ground (arith, h, insert_cases repo p, new_id, old))
      | inl new ↦
          rw (insert_cases repo p, new_id, new)
            (ground (
              arith,
              u.new_count,
              erase-absent p.id repo.id_map,
              erase-insert_ordered p.address p repo.address_map,
            ))
    ]
  ]

  -- The data of a collection once a pool is registered.
  abbrev with_pool : CollectionData C → ℕ → Pool → CollectionData C
  with_pool c id p = record c {
    collection = insert_ordered p.address p c.collection;
    shm_pool_ids = insert_ordered id tt c.shm_pool_ids;
  }

  release_unused-with_pool :
      (c : CollectionData C) (id : ℕ) (p : Pool) (o : ReleaseOutcome)
      → find p.address c.collection ≡ none
      → find id c.shm_pool_ids ≡ none
      → (release_unused (with_pool c id p) id p 0 o).0 ≡ c
  unfolding release_unused release_shm_pool deregister_pool
  release_unused-with_pool c id p o new new_id = ground (
    arith,
    find-insert_ordered p.address p.address p c.collection new,
    erase-insert_ordered p.address p c.collection,
    erase-insert_ordered id tt c.shm_pool_ids,
  )

  find_collection-put_collection :
      (r : Registry C) (owner id : ℕ) (d : OwnerData C) (c c' : CollectionData C)
      → find_collection r owner id ≡ some (d, c)
      → find_collection (put_collection r owner d id c') owner id
        ≡ some (record d { collection_data_map = assign id c' d.collection_data_map }, c')
  unfolding find_collection put_collection put_owner
  find_collection-put_collection r owner id d c c' h =
      let (e, f) = find_collection_lem r owner id d c h in
      let d' = record d { collection_data_map = assign id c' d.collection_data_map } in
      ground (
        arith,
        e,
        f,
        find-assign owner owner d' r.owner_data_map,
        find-assign id id c' d.collection_data_map,
      )

  put_collection-put_collection :
      (r : Registry C) (owner id : ℕ) (d : OwnerData C) (c c' : CollectionData C)
      → put_collection
          (put_collection r owner d id c')
          owner
          (record d { collection_data_map = assign id c' d.collection_data_map })
          id
          c
        ≡ put_collection r owner d id c
  unfolding put_collection put_owner
  put_collection-put_collection r owner id d c c' =
      let d' = record d { collection_data_map = assign id c' d.collection_data_map } in
      let d'' = record d { collection_data_map = assign id c d.collection_data_map } in
      ground (
        arith,
        assign-assign id c c' d.collection_data_map,
        assign-assign owner d'' d' r.owner_data_map,
      )

  register_new_pool-some :
      (repo : Repository (UseTracker C)) (c : CollectionData C) (id : ℕ) (name : String) (size : ℕ)
      (opening : OpenOutcome) (o : ReleaseOutcome) (p : Pool)
      → find id c.shm_pool_ids ≡ none
      → (register_new_pool repo c id name size opening o).2 ≡ some p
      → (p.id ≡ id)
        × (find p.address c.collection ≡ none)
        × ((insert repo p).1 ≡ true)
        × ((register_new_pool repo c id name size opening o).0 ≡ (insert repo p).0)
        × ((register_new_pool repo c id name size opening o).1 ≡ with_pool c id p)
  unfolding register_new_pool
  register_new_pool-some repo c id name size opening o p new_id h =
      elim (Option-cases (open_shm_pool c.collection id name size opening).1) [
        | inl failed ↦ absurd (ground (arith, h, failed))
        | inr (q, e) ↦
            let (same_id, new, ran) = open_shm_pool-some c.collection id name size opening q e in
            let c' = record c { collection = insert_ordered q.address q c.collection } in
            elim (Bool-cases (insert repo q).1) [
              | inr refused ↦
                  absurd (
                    ground
                      (arith, h, ran, register_open_pool-none repo c q id o new new_id refused))
              | inl inserted ↦
                  let law = register_open_pool-some repo c' q id o new_id inserted in
                  let same : q ≡ p = ground (arith, h, ran, law) in
                  ground (arith, same, same_id, new, inserted, ran, law)
            ]
      ]

  -- The registry once a pool is registered with a collection.
  abbrev with_registered :
      Registry C → ℕ → OwnerData C → ℕ → CollectionData C → ℕ → Pool → Registry C
  with_registered r owner d collection_id c id p = record {
    owner_data_map = (put_collection r owner d collection_id (with_pool c id p)).owner_data_map;
    shm_pool_repository = (insert r.shm_pool_repository p).0;
  }

  register_shm_pool-some :
      (r : Registry C) (owner collection_id id : ℕ) (name : String) (size : ℕ)
      (opening : OpenOutcome) (o : ReleaseOutcome) (d : OwnerData C) (c : CollectionData C)
      (p : Pool)
      → find_collection r owner collection_id ≡ some (d, c)
      → find id c.shm_pool_ids ≡ none
      → (register_shm_pool r owner collection_id id name size opening o).1 ≡ some p
      → (p.id ≡ id)
        × (find p.address c.collection ≡ none)
        × ((insert r.shm_pool_repository p).1 ≡ true)
        × ((register_shm_pool r owner collection_id id name size opening o).0
            ≡ with_registered r owner d collection_id c id p)
  unfolding register_shm_pool
  register_shm_pool-some r owner collection_id id name size opening o d c p e new_id h =
      let repo = r.shm_pool_repository in
      let ran : (register_new_pool repo c id name size opening o).2 ≡ some p =
        ground (arith, h, e, new_id) in
      let (a, b, i, x, y) = register_new_pool-some repo c id name size opening o p new_id ran in
      (a, b, i, ground (arith, e, new_id, x, y))

  deregister_shm_pool-registered :
      (r : Registry C) (owner collection_id : ℕ) (o : ReleaseOutcome) (d : OwnerData C)
      (c : CollectionData C) (p : Pool)
      → find_collection r owner collection_id ≡ some (d, c)
      → find p.id c.shm_pool_ids ≡ none
      → find p.address c.collection ≡ none
      → (insert r.shm_pool_repository p).1 ≡ true
      → let r' = with_registered r owner d collection_id c p.id p in
        let (r'', deregistered, effects) = deregister_shm_pool r' owner collection_id p.id o in
        (deregistered ≡ true) × (r'' ≡ r)
  unfolding deregister_shm_pool find_collection put_collection put_owner
  deregister_shm_pool-registered r owner collection_id o d c p e new_id new i =
      let c' = with_pool c p.id p in
      let here = find_collection-put_collection r owner collection_id d c c' e in
      let there = find-insert_ordered p.id p.id tt c.shm_pool_ids new_id in
      let taken = erase_or_decrement_use-insert r.shm_pool_repository p i in
      let gone = release_unused-with_pool c p.id p o new new_id in
      let twice = put_collection-put_collection r owner collection_id d c c' in
      let back = put_collection-find_collection r owner collection_id d c e in
      ground (arith, here, there, taken, gone, twice, back)

  -- A pool that was not registered with the collection, and whose registration succeeds, can be
  -- deregistered, and then the owners, the collections, the open pools and the repository are as they were
  -- before, whatever the system calls of the release return.
  pub deregister_shm_pool-register_shm_pool :
      (r : Registry C) (owner collection_id id : ℕ) (name : String) (size : ℕ)
      (opening : OpenOutcome) (o o' : ReleaseOutcome) (d : OwnerData C) (c : CollectionData C)
      (p : Pool)
      → find_collection r owner collection_id ≡ some (d, c)
      → find id c.shm_pool_ids ≡ none
      → (register_shm_pool r owner collection_id id name size opening o).1 ≡ some p
      → let r' = (register_shm_pool r owner collection_id id name size opening o).0 in
        let (r'', deregistered, effects) = deregister_shm_pool r' owner collection_id id o' in
        (deregistered ≡ true) × (r'' ≡ r)
  deregister_shm_pool-register_shm_pool r owner collection_id id name size opening o o' d c p e
        new_id h =
      let (same_id, new, i, ran) =
        register_shm_pool-some r owner collection_id id name size opening o d c p e new_id h in
      let back = deregister_shm_pool-registered r owner collection_id o' d c p e in
      rw (ran, sym same_id) (back (rw same_id new_id) new i)
