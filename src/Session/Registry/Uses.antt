-- ===== src/Session/Registry/Uses.antt =====
-- The sessions of an owner and the data of the others, in the operations of session/standalone/shm/arena_lend/jemalloc/
-- borrower_shm_pool_collection_repository.cpp on collections and pools.
use ipc_shm_arena_lend.Base.{
  ℕ, ◌≡◌, refl, subst, ◌∙◌, false, none, some, [], if◌then◌else◌, arith, ◌==◌, Bool-cases,
  Option-cases, inl, inr, String, leb,
}
use ipc_shm_arena_lend.Base.Dict.{Dict, find, assign, emplace, is_some, find-assign}
use ipc_shm_arena_lend.Repository.{Repository}
use ipc_shm_arena_lend.Repository.Borrower.{UseCounted, UseTracker, erase_or_decrement_use}
use ipc_shm_arena_lend.Collection.Borrower.{OpenOutcome}
use ipc_shm_arena_lend.Session.Registry.{
  Registry, OwnerData, CollectionData, ReleaseOutcome, put_owner, find_collection, put_collection,
  register_collection, deregister_collection, register_shm_pool, deregister_shm_pool,
}
use ipc_shm_arena_lend.Session.Registry.Undo.{find_collection_lem}

module _ {C : Type 0} ⦃u : UseCounted C⦄ where
  -- The number of sessions of an owner that the registry counts.
  unfoldable pub owner_uses : Dict (OwnerData C) → ℕ → ℕ
  owner_uses m owner = elim (find owner m) [ none ↦ 0 | some d ↦ u.get_use_count d.uses ]

  -- The uses of an owner stay, and all that is of others.
  pub record Keeps (owner : ℕ) (r r' : Registry C) : Type 0 where
    pub uses : owner_uses r'.owner_data_map owner ≡ owner_uses r.owner_data_map owner
    pub others : (k : ℕ) → (owner == k) ≡ false → find k r'.owner_data_map ≡ find k r.owner_data_map

  pub Keeps-same :
      (owner : ℕ) (r r' : Registry C) → r'.owner_data_map ≡ r.owner_data_map → Keeps owner r r'
  Keeps-same owner r r' e = record { uses = rw e refl; others = λ k n. rw e refl }

  pub Keeps-trans :
      (owner : ℕ) (r s t : Registry C) → Keeps owner r s → Keeps owner s t → Keeps owner r t
  Keeps-trans owner r s t p q = record {
    uses = q.uses ∙ p.uses;
    others = λ k n. q.others k n ∙ p.others k n;
  }

  put_owner-Keeps :
      (r : Registry C) (owner : ℕ) (d d' : OwnerData C)
      → find owner r.owner_data_map ≡ some d
      → d'.uses ≡ d.uses
      → Keeps owner r (put_owner r owner d')
  unfolding put_owner owner_uses
  put_owner-Keeps r owner d d' e same = record {
    uses = ground (arith, find-assign owner owner d' r.owner_data_map, e, same);
    others = λ k n. ground (arith, find-assign owner k d' r.owner_data_map, n);
  }

  pub register_collection-Keeps :
      (r : Registry C) (owner id : ℕ) → Keeps owner r (register_collection r owner id).0
  unfolding register_collection
  register_collection-Keeps r owner id = elim (Option-cases (find owner r.owner_data_map)) [
    | inl absent ↦ rw (absent, register_collection) (Keeps-same owner r r refl)
    | inr (d, here) ↦ elim (Option-cases (find id d.collection_data_map)) [
      | inl new ↦
          elim (Bool-cases
            (emplace id (record { uses = u.new_use; collection = []; shm_pool_ids = [] })
              d.collection_data_map).1) [
                | inl made ↦
                    rw (here, register_collection)
                      (rw (new, made) (put_owner-Keeps r owner d _ here refl))
                | inr failed ↦
                    rw (here, register_collection) (rw (new, failed) (Keeps-same owner r r refl))
              ]
      | inr (c, old) ↦
          rw (here, register_collection) (rw old (put_owner-Keeps r owner d _ here refl))
    ]
  ]

  pub deregister_collection-Keeps :
      (r : Registry C) (owner id : ℕ) → Keeps owner r (deregister_collection r owner id).0
  unfolding deregister_collection
  deregister_collection-Keeps r owner id = elim (Option-cases (find owner r.owner_data_map)) [
    | inl absent ↦ rw (absent, deregister_collection) (Keeps-same owner r r refl)
    | inr (d, here) ↦ elim (Option-cases (find id d.collection_data_map)) [
      | inl new ↦ rw (here, deregister_collection) (rw new (Keeps-same owner r r refl))
      | inr (c, old) ↦ elim (Bool-cases (leb (u.get_use_count c.uses) 1)) [
        | inl last ↦
            rw (here, deregister_collection)
              (rw (old, last) (put_owner-Keeps r owner d _ here refl))
        | inr more ↦
            rw (here, deregister_collection)
              (rw (old, more) (put_owner-Keeps r owner d _ here refl))
      ]
    ]
  ]

  -- The end of the operations on pools: new data of a collection, and a new repository.
  put_collection-Keeps :
      (r : Registry C) (owner id : ℕ) (d : OwnerData C) (c c' : CollectionData C)
      (repo : Repository (UseTracker C))
      → find_collection r owner id ≡ some (d, c)
      → Keeps owner r (record (put_collection r owner d id c') { shm_pool_repository = repo })
  unfolding put_collection
  put_collection-Keeps r owner id d c c' repo e =
      let (here, there) = find_collection_lem r owner id d c e in
      let w =
        put_owner-Keeps r owner d
          (record d { collection_data_map = assign id c' d.collection_data_map }) here refl in
      record { uses = w.uses; others = w.others }

  pub register_shm_pool-Keeps :
      (r : Registry C) (owner id shm_pool_id : ℕ) (name : String) (size : ℕ) (opening : OpenOutcome)
      (o : ReleaseOutcome)
      → Keeps owner r (register_shm_pool r owner id shm_pool_id name size opening o).0
  unfolding register_shm_pool
  register_shm_pool-Keeps r owner id shm_pool_id name size opening o =
      elim (Option-cases (find_collection r owner id)) [
        | inl absent ↦ rw (absent, register_shm_pool) (Keeps-same owner r r refl)
        | inr ((d, c), e) ↦ elim (Bool-cases (is_some (find shm_pool_id c.shm_pool_ids))) [
          | inl known ↦ rw (e, register_shm_pool) (rw known (Keeps-same owner r _ refl))
          | inr new ↦ rw (e, register_shm_pool) (rw new (put_collection-Keeps r owner id d c _ _ e))
        ]
      ]

  pub deregister_shm_pool-Keeps :
      (r : Registry C) (owner id shm_pool_id : ℕ) (o : ReleaseOutcome)
      → Keeps owner r (deregister_shm_pool r owner id shm_pool_id o).0
  unfolding deregister_shm_pool
  deregister_shm_pool-Keeps r owner id shm_pool_id o =
      elim (Option-cases (find_collection r owner id)) [
        | inl absent ↦ rw (absent, deregister_shm_pool) (Keeps-same owner r r refl)
        | inr ((d, c), e) ↦ elim (Bool-cases (is_some (find shm_pool_id c.shm_pool_ids))) [
          | inr new ↦ rw (e, deregister_shm_pool) (rw new (Keeps-same owner r r refl))
          | inl known ↦
              elim (Option-cases (erase_or_decrement_use r.shm_pool_repository shm_pool_id).1) [
                | inl gone ↦
                    rw (e, deregister_shm_pool) (rw (known, gone) (Keeps-same owner r r refl))
                | inr ((p, n), found) ↦
                    rw (e, deregister_shm_pool)
                      (rw (known, found) (put_collection-Keeps r owner id d c _ _ e))
              ]
        ]
      ]

  owner_uses-find :
      (m n : Dict (OwnerData C)) (k : ℕ) → find k m ≡ find k n → owner_uses m k ≡ owner_uses n k
  unfolding owner_uses
  owner_uses-find m n k e = rw (e, owner_uses) refl

  -- Of two maps that agree but for an owner, whose uses they agree on.
  pub elsewhere :
      (owner k : ℕ) (m n : Dict (OwnerData C))
      → owner_uses m owner ≡ owner_uses n owner
      → ((owner == k) ≡ false → find k m ≡ find k n)
      → (owner_uses m k ≡ owner_uses n k) × (find k m ≡ (if owner == k then find k m else find k n))
  elsewhere owner k m n p q = elim (Bool-cases (owner == k)) [
    | inl same ↦
        let e : owner ≡ k = ground (arith, same) in
        (subst (λ j. owner_uses m j ≡ owner_uses n j) e p, rw same refl)
    | inr other ↦ let e = q other in (owner_uses-find m n k e, rw (other, e) refl)
  ]
