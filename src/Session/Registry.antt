-- ===== src/Session/Registry.antt =====
-- session/standalone/shm/arena_lend/borrower_shm_pool_collection_repository.hpp and .cpp (class
-- `Borrower_shm_pool_collection_repository`): the owners that a process borrows from, their collections,
-- and the pools, each with its uses. Owners and collections are their IDs. The mutex makes each
-- operation one step.
pub mod Undo
pub mod Ids
pub mod Return
pub mod Uses
use ipc_shm_arena_lend.Base.{
  ℕ, Bool, true, false, Option, none, some, List, [], ◌∷◌, ◌++◌, if◌then◌else◌, leb, String, ◌==◌,
}
use ipc_shm_arena_lend.Base.Dict.{Dict, find, erase, assign, emplace, is_some}
use ipc_shm_arena_lend.Pool.{Pool}
use ipc_shm_arena_lend.AddressMap.{emplace_ordered}
use ipc_shm_arena_lend.Repository.{Repository, insert}
use ipc_shm_arena_lend.Repository.Borrower.{
  UseCounted, UseTracker, tracker_holder, increment_use, erase_or_decrement_use,
}
use ipc_shm_arena_lend.Collection.{Effect}
use ipc_shm_arena_lend.Collection.Borrower.{OpenOutcome, open_shm_pool, release_shm_pool}

-- `Collection_data`, with the collection itself
pub record CollectionData (C : Type 0) : Type 0 where
  pub uses : C
  pub collection : Dict Pool
  pub shm_pool_ids : Dict (Unit {0})

-- `Owner_data`
pub record OwnerData (C : Type 0) : Type 0 where
  pub uses : C
  pub collection_data_map : Dict (CollectionData C)

pub record Registry (C : Type 0) : Type 0 where
  pub owner_data_map : Dict (OwnerData C)
  pub shm_pool_repository : Repository (UseTracker C)

-- What the system does in the release of a pool.
pub record ReleaseOutcome : Type 0 where
  pub unmapped : Bool
  pub closed : Bool

module _ {C : Type 0} ⦃u : UseCounted C⦄ where
  unfoldable pub register_owner : Registry C → ℕ → Registry C
  register_owner r owner = elim (find owner r.owner_data_map) [
    | none ↦ record r {
      owner_data_map =
          (emplace owner (record { uses = u.new_use; collection_data_map = [] })
            r.owner_data_map).0;
    }
    | some d ↦ record r {
      owner_data_map = assign owner (record d { uses = u.increment_use d.uses }) r.owner_data_map;
    }
  ]

  unfoldable pub deregister_owner : Registry C → ℕ → Registry C × Bool
  deregister_owner r owner = elim (find owner r.owner_data_map) [
    | none ↦ (r, false)
    | some d ↦
        if leb (u.get_use_count d.uses) 1
        then (record r { owner_data_map = erase owner r.owner_data_map }, true)
        else (
          record r {
            owner_data_map =
                assign owner (record d { uses = u.decrement_use d.uses }) r.owner_data_map;
          },
          true,
        )
  ]

  -- The update of the data of one owner.
  unfoldable pub put_owner : Registry C → ℕ → OwnerData C → Registry C
  put_owner r owner d = record r { owner_data_map = assign owner d r.owner_data_map }

  -- The collection, or null where the owner is unknown.
  unfoldable pub register_collection : Registry C → ℕ → ℕ → Registry C × Option (Dict Pool)
  unfolding put_owner
  register_collection r owner id = elim (find owner r.owner_data_map) [
    | none ↦ (r, none)
    | some d ↦ elim (find id d.collection_data_map) [
      | none ↦
          let new : CollectionData C = record {
            uses = u.new_use;
            collection = [];
            shm_pool_ids = [];
          } in
          let (m, inserted) = emplace id new d.collection_data_map in
          if inserted
          then (put_owner r owner (record d { collection_data_map = m }), some [])
          else (r, none)
      | some c ↦
          let c' = record c { uses = u.increment_use c.uses } in
          let m = assign id c' d.collection_data_map in
          (put_owner r owner (record d { collection_data_map = m }), some c.collection)
    ]
  ]

  unfoldable pub deregister_collection : Registry C → ℕ → ℕ → Registry C × Bool
  unfolding put_owner
  deregister_collection r owner id = elim (find owner r.owner_data_map) [
    | none ↦ (r, false)
    | some d ↦ elim (find id d.collection_data_map) [
      | none ↦ (r, false)
      | some c ↦
          if leb (u.get_use_count c.uses) 1
          then (
            put_owner r owner (record d { collection_data_map = erase id d.collection_data_map }),
            true,
          )
          else let c' = record c { uses = u.decrement_use c.uses } in
            let m = assign id c' d.collection_data_map in
            (put_owner r owner (record d { collection_data_map = m }), true)
    ]
  ]

  -- The lookup of an owner's collection, at the head of the operations on pools.
  unfoldable pub find_collection : Registry C → ℕ → ℕ → Option (OwnerData C × CollectionData C)
  find_collection r owner id = elim (find owner r.owner_data_map) [
    | none ↦ none
    | some d ↦ elim (find id d.collection_data_map) [ none ↦ none | some c ↦ some (d, c) ]
  ]

  unfoldable pub put_collection : Registry C → ℕ → OwnerData C → ℕ → CollectionData C → Registry C
  unfolding put_owner
  put_collection r owner d id c =
      put_owner r owner (record d { collection_data_map = assign id c d.collection_data_map })

  -- The part of `register_shm_pool` for a pool that was opened; `o` is for the undo.
  unfoldable pub register_open_pool :
      Repository (UseTracker C)
      → CollectionData C
      → Pool
      → ℕ
      → ReleaseOutcome
      → Repository (UseTracker C) × CollectionData C × Option Pool × List Effect
  register_open_pool repo c p id o =
      let (ids, new_id) = emplace_ordered id tt c.shm_pool_ids in
      let (repo', inserted) = insert repo p in
      let (collection, ok, undo) = release_shm_pool c.collection p o.unmapped o.closed in
      if new_id
      then if inserted
        then (repo', record c { shm_pool_ids = ids }, some p, [])
        else (repo', record c { collection = collection; shm_pool_ids = erase id ids }, none, undo)
      else (repo, record c { collection = collection }, none, undo)

  -- The part of `register_shm_pool` for a pool that the collection does not have.
  unfoldable pub register_new_pool :
      Repository (UseTracker C)
      → CollectionData C
      → ℕ
      → String
      → ℕ
      → OpenOutcome
      → ReleaseOutcome
      → Repository (UseTracker C) × CollectionData C × Option Pool × List Effect
  unfolding register_open_pool
  register_new_pool repo c id name size opening o =
      let (collection, result, effects) = open_shm_pool c.collection id name size opening in
      let c' = record c { collection = collection } in
      elim result [
        | none ↦ (repo, c', none, effects)
        | some p ↦
            let (repo', c'', registered, more) = register_open_pool repo c' p id o in
            (repo', c'', registered, effects ++ more)
      ]

  -- The assertion on the size of a pool that is registered already is left out.
  unfoldable pub register_shm_pool :
      Registry C
      → ℕ
      → ℕ
      → ℕ
      → String
      → ℕ
      → OpenOutcome
      → ReleaseOutcome
      → Registry C × Option Pool × List Effect
  unfolding register_new_pool find_collection put_collection
  register_shm_pool r owner collection_id id name size opening o =
      elim (find_collection r owner collection_id) [
        | none ↦ (r, none, [])
        | some (d, c) ↦
            if is_some (find id c.shm_pool_ids)
            then (let (repo, result) = increment_use r.shm_pool_repository id in
                (record r { shm_pool_repository = repo }, result, []))
            else (let (repo, c', result, effects) =
                  register_new_pool r.shm_pool_repository c id name size opening o in
                let r' = put_collection r owner d collection_id c' in
                (record r' { shm_pool_repository = repo }, result, effects))
      ]

  -- The part of `deregister_shm_pool` after the use count was taken down.
  unfoldable pub release_unused :
      CollectionData C → ℕ → Pool → ℕ → ReleaseOutcome → CollectionData C × List Effect
  release_unused c id p use_count o =
      let (collection, ok, effects) = release_shm_pool c.collection p o.unmapped o.closed in
      if use_count == 0
      then (record c { collection = collection; shm_pool_ids = erase id c.shm_pool_ids }, effects)
      else (c, [])

  unfoldable pub deregister_shm_pool :
      Registry C → ℕ → ℕ → ℕ → ReleaseOutcome → Registry C × Bool × List Effect
  unfolding release_unused find_collection put_collection
  deregister_shm_pool r owner collection_id id o = elim (find_collection r owner collection_id) [
    | none ↦ (r, false, [])
    | some (d, c) ↦
        if is_some (find id c.shm_pool_ids)
        then (let (repo, result) = erase_or_decrement_use r.shm_pool_repository id in
            elim result [
              | none ↦ (r, false, [])
              | some (p, use_count) ↦
                  let (c', effects) = release_unused c id p use_count o in
                  let r' = put_collection r owner d collection_id c' in
                  (record r' { shm_pool_repository = repo }, true, effects)
            ])
        else (r, false, [])
  ]
