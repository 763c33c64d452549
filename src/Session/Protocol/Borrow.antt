-- ===== src/Session/Protocol/Borrow.antt =====
-- The borrowing side of session/standalone/shm/arena_lend/jemalloc/shm_session.cpp: what it does with the
-- process's registry of borrowed pools and the session's data when messages of the lender arrive, and
-- when the session begins and ends. The owner is the ID of the lender's process.
pub mod Refusal
pub mod Messages
pub mod Lifetime
use ipc_shm_arena_lend.Base.{
  ℕ, Bool, true, false, Option, none, some, List, [], ◌∷◌, ◌++◌, if◌then◌else◌, String,
}
use ipc_shm_arena_lend.Base.Dict.{Dict}
use ipc_shm_arena_lend.Repository.Borrower.{UseCounted}
use ipc_shm_arena_lend.Collection.{Effect}
use ipc_shm_arena_lend.Collection.Borrower.{OpenOutcome}
use ipc_shm_arena_lend.Session.Borrower.{BorrowerCollection, get_shm_pool_ids}
use ipc_shm_arena_lend.Session.Registry.{
  Registry, ReleaseOutcome, register_owner, deregister_owner, register_collection,
  deregister_collection, register_shm_pool, deregister_shm_pool,
}
use ipc_shm_arena_lend.Session.Data.{
  SessionData, register_borrower_collection, register_borrower_shm_pool,
  deregister_borrower_shm_pool, construct_and_register_borrower_object,
}
use ipc_shm_arena_lend.Session.Protocol.Handle.{deserialize_handle}

-- `borrow_object` of a blob: the address of the object, or null.
unfoldable pub borrow_object : SessionData → List ℕ → SessionData × Option ℕ
borrow_object d blob = elim (deserialize_handle blob) [
  | none ↦ (d, none)
  | some (collection_id, shm_pool_id, offset) ↦
      construct_and_register_borrower_object d collection_id shm_pool_id offset
]

module _ {C : Type 0} ⦃u : UseCounted C⦄ where
  unfoldable pub receive_arena : Registry C → SessionData → ℕ → ℕ → Registry C × SessionData × Bool
  receive_arena r d owner id =
      let (r', collection) = register_collection r owner id in
      let (d', registered) = register_borrower_collection d id in
      elim collection [ none ↦ (r', d, false) | some m ↦ (r', d', registered) ]

  -- A pool that the session refuses is taken back in the registry, and the result is then that of
  -- the undo.
  unfoldable pub receive_shm_pool :
      Registry C
      → SessionData
      → ℕ
      → ℕ
      → ℕ
      → String
      → ℕ
      → OpenOutcome
      → ReleaseOutcome
      → Registry C × SessionData × Bool × List Effect
  receive_shm_pool r d owner id shm_pool_id name size opening o =
      let (r', pool, effects) = register_shm_pool r owner id shm_pool_id name size opening o in
      elim pool [
        | none ↦ (r', d, false, effects)
        | some p ↦
            let (d', registered) = register_borrower_shm_pool d id p in
            let (r'', undone, more) = deregister_shm_pool r' owner id shm_pool_id o in
            if registered then (r', d', true, effects) else (r'', d', undone, effects ++ more)
      ]

  unfoldable pub receive_shm_pool_removal :
      Registry C
      → SessionData
      → ℕ
      → ℕ
      → ℕ
      → ReleaseOutcome
      → Registry C × SessionData × Bool × List Effect
  receive_shm_pool_removal r d owner id shm_pool_id o =
      let (d', removed) = deregister_borrower_shm_pool d id shm_pool_id in
      let (r', deregistered, effects) = deregister_shm_pool r owner id shm_pool_id o in
      if removed then (r', d', deregistered, effects) else (r, d', false, [])

  -- The loops of the destructor: over the pools of a collection, and over the collections.
  unfoldable pub release_shm_pools :
      Registry C → ℕ → ℕ → List ℕ → ReleaseOutcome → Registry C × List Effect
  release_shm_pools r owner id [] o = (r, [])
  release_shm_pools r owner id (p ∷ ps) o =
      let (r', deregistered, effects) = deregister_shm_pool r owner id p o in
      let (r'', more) = release_shm_pools r' owner id ps o in (r'', effects ++ more)

  unfoldable pub release_collections :
      Registry C → ℕ → Dict BorrowerCollection → ReleaseOutcome → Registry C × List Effect
  unfolding release_shm_pools
  release_collections r owner [] o = (r, [])
  release_collections r owner ((id, c) ∷ m) o =
      let (r', effects) = release_shm_pools r owner id (get_shm_pool_ids c) o in
      let (r'', found) = deregister_collection r' owner id in
      let (r''', more) = release_collections r'' owner m o in (r''', effects ++ more)

  -- The constructor and the destructor, as far as the registry is concerned.
  unfoldable pub begin_session : Registry C → ℕ → Registry C
  begin_session r owner = register_owner r owner

  unfoldable pub end_session :
      Registry C → SessionData → ℕ → ReleaseOutcome → Registry C × List Effect
  unfolding release_collections
  end_session r d owner o =
      let (r', effects) = release_collections r owner d.borrower_collection_map o in
      ((deregister_owner r' owner).0, effects)
