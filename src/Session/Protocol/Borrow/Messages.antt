-- ===== src/Session/Protocol/Borrow/Messages.antt =====
-- The messages that a borrower session receives, in session/standalone/shm/arena_lend/jemalloc/shm_session.cpp, and the
-- owners in the registry of the process.
use ipc_shm_arena_lend.Base.{
  ℕ, ◌≡◌, refl, Bool, true, false, none, some, List, [], ◌∷◌, if◌then◌else◌, arith, Option-cases,
  inl, inr, String,
}
use ipc_shm_arena_lend.Base.Dict.{Dict}
use ipc_shm_arena_lend.Pool.{Pool}
use ipc_shm_arena_lend.Repository.Borrower.{UseCounted}
use ipc_shm_arena_lend.Collection.Borrower.{OpenOutcome}
use ipc_shm_arena_lend.Session.Borrower.{BorrowerCollection, get_shm_pool_ids}
use ipc_shm_arena_lend.Session.Registry.{
  Registry, ReleaseOutcome, register_collection, deregister_collection, register_shm_pool,
  deregister_shm_pool,
}
use ipc_shm_arena_lend.Session.Data.{
  SessionData, register_borrower_shm_pool, deregister_borrower_shm_pool,
}
use ipc_shm_arena_lend.Session.Protocol.Borrow.{
  receive_arena, receive_shm_pool, receive_shm_pool_removal, release_shm_pools, release_collections,
}
use ipc_shm_arena_lend.Session.Registry.Uses.{
  Keeps, Keeps-same, Keeps-trans, register_collection-Keeps, deregister_collection-Keeps,
  register_shm_pool-Keeps, deregister_shm_pool-Keeps,
}

-- The messages of the lender that the registry hears of, with what the system does.
pub data Incoming : Type 0 where
  arena_lent : ℕ → Incoming
  pool_lent : ℕ → ℕ → String → ℕ → OpenOutcome → ReleaseOutcome → Incoming
  pool_removed : ℕ → ℕ → ReleaseOutcome → Incoming

module _ {C : Type 0} ⦃u : UseCounted C⦄ where
  unfoldable pub receive : Registry C → SessionData → ℕ → Incoming → Registry C × SessionData
  receive r d owner (arena_lent id) = let (r', d', success) = receive_arena r d owner id in (r', d')
  receive r d owner (pool_lent id shm_pool_id name size opening o) =
      let (r', d', success, effects) =
        receive_shm_pool r d owner id shm_pool_id name size opening o in
      (r', d')
  receive r d owner (pool_removed id shm_pool_id o) =
      let (r', d', success, effects) = receive_shm_pool_removal r d owner id shm_pool_id o in
      (r', d')

  -- The session from the first message on.
  unfoldable pub receive_all :
      Registry C → SessionData → ℕ → List Incoming → Registry C × SessionData
  unfolding receive
  receive_all r d owner [] = (r, d)
  receive_all r d owner (x ∷ xs) = let (r', d') = receive r d owner x in receive_all r' d' owner xs

  receive_arena-registry :
      (r : Registry C) (d : SessionData) (owner id : ℕ)
      → (receive_arena r d owner id).0 ≡ (register_collection r owner id).0
  unfolding receive_arena
  receive_arena-registry r d owner id = ground arith

  receive_shm_pool-registry_refused :
      (r : Registry C) (d : SessionData) (owner id shm_pool_id : ℕ) (name : String) (size : ℕ)
      (opening : OpenOutcome) (o : ReleaseOutcome)
      → (register_shm_pool r owner id shm_pool_id name size opening o).1 ≡ none
      → (receive_shm_pool r d owner id shm_pool_id name size opening o).0
        ≡ (register_shm_pool r owner id shm_pool_id name size opening o).0
  unfolding receive_shm_pool
  receive_shm_pool-registry_refused r d owner id shm_pool_id name size opening o e =
      ground (arith, e)

  receive_shm_pool-registry :
      (r : Registry C) (d : SessionData) (owner id shm_pool_id : ℕ) (name : String) (size : ℕ)
      (opening : OpenOutcome) (o : ReleaseOutcome) (p : Pool)
      → (register_shm_pool r owner id shm_pool_id name size opening o).1 ≡ some p
      → (receive_shm_pool r d owner id shm_pool_id name size opening o).0 ≡ (
          if (register_borrower_shm_pool d id p).1
          then (register_shm_pool r owner id shm_pool_id name size opening o).0
          else (deregister_shm_pool
              (register_shm_pool r owner id shm_pool_id name size opening o).0
              owner
              id
              shm_pool_id
              o).0)
  unfolding receive_shm_pool
  receive_shm_pool-registry r d owner id shm_pool_id name size opening o p e = ground (arith, e)

  receive_shm_pool_removal-registry :
      (r : Registry C) (d : SessionData) (owner id shm_pool_id : ℕ) (o : ReleaseOutcome)
      → (receive_shm_pool_removal r d owner id shm_pool_id o).0 ≡ (
          if (deregister_borrower_shm_pool d id shm_pool_id).1
          then (deregister_shm_pool r owner id shm_pool_id o).0
          else r)
  unfolding receive_shm_pool_removal
  receive_shm_pool_removal-registry r d owner id shm_pool_id o = ground arith

  if-Keeps :
      (owner : ℕ) (r s t : Registry C) (b : Bool)
      → Keeps owner r s
      → Keeps owner r t
      → Keeps owner r (if b then s else t)
  if-Keeps owner r s t true p q = p
  if-Keeps owner r s t false p q = q

  receive-Keeps :
      (r : Registry C) (d : SessionData) (owner : ℕ) (x : Incoming)
      → Keeps owner r (receive r d owner x).0
  unfolding receive
  receive-Keeps r d owner (arena_lent id) =
      rw (receive_arena-registry r d owner id) (register_collection-Keeps r owner id)
  receive-Keeps r d owner (pool_lent id shm_pool_id name size opening o) =
      let reg = register_shm_pool r owner id shm_pool_id name size opening o in
      let w = register_shm_pool-Keeps r owner id shm_pool_id name size opening o in
      elim (Option-cases reg.1) [
        | inl e ↦
            rw (receive_shm_pool-registry_refused r d owner id shm_pool_id name size opening o e) w
        | inr (p, e) ↦
            rw (receive_shm_pool-registry r d owner id shm_pool_id name size opening o p e) (
              if-Keeps owner r reg.0 _ _ w (
                Keeps-trans owner r reg.0 _ w
                  (deregister_shm_pool-Keeps reg.0 owner id shm_pool_id o)))
      ]
  receive-Keeps r d owner (pool_removed id shm_pool_id o) =
      rw (receive_shm_pool_removal-registry r d owner id shm_pool_id o) (
        if-Keeps owner r _ _ _ (deregister_shm_pool-Keeps r owner id shm_pool_id o)
          (Keeps-same owner r r refl))

  pub receive_all-Keeps :
      (r : Registry C) (d : SessionData) (owner : ℕ) (xs : List Incoming)
      → Keeps owner r (receive_all r d owner xs).0
  unfolding receive_all
  receive_all-Keeps r d owner [] = Keeps-same owner r r refl
  receive_all-Keeps r d owner (x ∷ xs) =
      let next = receive r d owner x in
      Keeps-trans owner r next.0 _ (receive-Keeps r d owner x)
        (receive_all-Keeps next.0 next.1 owner xs)

  release_shm_pools-Keeps :
      (r : Registry C) (owner id : ℕ) (ps : List ℕ) (o : ReleaseOutcome)
      → Keeps owner r (release_shm_pools r owner id ps o).0
  unfolding release_shm_pools
  release_shm_pools-Keeps r owner id [] o = Keeps-same owner r r refl
  release_shm_pools-Keeps r owner id (p ∷ ps) o =
      let next = deregister_shm_pool r owner id p o in
      Keeps-trans owner r next.0 _ (deregister_shm_pool-Keeps r owner id p o)
        (release_shm_pools-Keeps next.0 owner id ps o)

  pub release_collections-Keeps :
      (r : Registry C) (owner : ℕ) (m : Dict BorrowerCollection) (o : ReleaseOutcome)
      → Keeps owner r (release_collections r owner m o).0
  unfolding release_collections
  release_collections-Keeps r owner [] o = Keeps-same owner r r refl
  release_collections-Keeps r owner ((id, c) ∷ m) o =
      let a = (release_shm_pools r owner id (get_shm_pool_ids c) o).0 in
      let b = (deregister_collection a owner id).0 in
      Keeps-trans owner r a _ (release_shm_pools-Keeps r owner id (get_shm_pool_ids c) o) (
        Keeps-trans owner a b _ (deregister_collection-Keeps a owner id)
          (release_collections-Keeps b owner m o))
