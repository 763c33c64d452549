-- ===== src/Session/Protocol/Borrow/Refusal.antt =====
-- Pools that a session refuses in session/standalone/shm/arena_lend/jemalloc/shm_session.cpp.
use ipc_shm_arena_lend.Base.{ℕ, ◌≡◌, true, false, none, some, arith, Option-cases, inl, inr, String}
use ipc_shm_arena_lend.Base.Dict.{find, emplace, assign-find}
use ipc_shm_arena_lend.Pool.{Pool}
use ipc_shm_arena_lend.Repository.Borrower.{UseCounted}
use ipc_shm_arena_lend.Collection.Borrower.{OpenOutcome}
use ipc_shm_arena_lend.Session.Borrower as Borrower
use ipc_shm_arena_lend.Session.Borrower.{BorrowerCollection}
use ipc_shm_arena_lend.Session.Registry.{
  Registry, OwnerData, CollectionData, ReleaseOutcome, find_collection, register_shm_pool,
}
use ipc_shm_arena_lend.Session.Registry.Return.{deregister_shm_pool-register_shm_pool}
use ipc_shm_arena_lend.Session.Data.{SessionData, register_borrower_shm_pool, put_borrower}
use ipc_shm_arena_lend.Session.Protocol.Borrow.{receive_shm_pool}

refused_pool :
    (d : SessionData) (id : ℕ) (p : Pool)
    → (register_borrower_shm_pool d id p).1 ≡ false
    → (register_borrower_shm_pool d id p).0 ≡ d
unfolding register_borrower_shm_pool put_borrower
refused_pool d id p h = elim (Option-cases (find id d.borrower_collection_map)) [
  | inl out ↦ ground (arith, out)
  | inr (c, e) ↦ elim (Option-cases (find p.id c)) [
    | inl new ↦
        absurd (unfold Borrower.register_shm_pool in unfold emplace in ground (arith, h, e, new))
    | inr (x, old) ↦
        unfold Borrower.register_shm_pool in
        unfold emplace in ground (arith, e, old, assign-find id c d.borrower_collection_map)
  ]
]

module _ {C : Type 0} ⦃u : UseCounted C⦄ where
  -- A pool that is new to the registry and that the session refuses is taken back: the registry and the
  -- session are as before; yet the lender is told that the pool was received.
  pub receive_shm_pool-refused :
      (r : Registry C) (s : SessionData) (owner id shm_pool_id : ℕ) (name : String) (size : ℕ)
      (opening : OpenOutcome) (o : ReleaseOutcome) (d : OwnerData C) (c : CollectionData C)
      (p : Pool)
      → find_collection r owner id ≡ some (d, c)
      → find shm_pool_id c.shm_pool_ids ≡ none
      → (register_shm_pool r owner id shm_pool_id name size opening o).1 ≡ some p
      → (register_borrower_shm_pool s id p).1 ≡ false
      → let (r', s', success, effects) =
          receive_shm_pool r s owner id shm_pool_id name size opening o in
        (r' ≡ r) × (s' ≡ s) × (success ≡ true)
  unfolding receive_shm_pool
  receive_shm_pool-refused r s owner id shm_pool_id name size opening o d c p e new_id h refused =
      let (undone, back) =
        deregister_shm_pool-register_shm_pool r owner id shm_pool_id name size opening o o d c p e
          new_id h in
      ground (arith, h, refused, undone, back, refused_pool s id p refused)
