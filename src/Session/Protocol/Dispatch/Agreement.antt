-- ===== src/Session/Protocol/Dispatch/Agreement.antt =====
-- The two sides of a session after a pool was lent, in
-- session/standalone/shm/arena_lend/jemalloc/shm_session.cpp.
use ipc_shm_arena_lend.Base.{
  ℕ, ◌≡◌, Bool, true, false, Option, none, some, arith, Option-cases, Bool-cases, inl, inr, [], sym,
  ap, subst, ◌∙◌,
}
use ipc_shm_arena_lend.Base.Dict.{find, is_some, find-assign, find-emplace, emplace-inserts}
use ipc_shm_arena_lend.Pool.{Pool}
use ipc_shm_arena_lend.Repository.Borrower.{UseCounted}
use ipc_shm_arena_lend.Collection.Borrower.{OpenOutcome}
use ipc_shm_arena_lend.Session.Lender.{LenderCollection}
use ipc_shm_arena_lend.Session.Lender as Lender
use ipc_shm_arena_lend.Session.Borrower.{BorrowerCollection}
use ipc_shm_arena_lend.Session.Borrower as Borrower
use ipc_shm_arena_lend.Session.Registry.{
  CollectionData, OwnerData, find_collection, Registry, ReleaseOutcome, register_shm_pool,
}
use ipc_shm_arena_lend.Session.Registry.Ids.{register_shm_pool-id}
use ipc_shm_arena_lend.Session.Data.{
  SessionData, put_lender, put_borrower, register_lender_shm_pool, register_borrower_shm_pool,
}
use ipc_shm_arena_lend.Session.Protocol.{
  ShmSession, lends_pool, responded, send_sync_request, request_pool, lend_shm_pool,
}
use ipc_shm_arena_lend.Session.Protocol.Undo.{lend_shm_pool-false}
use ipc_shm_arena_lend.Session.Protocol.Borrow.{receive_shm_pool}
use ipc_shm_arena_lend.Session.Protocol.Dispatch.{receive_message}

-- Whether a pool of a collection is registered with the lender, and with the borrower.
unfoldable pub is_lent : SessionData → ℕ → ℕ → Bool
is_lent d id shm_pool_id = elim (find id d.lender_collection_map) [
  | none ↦ false
  | some c ↦ is_some (find shm_pool_id c)
]

unfoldable pub is_borrowed : SessionData → ℕ → ℕ → Bool
is_borrowed d id shm_pool_id = elim (find id d.borrower_collection_map) [
  | none ↦ false
  | some c ↦ is_some (find shm_pool_id c)
]

-- The flag of a response.
unfoldable pub flag : Option Bool → Bool
flag none = false
flag (some b) = b

is_lent-register_lender_shm_pool :
    (d : SessionData) (c : LenderCollection) (id : ℕ) (p : Pool)
    → find id d.lender_collection_map ≡ some c
    → find p.id c ≡ none
    → let (d', registered) = register_lender_shm_pool d id p in
      (is_lent d id p.id ≡ false) × (is_lent d' id p.id ≡ true) × (registered ≡ true)
unfolding is_lent register_lender_shm_pool put_lender Lender.register_shm_pool
is_lent-register_lender_shm_pool d c id p e f =
    let x : Lender.PoolData = record { pool = p; object_data_map = [] } in
    let c' = (Lender.register_shm_pool c p).0 in
    let kept = find-assign id id c' d.lender_collection_map in
    let law = find-emplace p.id p.id x c in
    let new = emplace-inserts p.id x c in
    (ground (arith, e, f), ground (arith, e, f, kept, law), ground (arith, e, f, new))

is_borrowed-register_borrower_shm_pool :
    (d : SessionData) (c : BorrowerCollection) (id : ℕ) (p : Pool)
    → find id d.borrower_collection_map ≡ some c
    → find p.id c ≡ none
    → let (d', registered) = register_borrower_shm_pool d id p in
      (is_borrowed d id p.id ≡ false) × (is_borrowed d' id p.id ≡ true) × (registered ≡ true)
unfolding is_borrowed register_borrower_shm_pool put_borrower Borrower.register_shm_pool
is_borrowed-register_borrower_shm_pool d c id p e f =
    let x : Borrower.PoolData = record { pool = p; offset_map = [] } in
    let c' = (Borrower.register_shm_pool c p).0 in
    let kept = find-assign id id c' d.borrower_collection_map in
    let law = find-emplace p.id p.id x c in
    let new = emplace-inserts p.id x c in
    (ground (arith, e, f), ground (arith, e, f, kept, law), ground (arith, e, f, new))

is_lent-lend_shm_pool :
    (s : ShmSession) (c : LenderCollection) (id : ℕ) (p : Pool) (b : Bool)
    → s.connected ≡ true
    → find id s.session_data.lender_collection_map ≡ some c
    → find p.id c ≡ none
    → let (s', lent, actions) = lend_shm_pool s id p (responded b) in
      (is_lent s'.session_data id p.id ≡ b) × (lent ≡ b)
unfolding lend_shm_pool request_pool send_sync_request
is_lent-lend_shm_pool s c id p b on e f =
    let (x, y, z) = is_lent-register_lender_shm_pool s.session_data c id p e f in
    let undone = lend_shm_pool-false s id p (responded b) in
    elim (Bool-cases b) [
      | inl accepts ↦ (ground (arith, on, y, z, accepts), ground (arith, on, z, accepts))
      | inr refuses ↦ (
        ap (λ s'. is_lent s'.session_data id p.id) (undone (ground (arith, on, z, refuses)))
            ∙ (x ∙ sym refuses),
        ground (arith, on, z, refuses),
      )
    ]

module _ {C : Type 0} ⦃u : UseCounted C⦄ where
  is_borrowed-receive_message :
      (r : Registry C) (d : SessionData) (b : BorrowerCollection) (owner id : ℕ) (p : Pool)
      (opening : OpenOutcome) (o : ReleaseOutcome)
      → find id d.borrower_collection_map ≡ some b
      → find p.id b ≡ none
      → ((q : Pool)
          → (register_shm_pool r owner id p.id p.name p.size opening o).1 ≡ some q
          → q.id ≡ p.id)
      → let (r', d', response, effects) =
          receive_message r d owner opening o (lends_pool id p.id p.name p.size) in
        is_borrowed d' id p.id ≡ flag response
  unfolding receive_message receive_shm_pool flag
  is_borrowed-receive_message r d b owner id p opening o g h same_id =
      elim (Option-cases (register_shm_pool r owner id p.id p.name p.size opening o).1) [
        | inl out ↦
            let absent : is_borrowed d id p.id ≡ false =
              unfold is_borrowed in ground (arith, g, h) in
            ground (arith, out, absent)
        | inr (q, k) ↦
            let i = same_id q k in
            let (_, y, z) = is_borrowed-register_borrower_shm_pool d b id q g (rw i h) in
            let y' =
              subst (λ j. is_borrowed (register_borrower_shm_pool d id q).0 id j ≡ true) i y in
            ground (arith, k, y', z)
      ]

  -- A pool that is new to both sides ends up on both or on neither: where the borrower answers the message
  -- that `lend_shm_pool` sends, in a session whose two sides have the collection and not the pool,
  -- and the registry of the borrower has the collection and not the pool either, the lender has the pool
  -- afterwards exactly if it reports success, and exactly if the borrower has it.
  pub is_lent-receive_message :
      (r : Registry C) (s : ShmSession) (d : SessionData) (c : LenderCollection)
      (b : BorrowerCollection) (e : OwnerData C) (k : CollectionData C) (owner id : ℕ) (p : Pool)
      (opening : OpenOutcome) (o : ReleaseOutcome)
      → s.connected ≡ true
      → find id s.session_data.lender_collection_map ≡ some c
      → find p.id c ≡ none
      → find id d.borrower_collection_map ≡ some b
      → find p.id b ≡ none
      → find_collection r owner id ≡ some (e, k)
      → find p.id k.shm_pool_ids ≡ none
      → let (r', d', response, effects) =
          receive_message r d owner opening o (lends_pool id p.id p.name p.size) in
        let (s', lent, actions) = lend_shm_pool s id p (responded (flag response)) in
        (is_lent s'.session_data id p.id ≡ lent) × (is_borrowed d' id p.id ≡ lent)
  is_lent-receive_message r s d c b e k owner id p opening o on f new g h known new_id =
      let (_, _, response, _) =
        receive_message r d owner opening o (lends_pool id p.id p.name p.size) in
      let (x, y) = is_lent-lend_shm_pool s c id p (flag response) on f new in
      let same_id : (q : Pool)
          → (register_shm_pool r owner id p.id p.name p.size opening o).1 ≡ some q
          → q.id ≡ p.id =
        λ q x. register_shm_pool-id r owner id p.id p.name p.size opening o e k q known new_id x in
      (x ∙ sym y, is_borrowed-receive_message r d b owner id p opening o g h same_id ∙ sym y)
