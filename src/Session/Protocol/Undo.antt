-- ===== src/Session/Protocol/Undo.antt =====
-- Failed lending in session/standalone/shm/arena_lend/jemalloc/shm_session.cpp.
use ipc_shm_arena_lend.Base.{ℕ, ◌≡◌, true, false, none, [], arith, Option-cases, inl, inr}
use ipc_shm_arena_lend.Base.Dict.{
  find, emplace, find-assign, find-emplace, erase-emplace, assign-find, assign-assign,
}
use ipc_shm_arena_lend.Pool.{Pool}
use ipc_shm_arena_lend.AddressMap.{emplace_ordered}
use ipc_shm_arena_lend.Arena.{Arena, add_shm_pool_listener}
use ipc_shm_arena_lend.Session.Lender.{LenderCollection}
use ipc_shm_arena_lend.Session.Lender as Lender
use ipc_shm_arena_lend.Session.Data.{
  SessionData, register_lender_collection, deregister_lender_collection, register_lender_shm_pool,
  deregister_lender_shm_pool, put_lender,
}
use ipc_shm_arena_lend.Session.Protocol.{
  ShmSession, RequestOutcome, request_pool, lend_shm_pool, request_arena, offer_arena, lend_arena,
}

-- A pool that was just registered with a collection can be taken out again.
collection_undo :
    (c : LenderCollection) (p : Pool)
    → (Lender.register_shm_pool c p).1 ≡ true
    → (Lender.deregister_shm_pool (Lender.register_shm_pool c p).0 p.id).0 ≡ c
unfolding Lender.register_shm_pool Lender.deregister_shm_pool
collection_undo c p h = elim (Option-cases (find p.id c)) [
  | inr (d, old) ↦ absurd (unfold emplace in ground (arith, h, old))
  | inl new ↦
      let d : Lender.PoolData = record { pool = p; object_data_map = [] } in
      ground (arith, find-emplace p.id p.id d c, new, erase-emplace p.id d c)
]

deregister_lender_shm_pool-register_lender_shm_pool :
    (s : SessionData) (id : ℕ) (p : Pool)
    → (register_lender_shm_pool s id p).1 ≡ true
    → (deregister_lender_shm_pool (register_lender_shm_pool s id p).0 id p).0 ≡ s
unfolding register_lender_shm_pool deregister_lender_shm_pool put_lender
deregister_lender_shm_pool-register_lender_shm_pool s id p h =
    elim (Option-cases (find id s.lender_collection_map)) [
      | inl out ↦ absurd (ground (arith, h, out))
      | inr (c, e) ↦
          let c' = (Lender.register_shm_pool c p).0 in
          let back = collection_undo c p (ground (arith, h, e)) in
          ground (
            arith,
            e,
            back,
            find-assign id id c' s.lender_collection_map,
            assign-assign id c c' s.lender_collection_map,
            assign-find id c s.lender_collection_map,
          )
    ]

-- A pool that could not be lent, for whatever reason, leaves the session as it was.
pub lend_shm_pool-false :
    (s : ShmSession) (id : ℕ) (p : Pool) (o : RequestOutcome)
    → (lend_shm_pool s id p o).1 ≡ false
    → (lend_shm_pool s id p o).0 ≡ s
unfolding lend_shm_pool request_pool
lend_shm_pool-false s id p o h =
    ground (arith, h, deregister_lender_shm_pool-register_lender_shm_pool s.session_data id p)

offer_arena-false :
    (s : ShmSession) (id : ℕ) (o : RequestOutcome)
    → (offer_arena s id o).1 ≡ false
    → (offer_arena s id o).0 ≡ s
unfolding offer_arena request_arena register_lender_collection deregister_lender_collection emplace
offer_arena-false s id o h = ground (
  arith,
  h,
  erase-emplace id tt s.shm_pool_listener_map,
  erase-emplace id [] s.session_data.lender_collection_map,
)

-- An arena that could not be lent, whether the session is disconnected, has the arena already or the borrower
-- cannot be asked or refuses, leaves the session and the arena as they were; the listener is a new one.
pub lend_arena-false :
    (s : ShmSession) (a : Arena) (id listener : ℕ) (o : RequestOutcome)
    (outcomes : ℕ → RequestOutcome)
    → find listener a.listeners ≡ none
    → (lend_arena s a id listener o outcomes).2 ≡ false
    → ((lend_arena s a id listener o outcomes).0 ≡ s)
      × ((lend_arena s a id listener o outcomes).1 ≡ a)
unfolding lend_arena add_shm_pool_listener emplace_ordered
lend_arena-false s a id listener o outcomes new h = ground (arith, h, new, offer_arena-false s id o)
