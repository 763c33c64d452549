-- ===== src/Session/Protocol/Dispatch.antt =====
-- What reaches a session from outside, in session/standalone/shm/arena_lend/jemalloc/shm_session.cpp: the
-- handlers of `register_expected_messages`, with the flag of the response where there is one
-- (`send_response`), and the listener of an arena (`Shm_pool_listener_impl`).
pub mod Agreement
use ipc_shm_arena_lend.Base.{ℕ, Bool, Option, none, some, List, [], if◌then◌else◌, ◌==◌}
use ipc_shm_arena_lend.Pool.{Pool}
use ipc_shm_arena_lend.Arena.{Notice, initial, added, removed}
use ipc_shm_arena_lend.Repository.Borrower.{UseCounted}
use ipc_shm_arena_lend.Collection.{Effect}
use ipc_shm_arena_lend.Collection.Borrower.{OpenOutcome}
use ipc_shm_arena_lend.Session.Registry.{Registry, ReleaseOutcome}
use ipc_shm_arena_lend.Session.Data.{SessionData, deregister_lender_object}
use ipc_shm_arena_lend.Session.Protocol.{
  ShmSession, Message, lends_arena, lends_pool, removes_pool, returns_object, Action, SendOutcome,
  RequestOutcome, lend_shm_pool, lend_shm_pools, remove_lender_shm_pool,
}
use ipc_shm_arena_lend.Session.Protocol.Borrow.{
  receive_arena, receive_shm_pool, receive_shm_pool_removal,
}

module _ {C : Type 0} ⦃u : UseCounted C⦄ where
  unfoldable pub receive_message :
      Registry C
      → SessionData
      → ℕ
      → OpenOutcome
      → ReleaseOutcome
      → Message
      → Registry C × SessionData × Option Bool × List Effect
  receive_message r d owner opening o (lends_arena id) =
      let (r', d', success) = receive_arena r d owner id in (r', d', some success, [])
  receive_message r d owner opening o (lends_pool id shm_pool_id name size) =
      let (r', d', success, effects) =
        receive_shm_pool r d owner id shm_pool_id name size opening o in
      (r', d', some success, effects)
  receive_message r d owner opening o (removes_pool id shm_pool_id) =
      let (r', d', success, effects) = receive_shm_pool_removal r d owner id shm_pool_id o in
      (r', d', none, effects)
  receive_message r d owner opening o (returns_object id shm_pool_id offset) =
      let (d', object) = deregister_lender_object d id shm_pool_id offset in (r, d', none, [])

-- The listener of an arena with this collection ID, at the address `listener`.
unfoldable pub notify_session :
    ℕ → ℕ → (ℕ → RequestOutcome) → SendOutcome → ShmSession → Notice → ShmSession × List Action
notify_session id listener outcomes o s (initial l ps) =
    let (s', lent, actions) = lend_shm_pools s id ps outcomes in
    if l == listener then (s', actions) else (s, [])
notify_session id listener outcomes o s (added l p) =
    let (s', lent, actions) = lend_shm_pool s id p (outcomes p.id) in
    if l == listener then (s', actions) else (s, [])
notify_session id listener outcomes o s (Notice.removed l p) =
    let (s', done, actions) = remove_lender_shm_pool s id p o in
    if l == listener then (s', actions) else (s, [])
