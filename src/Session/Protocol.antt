-- ===== src/Session/Protocol.antt =====
-- session/standalone/shm/arena_lend/jemalloc/shm_session.hpp and .cpp (class `Shm_session`): the side of a
-- session that lends. The channel, of another repository, is an argument: how a call on it ends. An arena
-- is known by its collection ID, and the atomic flag and the mutexes make each operation one step.
pub mod Handle
pub mod Undo
pub mod Borrow
pub mod Dispatch
pub mod Objects
use ipc_shm_arena_lend.Base.{
  ℕ, Bool, true, false, not, ◌&&◌, Option, none, some, List, [], ◌∷◌, ◌++◌, if◌then◌else◌, String,
}
use ipc_shm_arena_lend.Base.Dict.{Dict, find, erase, emplace, is_some}
use ipc_shm_arena_lend.Pool.{Pool}
use ipc_shm_arena_lend.Pool.Divisible.{DivisiblePool}
use ipc_shm_arena_lend.Arena.{Arena, Notice, add_shm_pool_listener}
use ipc_shm_arena_lend.Session.Data.{
  SessionData, register_lender_collection, deregister_lender_collection, register_lender_shm_pool,
  deregister_lender_shm_pool, register_lender_object, deregister_lender_object,
  deregister_borrower_object,
}

-- The messages: of the lender, and the return of an object by the borrower.
pub data Message : Type 0 where
  lends_arena : ℕ → Message
  lends_pool : ℕ → ℕ → String → ℕ → Message
  removes_pool : ℕ → ℕ → Message
  returns_object : ℕ → ℕ → ℕ → Message

-- What the session does on the channel; the last is the call of its error handler.
pub data Action : Type 0 where
  sends : Message → Action
  requests : Message → Action
  reports_error : Action

-- How `send` ends: the channel was hosed already, or it fails now, or the message goes out.
pub data SendOutcome : Type 0 where
  hosed failed sent : SendOutcome

-- How `sync_request` ends: hosed, an error that includes the timeout, or a response with its flag.
pub data RequestOutcome : Type 0 where
  unsent errored : RequestOutcome
  responded : Bool → RequestOutcome

-- `send_message`
unfoldable pub send_message : SendOutcome → Message → Bool × List Action
send_message hosed m = (false, [])
send_message failed m = (false, reports_error ∷ [])
send_message sent m = (true, sends m ∷ [])

-- `send_sync_request`
unfoldable pub send_sync_request : RequestOutcome → Message → Bool × List Action
send_sync_request unsent m = (false, [])
send_sync_request errored m = (false, requests m ∷ reports_error ∷ [])
send_sync_request (responded success) m = (success, requests m ∷ [])

-- The members that the operations change; a listener stands under the collection ID of its arena.
pub record ShmSession : Type 0 where
  pub connected : Bool
  pub session_data : SessionData
  pub shm_pool_listener_map : Dict (Unit {0})

unfoldable pub set_disconnected : ShmSession → ShmSession
set_disconnected s = record s { connected = false }

-- The part of `lend_shm_pool` after the registration.
unfoldable pub request_pool :
    ShmSession → ℕ → Pool → RequestOutcome → ShmSession × Bool × List Action
unfolding send_sync_request
request_pool s id p o =
    let (success, actions) = send_sync_request o (lends_pool id p.id p.name p.size) in
    let (undone, was_empty) = deregister_lender_shm_pool s.session_data id p in
    if success then (s, true, actions) else (record s { session_data = undone }, false, actions)

unfoldable pub lend_shm_pool :
    ShmSession → ℕ → Pool → RequestOutcome → ShmSession × Bool × List Action
unfolding request_pool
lend_shm_pool s id p o =
    if not s.connected
    then (s, false, [])
    else let (d, registered) = register_lender_shm_pool s.session_data id p in
      if registered then request_pool (record s { session_data = d }) id p o else (s, false, [])

-- Every pool is tried; the requests end as `outcomes` says for the pool's ID.
unfoldable pub lend_shm_pools :
    ShmSession → ℕ → List Pool → (ℕ → RequestOutcome) → ShmSession × Bool × List Action
unfolding lend_shm_pool
lend_shm_pools s id [] outcomes = (s, true, [])
lend_shm_pools s id (p ∷ ps) outcomes =
    let (s', lent, actions) = lend_shm_pool s id p (outcomes p.id) in
    let (s'', result, more) = lend_shm_pools s' id ps outcomes in
    (s'', lent && result, actions ++ more)

-- The part of `lend_arena` after the two registrations, up to the response.
unfoldable pub request_arena : ShmSession → ℕ → RequestOutcome → ShmSession × Bool × List Action
unfolding send_sync_request
request_arena s id o =
    let (success, actions) = send_sync_request o (lends_arena id) in
    let (undone, found) = deregister_lender_collection s.session_data id in
    if success then (s, true, actions) else (
      record s { session_data = undone; shm_pool_listener_map = erase id s.shm_pool_listener_map },
      false,
      actions,
    )

-- `lend_arena` up to the point where the listener joins the arena.
unfoldable pub offer_arena : ShmSession → ℕ → RequestOutcome → ShmSession × Bool × List Action
unfolding request_arena
offer_arena s id o =
    if not s.connected
    then (s, false, [])
    else let (listeners, is_new) = emplace id tt s.shm_pool_listener_map in
      let (d, registered) = register_lender_collection s.session_data id in
      if not is_new
      then (s, false, [])
      else if registered
      then request_arena (record s { session_data = d; shm_pool_listener_map = listeners }) id o
      else (record s { shm_pool_listener_map = erase id listeners }, false, [])

-- `lend_arena`: the listener at this address joins the arena, and through it the arena's pools are lent
-- at once. With NDEBUG, a listener that the arena has already ends in failure.
unfoldable pub lend_arena :
    ShmSession
    → Arena
    → ℕ
    → ℕ
    → RequestOutcome
    → (ℕ → RequestOutcome)
    → ShmSession × Arena × Bool × List Action
lend_arena s a id listener o outcomes =
    let (s', offered, actions) = offer_arena s id o in
    let (a', joined, notices) = add_shm_pool_listener a listener in
    let (s'', result, more) = lend_shm_pools s' id (initial_pools notices) outcomes in
    if not offered
    then (s', a, false, actions)
    else if joined
    then (s'', a', true, actions ++ more)
    else (s', a, false, actions)
  where
    initial_pools : List Notice → List Pool
    initial_pools [] = []
    initial_pools (Notice.initial l ps ∷ ns) = ps
    initial_pools (_ ∷ ns) = []

-- The removal of a pool is told to the borrower only if the pool was empty.
unfoldable pub remove_lender_shm_pool :
    ShmSession → ℕ → Pool → SendOutcome → ShmSession × Bool × List Action
unfolding send_message
remove_lender_shm_pool s id p o =
    let (d, removed) = deregister_lender_shm_pool s.session_data id p in
    elim removed [
      | none ↦ (s, false, [])
      | some was_empty ↦ (
        record s { session_data = d },
        true,
        if s.connected && was_empty then (send_message o (removes_pool id p.id)).1 else [],
      )
    ]

-- `lend_object_impl`, up to the handle: the collection ID, the pool ID and the offset, or an empty
-- blob.
unfoldable pub lend_object :
    Dict DivisiblePool → ShmSession → ℕ → ℕ → ShmSession × Option (ℕ × ℕ × ℕ)
lend_object pools s id object =
    let (d, registered) = register_lender_object pools s.session_data id object in
    if not s.connected then (s, none) else elim registered [
      | none ↦ (record s { session_data = d }, none)
      | some (shm_pool_id, offset) ↦ (record s { session_data = d }, some (id, shm_pool_id, offset))
    ]

-- The borrower's return of an object, from the callback of `borrow_object`.
unfoldable pub return_object :
    ShmSession → ℕ → ℕ → ℕ → SendOutcome → ShmSession × Bool × List Action
unfolding send_message
return_object s id shm_pool_id offset o =
    let (d, found) = deregister_borrower_object s.session_data id shm_pool_id offset in
    if found
    then (
      record s { session_data = d },
      true,
      if s.connected then (send_message o (returns_object id shm_pool_id offset)).1 else [],
    )
    else (s, false, [])

-- The lender's reaction to the return.
unfoldable pub receive_object_return : ShmSession → ℕ → ℕ → ℕ → ShmSession × Bool
receive_object_return s id shm_pool_id offset =
    let (d, object) = deregister_lender_object s.session_data id shm_pool_id offset in
    (record s { session_data = d }, is_some object)
