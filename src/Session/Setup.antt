-- ===== src/Session/Setup.antt =====
-- session/detail/shm/arena_lend/jemalloc/session_impl.hpp (class template `Session_impl`), and the completions of the
-- connect of client_session_impl.hpp and of the log-in of server_session_impl.hpp: how a session of the
-- application sets its arena and its `Shm_session` up. The session and channel classes, of another
-- repository, are arguments: how their calls end. The collection ID and the listener that
-- `lend_arena` makes for an arena are arguments too.
pub mod Whole
pub mod Members
pub mod Connect
use ipc_shm_arena_lend.Base.{
  ℕ, Bool, true, false, not, Option, none, some, List, [], ◌∷◌, ◌++◌, if◌then◌else◌,
}
use ipc_shm_arena_lend.Base.Dict.{find, is_some}
use ipc_shm_arena_lend.Arena.{Arena, Notice, add_shm_pool_listener, remove_shm_pool_listener}
use ipc_shm_arena_lend.Session.Protocol.{ShmSession, RequestOutcome, Action, lend_arena}
use ipc_shm_arena_lend.Session.Protocol.Objects.{fresh}

-- The error codes; the last is one of another repository.
pub data Code : Type 0 where
  success arena_creation_failed arena_lend_failed unexpected_transport_error : Code
  cannot_proceed : Code
  other : ℕ → Code

-- How an arena is lent.
pub record Lending : Type 0 where
  pub collection_id : ℕ
  pub listener : ℕ
  pub request : RequestOutcome
  pub pool_requests : ℕ → RequestOutcome

-- The members of `Session_impl`.
pub record SessionImpl : Type 0 where
  pub session_shm : Option Arena
  pub has_channel : Bool
  pub shm_session : Option ShmSession

abbrev pub nothing_set : SessionImpl
nothing_set = record { session_shm = none; has_channel = false; shm_session = none }

abbrev pub new_arena : Arena
new_arena = record { shm_pools = []; listeners = [] }

-- The destructor of `Shm_session`, as far as an arena is concerned: its listener leaves it.
unfoldable pub leave : ShmSession → Lending → Arena → Arena
leave s l a =
    if is_some (find l.collection_id s.shm_pool_listener_map)
    then (remove_shm_pool_listener a l.listener).0
    else a

-- The end of `init_shm`: the app-scope arena, if there is one. The result has the arena.
unfoldable pub lend_app_shm :
    ShmSession → Arena → Option (Arena × Lending) → SessionImpl × Option Arena × Code × List Action
unfolding leave
lend_app_shm s a none =
    (record { session_shm = some a; has_channel = true; shm_session = some s }, none, success, [])
lend_app_shm s a (some (b, l)) =
    let (s', b', lent, actions) =
      lend_arena s b l.collection_id l.listener l.request l.pool_requests in
    if lent
    then (
      record { session_shm = some a; has_channel = true; shm_session = some s' },
      some b',
      success,
      actions,
    )
    else (nothing_set, some (leave s' l b'), arena_lend_failed, actions)

abbrev pub arena_of : Option (Arena × Lending) → Option Arena
arena_of none = none
arena_of (some (b, l)) = some b

-- `init_shm` of a session with nothing set, given whether the creation of the arena succeeds.
unfoldable pub init_shm :
    Bool → Lending → Option (Arena × Lending) → SessionImpl × Option Arena × Code × List Action
unfolding lend_app_shm fresh
init_shm is_created own app =
    let (s, a, lent, actions) =
      lend_arena fresh new_arena own.collection_id own.listener own.request own.pool_requests in
    let (i, b, code, more) = lend_app_shm s a app in
    if not is_created
    then (nothing_set, arena_of app, arena_creation_failed, [])
    else if lent
    then (i, b, code, actions ++ more)
    else (nothing_set, arena_of app, arena_lend_failed, actions)

-- `reset_shm`: the arena that stays, if there is one, is left.
unfoldable pub reset_shm : SessionImpl → Lending → Option Arena → SessionImpl × Option Arena
unfolding leave
reset_shm i l none = (nothing_set, none)
reset_shm i l (some a) =
    (nothing_set, elim i.shm_session [ none ↦ some a | some s ↦ some (leave s l a) ])

-- The session's arena with one more listener, that of the repository.
unfoldable pub join_session_shm : SessionImpl → ℕ → SessionImpl
join_session_shm i listener = elim i.session_shm [
  | none ↦ i
  | some a ↦ record i { session_shm = some (add_shm_pool_listener a listener).0 }
]

abbrev pub is_success : Code → Bool
is_success success = true
is_success _ = false

-- How a request on the master channel ends: an error, or no error and no response, or well.
pub data MasterOutcome : Type 0 where
  fails : ℕ → MasterOutcome
  goes_wrong goes_well : MasterOutcome

-- The steps of `async_accept_log_in` after its own log-in, given the error of the socket pair.
unfoldable pub set_up_log_in :
    Option ℕ
    → MasterOutcome
    → Bool
    → Lending
    → Arena × Lending
    → SessionImpl × Option Arena × Code × List Action
unfolding init_shm
set_up_log_in (some e) o is_created own (b, l) = (nothing_set, some b, other e, [])
set_up_log_in none (fails e) is_created own (b, l) = (nothing_set, some b, other e, [])
set_up_log_in none goes_wrong is_created own (b, l) =
    (nothing_set, some b, unexpected_transport_error, [])
set_up_log_in none goes_well is_created own (b, l) = init_shm is_created own (some (b, l))

-- The completion of `async_accept_log_in` of the server, given the error of the log-in itself. The
-- error of a log-in that a shutdown aborts is not among these: the completion then returns at once
-- and tells nobody. The result has the app-scope arena, and whether `m_app_shm` stays set.
unfoldable pub complete_log_in :
    Option ℕ
    → Option ℕ
    → MasterOutcome
    → Bool
    → Lending
    → Arena × Lending
    → ℕ
    → SessionImpl × Option Arena × Bool × Code × List Action
unfolding set_up_log_in join_session_shm reset_shm
complete_log_in (some e) paired o is_created own (b, l) listener =
    let (i, b') = reset_shm nothing_set l (some b) in (i, b', false, other e, [])
complete_log_in none paired o is_created own (b, l) listener =
    let (i, b', code, actions) = set_up_log_in paired o is_created own (b, l) in
    let (i', b'') = reset_shm i l b' in
    if is_success code
    then (join_session_shm i listener, b', true, code, actions)
    else (i', b'', false, code, actions)

-- What the handler of the client's set-up message finds: the session hosed already, no handle, or
-- a handle and the outcome of the acknowledgment.
pub data SetupMessage : Type 0 where
  hosed_before no_handle : SetupMessage
  with_handle : MasterOutcome → SetupMessage

-- The handler. The result has the code of the completion of the connect, if it completes.
unfoldable pub complete_connect :
    SetupMessage → Bool → Lending → ℕ → SessionImpl × Option Code × List Action
unfolding init_shm join_session_shm
complete_connect hosed_before is_created own listener = (nothing_set, none, [])
complete_connect no_handle is_created own listener = (nothing_set, some cannot_proceed, [])
complete_connect (with_handle (fails e)) is_created own listener = (nothing_set, some (other e), [])
complete_connect (with_handle goes_wrong) is_created own listener = (nothing_set, none, [])
complete_connect (with_handle goes_well) is_created own listener =
    let (i, b, code, actions) = init_shm is_created own none in
    if is_success code
    then (join_session_shm i listener, some code, actions)
    else (i, some code, actions)
