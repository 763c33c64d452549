-- ===== src/Session/Server.antt =====
-- session/shm/arena_lend/jemalloc/session_server.hpp (class `Session_server`): the app-scope arenas of a server, by
-- the names of its client applications, and the periodic cleanup of the server, with that of
-- session/detail/shm/arena_lend/jemalloc/client_session_impl.hpp. The name of an application is a number. Names of
-- pools are lists of characters; their decomposition, the reading of a process ID and the list of running
-- processes, of other repositories, are arguments.
pub mod Apps
pub mod Cleanup
pub mod LogIn
use ipc_shm_arena_lend.Base.{
  ℕ, ◌+◌, Bool, true, false, not, ◌&&◌, Option, none, some, List, [], ◌∷◌, ◌++◌, if◌then◌else◌,
  ◌==◌,
}
use ipc_shm_arena_lend.Base.Dict.{Dict, find, emplace, assign, is_some}
use ipc_shm_arena_lend.Arena.{Arena, Notice, add_shm_pool_listener}
use ipc_shm_arena_lend.Session.Setup.{Code, success, arena_creation_failed, new_arena}

-- `m_app_shm_by_name`: an entry without an arena is a null pointer.
abbrev pub Apps : Type 0
Apps = Dict (Option Arena)

-- `app_shm_ptr`
unfoldable pub app_shm : Apps → ℕ → Option Arena
app_shm m app = elim (find app m) [ none ↦ none | some a ↦ a ]

-- The access `m_app_shm_by_name[name]` makes an entry where there is none.
unfoldable pub init_app_shm_as_needed : Apps → ℕ → Bool → ℕ → Apps × Code
unfolding app_shm
init_app_shm_as_needed m app is_created listener =
    let (m', inserted) = emplace app none m in
    elim (app_shm m' app) [
      | some a ↦ (m', success)
      | none ↦
          if is_created
          then (assign app (some (add_shm_pool_listener new_arena listener).0) m', success)
          else (m', arena_creation_failed)
    ]

-- `starts_with`
unfoldable pub starts_with : List ℕ → List ℕ → Bool
starts_with [] s = true
starts_with (c ∷ p) [] = false
starts_with (c ∷ p) (d ∷ s) = (c == d) && starts_with p s

-- `remove_prefix`, by the length of another string.
unfoldable pub without : List ℕ → List ℕ → List ℕ
without [] s = s
without (c ∷ p) [] = []
without (c ∷ p) (d ∷ s) = without p s

-- The part before the first separator, if there is one.
unfoldable pub before : ℕ → List ℕ → Option (List ℕ)
before separator [] = none
before separator (c ∷ s) =
    let rest = before separator s in
    if c == separator then some [] else elim rest [ none ↦ none | some t ↦ some (c ∷ t) ]

-- What the cleanups read of the decomposition of a name: whether it is of a SHM pool and of this server
-- application, or of this client application, the server namespace, and the rest.
pub record PoolName : Type 0 where
  pub of_our_server : Bool
  pub of_our_client : Bool
  pub srv_namespace : List ℕ
  pub the_rest : List ℕ

-- The end of either test, for a process ID that was read or not: an ID of 0 is none.
unfoldable pub is_dead : (ℕ → Bool) → Option ℕ → Bool
is_dead running none = false
is_dead running (some pid) = not (pid == 0) && not (running pid)

-- The rest of the name of a pool of an arena: `init_shm` and `init_app_shm_as_needed`. The server's
-- arenas have no fragment, the client's have its process ID.
unfoldable pub pool_name_rest : List ℕ → ℕ → Option (List ℕ) → List ℕ → List ℕ
pool_name_rest prefix separator none id = (prefix ++ separator ∷ []) ++ id
pool_name_rest prefix separator (some fragment) id =
    (prefix ++ separator ∷ []) ++ (fragment ++ separator ∷ id)

module _ (prefix : List ℕ) (separator : ℕ) (read_pid : List ℕ → Option ℕ) (running : ℕ → Bool) where
  -- Whether the cleanup of the server removes a pool of this name, if it decomposes.
  unfoldable pub server_removes : Option PoolName → Bool
  unfolding starts_with without before is_dead
  server_removes none = false
  server_removes (some n) =
      if not (n.of_our_server && starts_with (prefix ++ separator ∷ []) n.the_rest)
      then false
      else if is_some (before separator (without (prefix ++ separator ∷ []) n.the_rest))
      then false
      else is_dead running (read_pid n.srv_namespace)

  -- Whether the cleanup of the client does.
  unfoldable pub client_removes : Option PoolName → Bool
  unfolding starts_with without before is_dead
  client_removes none = false
  client_removes (some n) =
      if not (n.of_our_client && starts_with (prefix ++ separator ∷ []) n.the_rest)
      then false
      else elim (before separator (without (prefix ++ separator ∷ []) n.the_rest)) [
        | none ↦ false
        | some word ↦ is_dead running (read_pid word)
      ]
