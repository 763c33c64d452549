-- ===== src/Session/Server/Apps.antt =====
-- The app-scope arenas of session/shm/arena_lend/jemalloc/session_server.hpp.
use ipc_shm_arena_lend.Base.{ℕ, ◌≡◌, Bool, none, some, arith, if◌then◌else◌, ◌==◌}
use ipc_shm_arena_lend.Base.Dict.{emplace, is_some, find-emplace, find-assign}
use ipc_shm_arena_lend.Arena.{add_shm_pool_listener}
use ipc_shm_arena_lend.Session.Setup.{new_arena, is_success}
use ipc_shm_arena_lend.Session.Server.{Apps, app_shm, init_app_shm_as_needed}

-- `init_app_shm_as_needed` succeeds exactly where the application has an arena afterwards. It keeps an arena
-- that is there, even if none can be created any more, gives a new one the repository's listener, and
-- changes no arena of another application.
pub init_app_shm_as_needed_lem :
    (m : Apps) (app other : ℕ) (is_created : Bool) (listener : ℕ)
    → let (m', code) = init_app_shm_as_needed m app is_created listener in
      (is_success code ≡ is_some (app_shm m' app))
      × (app_shm m' other ≡ (
          if app == other
          then if is_some (app_shm m app)
            then app_shm m app
            else if is_created
            then some (add_shm_pool_listener new_arena listener).0
            else none
          else app_shm m other))
unfolding init_app_shm_as_needed app_shm
init_app_shm_as_needed_lem m app other is_created listener =
    let m' = (emplace app none m).0 in
    let a = some (add_shm_pool_listener new_arena listener).0 in
    (
      ground (arith, find-emplace app app none m, find-assign app app a m'),
      ground (
        arith,
        find-emplace app app none m,
        find-emplace app other none m,
        find-assign app other a m',
      ),
    )
