-- ===== src/Session/Server/LogIn.antt =====
-- The log-in of a client at a server in session/detail/shm/arena_lend/jemalloc/server_session_impl.hpp, from the set-up
-- before its response, which finds the app-scope arena, to its completion. The log-in of the base class, of another
-- repository, is an argument: whether and where it fails.
use ipc_shm_arena_lend.Base.{
  ℕ, ◌≡◌, refl, sym, Bool, true, false, Option, none, some, List, [], if◌then◌else◌, arith, ◌==◌,
  Option-cases, inl, inr,
}
use ipc_shm_arena_lend.Base.Dict.{assign, is_some, find-assign}
use ipc_shm_arena_lend.Arena.{Arena}
use ipc_shm_arena_lend.Session.Protocol.{Action}
use ipc_shm_arena_lend.Session.Setup.{
  Code, other, is_success, Lending, SessionImpl, nothing_set, MasterOutcome, fails, goes_wrong,
  goes_well, complete_log_in, set_up_log_in, reset_shm, init_shm, lend_app_shm,
}
use ipc_shm_arena_lend.Session.Setup.Members.{IsWhole, complete_log_in-IsWhole}
use ipc_shm_arena_lend.Session.Server.{Apps, app_shm, init_app_shm_as_needed}
use ipc_shm_arena_lend.Session.Server.Apps.{init_app_shm_as_needed_lem}

-- The log-in of the base class: an error before the set-up, an error after it, or none.
pub data BaseLogIn : Type 0 where
  fails_early fails_late : ℕ → BaseLogIn
  logs_in : BaseLogIn

-- The arenas of the server, the members of the session with `m_app_shm`, and the result.
pub record LogIn : Type 0 where
  pub apps : Apps
  pub session : SessionImpl
  pub app_arena : Option Arena
  pub code : Code
  pub actions : List Action

-- The set-up before the response: the arenas, `m_app_shm`, and the code.
unfoldable pub real_pre_rsp_setup_func : Apps → ℕ → Bool → ℕ → Apps × Option Arena × Code
real_pre_rsp_setup_func m app is_created listener =
    let (m', code) = init_app_shm_as_needed m app is_created listener in
    (m', if is_success code then app_shm m' app else none, code)

-- The arena that the map leads to is changed in place.
unfoldable pub write_back : Apps → ℕ → Option Arena → Apps
write_back m app none = m
write_back m app (some a) = assign app (some a) m

-- The log-in from the set-up on, given the later error of the base class. None is a failure of the assertion
-- that the set-up found an arena.
unfoldable pub continue_log_in :
    Apps
    → ℕ
    → Bool
    → ℕ
    → Option ℕ
    → Option ℕ
    → MasterOutcome
    → Bool
    → Lending
    → Lending
    → Option LogIn
unfolding real_pre_rsp_setup_func write_back
continue_log_in m app app_created listener error paired o is_created own l =
    let (m', a, code) = real_pre_rsp_setup_func m app app_created listener in
    if is_success code
    then (elim a [
      | none ↦ none
      | some b ↦
          let (i, b', kept, code', actions) =
            complete_log_in error paired o is_created own (b, l) listener in
          some (record {
            apps = write_back m' app b';
            session = i;
            app_arena = if kept then b' else none;
            code = code';
            actions = actions;
          })
    ])
    else some
        (record { apps = m'; session = nothing_set; app_arena = none; code = code; actions = [] })

unfoldable pub async_accept_log_in :
    Apps
    → ℕ
    → Bool
    → ℕ
    → BaseLogIn
    → Option ℕ
    → MasterOutcome
    → Bool
    → Lending
    → Lending
    → Option LogIn
unfolding continue_log_in
async_accept_log_in m app app_created listener (fails_early e) paired o is_created own l =
    some
      (record { apps = m; session = nothing_set; app_arena = none; code = other e; actions = [] })
async_accept_log_in m app app_created listener (fails_late e) paired o is_created own l =
    continue_log_in m app app_created listener (some e) paired o is_created own l
async_accept_log_in m app app_created listener logs_in paired o is_created own l =
    continue_log_in m app app_created listener none paired o is_created own l

set_up_log_in-some :
    (paired : Option ℕ) (o : MasterOutcome) (is_created : Bool) (own : Lending) (b : Arena)
    (l : Lending)
    → is_some (set_up_log_in paired o is_created own (b, l)).1 ≡ true
unfolding set_up_log_in init_shm lend_app_shm
set_up_log_in-some (some e) o is_created own b l = refl
set_up_log_in-some none (fails e) is_created own b l = refl
set_up_log_in-some none goes_wrong is_created own b l = refl
set_up_log_in-some none goes_well is_created own b l = ground arith

reset_shm-is_some :
    (i : SessionImpl) (l : Lending) (a : Option Arena) → is_some (reset_shm i l a).1 ≡ is_some a
unfolding reset_shm
reset_shm-is_some i l none = refl
reset_shm-is_some i l (some a) = ground arith

-- The arena of the application is there at the end of the completion, changed or not.
complete_log_in-some :
    (error paired : Option ℕ) (o : MasterOutcome) (is_created : Bool) (own : Lending) (b : Arena)
    (l : Lending) (listener : ℕ)
    → is_some (complete_log_in error paired o is_created own (b, l) listener).1 ≡ true
unfolding complete_log_in
complete_log_in-some (some e) paired o is_created own b l listener =
    reset_shm-is_some nothing_set l (some b)
complete_log_in-some none paired o is_created own b l listener =
    let r = set_up_log_in paired o is_created own (b, l) in
    ground (arith, set_up_log_in-some paired o is_created own b l, reset_shm-is_some r.0 l r.1)

app_shm-write_back :
    (m : Apps) (app k : ℕ) (a : Option Arena)
    → is_some a ≡ true
    → is_some (app_shm m app) ≡ true
    → app_shm (write_back m app a) k ≡ (if app == k then a else app_shm m k)
unfolding app_shm write_back
app_shm-write_back m app k none h g = cc
app_shm-write_back m app k (some a) h g = ground (arith, find-assign app k (some a) m)

-- What a log-in leaves, in the arena of any application `k`.
pub record Leaves (m : Apps) (app k : ℕ) (r : Option LogIn) : Type 0 where
  pub result : LogIn
  pub no_abort : r ≡ some result
  pub whole : IsWhole result.session (is_success result.code)
  pub has_arena : is_some result.app_arena ≡ is_success result.code
  pub same_arena :
      result.app_arena ≡ (if is_success result.code then app_shm result.apps app else none)
  pub others : app_shm result.apps k ≡ (if app == k then app_shm result.apps app else app_shm m k)

continue_log_in-Leaves :
    (m : Apps) (app k : ℕ) (app_created : Bool) (listener : ℕ) (error paired : Option ℕ)
    (o : MasterOutcome) (is_created : Bool) (own l : Lending)
    → Leaves m app k (continue_log_in m app app_created listener error paired o is_created own l)
unfolding continue_log_in real_pre_rsp_setup_func
continue_log_in-Leaves m app k app_created listener error paired o is_created own l =
    let r = init_app_shm_as_needed m app app_created listener in
    let law = init_app_shm_as_needed_lem m app k app_created listener in
    elim (Option-cases (app_shm r.0 app)) [
      | inl absent ↦
          let refused : is_success r.1 ≡ false = ground (arith, law.0, absent) in
          record {
            result = record {
              apps = r.0;
              session = nothing_set;
              app_arena = none;
              code = r.1;
              actions = [];
            };
            no_abort = ground (arith, refused);
            whole = (sym refused, sym refused, sym refused);
            has_arena = ground (arith, refused);
            same_arena = ground (arith, refused);
            others = ground (arith, law.1, absent);
          }
      | inr (b, here) ↦
          let done = complete_log_in error paired o is_created own (b, l) listener in
          let (whole, keeps) =
            complete_log_in-IsWhole error paired o is_created own (b, l) listener in
          let there = complete_log_in-some error paired o is_created own b l listener in
          let present : is_some (app_shm r.0 app) ≡ true = ground (arith, here) in
          let back = λ (j : ℕ). app_shm-write_back r.0 app j done.1 there present in
          record {
            result = record {
              apps = write_back r.0 app done.1;
              session = done.0;
              app_arena = if done.2 then done.1 else none;
              code = done.3;
              actions = done.4;
            };
            no_abort = ground (arith, law.0, here);
            whole = whole;
            has_arena = ground (arith, keeps, there);
            same_arena = ground (arith, keeps, back app);
            others = ground (arith, back k, back app, law.1);
          }
    ]

-- However a log-in ends, its assertion holds: where the set-up succeeded it has found an arena. The log-in succeeds
-- exactly if the session then has its arena, its channel and its `Shm_session`, and exactly if it has the
-- app-scope arena, which is the one that the server has for the application; otherwise it has none of
-- them. The arenas of other applications stay as they are.
pub async_accept_log_in-Leaves :
    (m : Apps) (app k : ℕ) (app_created : Bool) (listener : ℕ) (base : BaseLogIn)
    (paired : Option ℕ) (o : MasterOutcome) (is_created : Bool) (own l : Lending)
    → Leaves m app k (async_accept_log_in m app app_created listener base paired o is_created own l)
unfolding async_accept_log_in
async_accept_log_in-Leaves m app k app_created listener (fails_early e) paired o is_created own l =
    record {
      result = record {
        apps = m;
        session = nothing_set;
        app_arena = none;
        code = other e;
        actions = [];
      };
      no_abort = refl;
      whole = (refl, refl, refl);
      has_arena = refl;
      same_arena = refl;
      others = ground arith;
    }
async_accept_log_in-Leaves m app k app_created listener (fails_late e) paired o is_created own l =
    continue_log_in-Leaves m app k app_created listener (some e) paired o is_created own l
async_accept_log_in-Leaves m app k app_created listener logs_in paired o is_created own l =
    continue_log_in-Leaves m app k app_created listener none paired o is_created own l
