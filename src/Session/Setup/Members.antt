-- ===== src/Session/Setup/Members.antt =====
-- What a log-in sets in session/detail/shm/arena_lend/jemalloc/session_impl.hpp and server_session_impl.hpp.
use ipc_shm_arena_lend.Base.{
  ℕ, ◌≡◌, refl, Bool, false, Option, none, some, arith, Option-cases, Bool-cases, inl, inr,
}
use ipc_shm_arena_lend.Base.Dict.{is_some}
use ipc_shm_arena_lend.Arena.{Arena}
use ipc_shm_arena_lend.Session.Setup.{
  Lending, SessionImpl, lend_app_shm, init_shm, is_success, set_up_log_in, complete_log_in,
  reset_shm, join_session_shm, MasterOutcome, fails, goes_wrong, goes_well,
}

-- Whether the members of a session are set.
abbrev pub IsWhole : SessionImpl → Bool → Type 0
IsWhole i b = (is_some i.session_shm ≡ b) × (i.has_channel ≡ b) × (is_some i.shm_session ≡ b)

pub init_shm-IsWhole :
    (is_created : Bool) (own : Lending) (app : Option (Arena × Lending))
    → let (i, b, code, actions) = init_shm is_created own app in IsWhole i (is_success code)
unfolding init_shm lend_app_shm
init_shm-IsWhole is_created own none = (ground arith, ground arith, ground arith)
init_shm-IsWhole is_created own (some (b, l)) = (ground arith, ground arith, ground arith)

pub join_session_shm-IsWhole :
    (i : SessionImpl) (b : Bool) (listener : ℕ)
    → IsWhole i b
    → IsWhole (join_session_shm i listener) b
unfolding join_session_shm
join_session_shm-IsWhole i b listener (x, y, z) = elim (Option-cases i.session_shm) [
  | inl e ↦ (ground (arith, e, x), ground (arith, e, y), ground (arith, e, z))
  | inr (a, e) ↦ (ground (arith, e, x), ground (arith, e, y), ground (arith, e, z))
]

reset_shm-IsWhole :
    (i : SessionImpl) (l : Lending) (a : Option Arena) → IsWhole (reset_shm i l a).0 false
unfolding reset_shm
reset_shm-IsWhole i l none = (refl, refl, refl)
reset_shm-IsWhole i l (some a) = (refl, refl, refl)

set_up_log_in-IsWhole :
    (paired : Option ℕ) (o : MasterOutcome) (is_created : Bool) (own : Lending)
    (app : Arena × Lending)
    → let (i, b', code, actions) = set_up_log_in paired o is_created own app in
      IsWhole i (is_success code)
unfolding set_up_log_in
set_up_log_in-IsWhole (some e) o is_created own (b, l) = (refl, refl, refl)
set_up_log_in-IsWhole none (fails e) is_created own (b, l) = (refl, refl, refl)
set_up_log_in-IsWhole none goes_wrong is_created own (b, l) = (refl, refl, refl)
set_up_log_in-IsWhole none goes_well is_created own (b, l) =
    init_shm-IsWhole is_created own (some (b, l))

-- The log-in of a session succeeds exactly if afterwards it has its arena, its channel and its
-- `Shm_session`, and exactly if it keeps the app-scope arena; otherwise it has none of them.
pub complete_log_in-IsWhole :
    (e paired : Option ℕ) (o : MasterOutcome) (is_created : Bool) (own : Lending)
    (app : Arena × Lending) (listener : ℕ)
    → let (i, b', kept, code, actions) = complete_log_in e paired o is_created own app listener in
      IsWhole i (is_success code) × (kept ≡ is_success code)
unfolding complete_log_in
complete_log_in-IsWhole (some e) paired o is_created own (b, l) listener =
    ((refl, refl, refl), refl)
complete_log_in-IsWhole none paired o is_created own (b, l) listener =
    let law = set_up_log_in-IsWhole paired o is_created own (b, l) in
    let (x, y, z) = law in
    let set_up = set_up_log_in paired o is_created own (b, l) in
    let (x', y', z') = join_session_shm-IsWhole set_up.0 (is_success set_up.2) listener law in
    let (x'', y'', z'') = reset_shm-IsWhole set_up.0 l set_up.1 in
    elim (Bool-cases (is_success set_up.2)) [
      | inl went ↦ (
        (ground (arith, went, x'), ground (arith, went, y'), ground (arith, went, z')),
        ground (arith, went),
      )
      | inr refused ↦ (
        (ground (arith, refused, x''), ground (arith, refused, y''), ground (arith, refused, z'')),
        ground (arith, refused),
      )
    ]
