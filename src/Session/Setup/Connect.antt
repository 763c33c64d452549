-- ===== src/Session/Setup/Connect.antt =====
-- The connect of a client in session/detail/shm/arena_lend/jemalloc/client_session_impl.hpp, from the call to its
-- completion, with the targets of its results. The connect of the base class, of another repository, is a
-- function: its error, and what it does with the targets that it is given. The connect may also
-- stay open, which is the code none.
use ipc_shm_arena_lend.Base.{
  ℕ, ◌≡◌, refl, Bool, false, Option, none, some, List, [], ◌∷◌, if◌then◌else◌, Bool-cases,
  Option-cases, inl, inr,
}
use ipc_shm_arena_lend.Base.Dict.{is_some}
use ipc_shm_arena_lend.Session.Protocol.{Action}
use ipc_shm_arena_lend.Session.Setup.{
  Code, other, is_success, Lending, SessionImpl, nothing_set, init_shm, fails, goes_wrong,
  goes_well, SetupMessage, hosed_before, no_handle, with_handle, complete_connect,
}
use ipc_shm_arena_lend.Session.Setup.Members.{IsWhole, init_shm-IsWhole, join_session_shm-IsWhole}

-- What the arguments point to: the channels of the client, the metadata of the server and the channels of
-- the server. None is a null pointer. A channel and a metadata reader are numbers, 0 where they are empty.
pub record Targets : Type 0 where
  pub channels_by_cli_req : Option (List ℕ)
  pub mdt_from_srv : Option ℕ
  pub channels_by_srv_req : Option (List ℕ)

unfoldable pub empty_channels : List ℕ → List ℕ
empty_channels [] = []
empty_channels (c ∷ cs) = 0 ∷ empty_channels cs

-- The temporary targets: null where the argument is.
unfoldable pub temporary : Targets → Targets
unfolding empty_channels
temporary t = record {
  channels_by_cli_req = elim t.channels_by_cli_req [
    | none ↦ none
    | some cs ↦ some (empty_channels cs)
  ];
  mdt_from_srv = elim t.mdt_from_srv [ none ↦ none | some m ↦ some 0 ];
  channels_by_srv_req = elim t.channels_by_srv_req [ none ↦ none | some cs ↦ some [] ];
}

-- The moves at the end, each if the argument is not null.
unfoldable pub hand_over : Targets → Targets → Targets
hand_over t temp = record {
  channels_by_cli_req = if is_some t.channels_by_cli_req then temp.channels_by_cli_req else none;
  mdt_from_srv = if is_some t.mdt_from_srv then temp.mdt_from_srv else none;
  channels_by_srv_req = if is_some t.channels_by_srv_req then temp.channels_by_srv_req else none;
}

abbrev pub succeeds : Option Code → Bool
succeeds none = false
succeeds (some code) = is_success code

unfoldable pub async_connect :
    Targets
    → (Targets → Option ℕ × Targets)
    → SetupMessage
    → Bool
    → Lending
    → ℕ
    → SessionImpl × Targets × Option Code × List Action
unfolding temporary hand_over complete_connect
async_connect t base message is_created own listener =
    let (error, temp) = base (temporary t) in
    let (i, code, actions) = complete_connect message is_created own listener in
    elim error [
      | some e ↦ (nothing_set, t, some (other e), [])
      | none ↦ (i, if succeeds code then hand_over t temp else t, code, actions)
    ]

complete_connect-IsWhole :
    (message : SetupMessage) (is_created : Bool) (own : Lending) (listener : ℕ)
    → let (i, code, actions) = complete_connect message is_created own listener in
      IsWhole i (succeeds code)
unfolding complete_connect
complete_connect-IsWhole hosed_before is_created own listener = (refl, refl, refl)
complete_connect-IsWhole no_handle is_created own listener = (refl, refl, refl)
complete_connect-IsWhole (with_handle (fails e)) is_created own listener = (refl, refl, refl)
complete_connect-IsWhole (with_handle goes_wrong) is_created own listener = (refl, refl, refl)
complete_connect-IsWhole (with_handle goes_well) is_created own listener =
    let law = init_shm-IsWhole is_created own none in
    let set_up = init_shm is_created own none in
    let joined = join_session_shm-IsWhole set_up.0 (is_success set_up.2) listener law in
    elim (Bool-cases (is_success set_up.2)) [
      | inl went ↦ rw went joined
      | inr refused ↦ rw refused law
    ]

-- A connect succeeds exactly if the session then has its arena, its channel and its `Shm_session`;
-- otherwise it has none of them. The caller's channels and metadata are those of the base class where it
-- succeeds, as far as the caller gave a place for them, and untouched where it does not succeed.
pub async_connect_lem :
    (t : Targets) (base : Targets → Option ℕ × Targets) (message : SetupMessage) (is_created : Bool)
    (own : Lending) (listener : ℕ)
    → let (i, t', code, actions) = async_connect t base message is_created own listener in
      IsWhole i (succeeds code)
      × (t' ≡ (if succeeds code then hand_over t (base (temporary t)).1 else t))
unfolding async_connect
async_connect_lem t base message is_created own listener =
    elim (Option-cases (base (temporary t)).0) [
      | inr (e, failed) ↦ rw (failed, async_connect) ((refl, refl, refl), refl)
      | inl went ↦
          rw (went, async_connect) (complete_connect-IsWhole message is_created own listener, refl)
    ]
