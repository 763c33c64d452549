-- ===== src/Tests/Setup.antt =====
-- The set-up of a session and the cleanups on concrete input.
use ipc_shm_arena_lend.Base.{
  ℕ, ◌≡◌, refl, Bool, true, false, not, Option, none, some, List, [], ◌∷◌, arith, ◌==◌,
  if◌then◌else◌,
}
use ipc_shm_arena_lend.Base.Dict.{find, emplace}
use ipc_shm_arena_lend.AddressMap.{emplace_ordered}
use ipc_shm_arena_lend.Arena.{Arena, add_shm_pool_listener}
use ipc_shm_arena_lend.Session.Data.{register_lender_collection}
use ipc_shm_arena_lend.Session.Protocol.{
  responded, lend_arena, offer_arena, request_arena, lend_shm_pools,
}
use ipc_shm_arena_lend.Session.Protocol.Objects.{fresh}
use ipc_shm_arena_lend.Session.Setup.{
  Lending, nothing_set, goes_well, with_handle, is_success, complete_log_in, set_up_log_in,
  init_shm, lend_app_shm,
}
use ipc_shm_arena_lend.Session.Setup.Whole.{complete_log_in-false}
use ipc_shm_arena_lend.Session.Server.{
  Apps, PoolName, before, server_removes, client_removes, pool_name_rest,
}
use ipc_shm_arena_lend.Session.Setup.Members.{IsWhole}
use ipc_shm_arena_lend.Session.Setup.Connect.{
  Targets, temporary, hand_over, succeeds, async_connect, async_connect_lem,
}
use ipc_shm_arena_lend.Session.Server.LogIn.{
  logs_in, async_accept_log_in, Leaves, async_accept_log_in-Leaves,
}
use ipc_shm_arena_lend.Session.Server.Cleanup.{client_removes-pool_name_rest}
use ipc_shm_arena_lend.Tests.{pool_a}

abbrev own : Lending
own = record {
  collection_id = 1;
  listener = 70;
  request = responded true;
  pool_requests = λ id. responded true;
}

-- The borrower refuses the app-scope arena.
abbrev refused : Lending
refused = record {
  collection_id = 2;
  listener = 80;
  request = responded false;
  pool_requests = λ id. responded true;
}

abbrev app_arena : Arena
app_arena = record { shm_pools = (1, pool_a) ∷ []; listeners = (9, tt) ∷ [] }

is_new : find 80 app_arena.listeners ≡ none
unfolding find
is_new = refl

log_in_fails :
    is_success (complete_log_in none none goes_well true own (app_arena, refused) 9).3 ≡ false
unfolding complete_log_in set_up_log_in init_shm lend_app_shm lend_arena offer_arena request_arena
    fresh register_lender_collection add_shm_pool_listener emplace find emplace_ordered
    lend_shm_pools
log_in_fails = refl

complete_log_in-false_example :
    let (i, a, kept, code, actions) =
      complete_log_in none none goes_well true own (app_arena, refused) 9 in
    (i ≡ nothing_set) × (a ≡ some app_arena) × (kept ≡ false)
complete_log_in-false_example =
    complete_log_in-false none none goes_well true own app_arena refused 9 is_new
      (λ e. omega (arith, e)) log_in_fails

abbrev apps : Apps
apps = (5, some app_arena) ∷ []

async_accept_log_in-Leaves_example :
    Leaves apps 5 6 (async_accept_log_in apps 5 false 9 logs_in none goes_well true own own)
async_accept_log_in-Leaves_example =
    async_accept_log_in-Leaves apps 5 6 false 9 logs_in none goes_well true own own

-- The caller gives a place for two channels and for the metadata; the base class sets them.
abbrev targets : Targets
targets = record {
  channels_by_cli_req = some (7 ∷ 8 ∷ []);
  mdt_from_srv = some 3;
  channels_by_srv_req = none;
}

abbrev base_connect : Targets → Option ℕ × Targets
base_connect t = (none, record t { channels_by_cli_req = some (1 ∷ 2 ∷ []); mdt_from_srv = some 4 })

async_connect_lem_example :
    let (i, t', code, actions) =
      async_connect targets base_connect (with_handle goes_well) true own 9 in
    IsWhole i (succeeds code)
    × (t' ≡ (
        if succeeds code then hand_over targets (base_connect (temporary targets)).1 else targets))
async_connect_lem_example =
    async_connect_lem targets base_connect (with_handle goes_well) true own 9

-- Every word is read as the process ID 77.
abbrev read_pid : List ℕ → Option ℕ
read_pid s = some 77

abbrev running : ℕ → Bool
running pid = pid == 1

word_has_no_separator : before 47 (55 ∷ 55 ∷ []) ≡ none
unfolding before
word_has_no_separator = refl

id_has_no_separator : before 47 (49 ∷ []) ≡ none
unfolding before
id_has_no_separator = refl

client_removes-pool_name_rest_example :
    let client : PoolName = record {
      of_our_server = true;
      of_our_client = true;
      srv_namespace = [];
      the_rest = pool_name_rest (106 ∷ []) 47 (some (55 ∷ 55 ∷ [])) (49 ∷ []);
    } in
    let server : PoolName = record {
      of_our_server = true;
      of_our_client = true;
      srv_namespace = 55 ∷ 55 ∷ [];
      the_rest = pool_name_rest (106 ∷ []) 47 none (49 ∷ []);
    } in
    (client_removes (106 ∷ []) 47 read_pid running (some client) ≡ not (running 77))
    × (server_removes (106 ∷ []) 47 read_pid running (some client) ≡ false)
    × (server_removes (106 ∷ []) 47 read_pid running (some server) ≡ not (running 77))
    × (client_removes (106 ∷ []) 47 read_pid running (some server) ≡ false)
client_removes-pool_name_rest_example =
    client_removes-pool_name_rest (106 ∷ []) 47 read_pid running [] (55 ∷ 55 ∷ []) (49 ∷ []) 77
      word_has_no_separator id_has_no_separator refl refl
