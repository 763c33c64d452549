-- ===== src/Session/Setup/Whole.antt =====
-- All or nothing in session/detail/shm/arena_lend/jemalloc/session_impl.hpp and server_session_impl.hpp.
use ipc_shm_arena_lend.Base.{
  ℕ, ◌≡◌, ◌≢◌, refl, Bool, false, Option, none, some, List, [], ◌∷◌, arith, Bool-cases, inl, inr,
  ap, ◌∙◌,
}
use ipc_shm_arena_lend.Base.Dict.{find, emplace, find-erase, find-emplace}
use ipc_shm_arena_lend.Pool.{Pool}
use ipc_shm_arena_lend.Arena.{Arena, add_shm_pool_listener}
use ipc_shm_arena_lend.Session.Protocol.{
  ShmSession, RequestOutcome, lend_shm_pool, lend_shm_pools, request_pool, lend_arena, offer_arena,
  request_arena,
}
use ipc_shm_arena_lend.Session.Protocol.Objects.{fresh}
use ipc_shm_arena_lend.Session.Protocol.Undo.{lend_arena-false}
use ipc_shm_arena_lend.Session.Setup.{
  Lending, nothing_set, new_arena, leave, lend_app_shm, init_shm, is_success, set_up_log_in,
  complete_log_in, reset_shm, MasterOutcome, fails, goes_wrong, goes_well,
}

listener_map-lend_shm_pool :
    (s : ShmSession) (id : ℕ) (p : Pool) (o : RequestOutcome)
    → (lend_shm_pool s id p o).0.shm_pool_listener_map ≡ s.shm_pool_listener_map
unfolding lend_shm_pool request_pool
listener_map-lend_shm_pool s id p o = ground arith

listener_map-lend_shm_pools :
    (s : ShmSession) (id : ℕ) (ps : List Pool) (outcomes : ℕ → RequestOutcome)
    → (lend_shm_pools s id ps outcomes).0.shm_pool_listener_map ≡ s.shm_pool_listener_map
unfolding lend_shm_pools
listener_map-lend_shm_pools s id [] outcomes = refl
listener_map-lend_shm_pools s id (p ∷ ps) outcomes =
    listener_map-lend_shm_pools (lend_shm_pool s id p (outcomes p.id)).0 id ps outcomes
    ∙ listener_map-lend_shm_pool s id p (outcomes p.id)

listener_map-offer_arena :
    (s : ShmSession) (cid id : ℕ) (o : RequestOutcome)
    → cid ≢ id
    → find id (offer_arena s cid o).0.shm_pool_listener_map ≡ find id s.shm_pool_listener_map
unfolding offer_arena request_arena
listener_map-offer_arena s cid id o ne =
    let m = (emplace cid tt s.shm_pool_listener_map).0 in
    ground (arith, ne, find-erase cid id m, find-emplace cid id tt s.shm_pool_listener_map)

-- Lending an arena touches no other entry of the map of listeners.
listener_map-lend_arena :
    (s : ShmSession) (a : Arena) (l : Lending) (id : ℕ)
    → l.collection_id ≢ id
    → let (s', _, _, _) = lend_arena s a l.collection_id l.listener l.request l.pool_requests in
      find id s'.shm_pool_listener_map ≡ find id s.shm_pool_listener_map
unfolding lend_arena
listener_map-lend_arena s a l id ne =
    let offered = listener_map-offer_arena s l.collection_id id l.request ne in
    elim (Bool-cases (offer_arena s l.collection_id l.request).1) [
      | inr refused ↦ ground (arith, refused, offered)
      | inl offers ↦ elim (Bool-cases (add_shm_pool_listener a l.listener).1) [
        | inr known ↦ ground (arith, offers, known, offered)
        | inl joined ↦
            rw (offers, joined)
              (ap (find id) (listener_map-lend_shm_pools _ l.collection_id _ l.pool_requests)
                ∙ offered)
      ]
    ]

-- Where the app-scope arena cannot be lent, it is as it was before.
app_shm-false :
    (s : ShmSession) (a b : Arena) (l : Lending)
    → find l.listener b.listeners ≡ none
    → find l.collection_id s.shm_pool_listener_map ≡ none
    → let (i, b', code, actions) = lend_app_shm s a (some (b, l)) in
      is_success code ≡ false → (i ≡ nothing_set) × (b' ≡ some b)
unfolding lend_app_shm
app_shm-false s a b l new other failed =
    let lent = (lend_arena s b l.collection_id l.listener l.request l.pool_requests).2 in
    elim (Bool-cases lent) [
      | inl went ↦ absurd (ground (arith, failed, went))
      | inr refused ↦
          let (x, y) =
            lend_arena-false s b l.collection_id l.listener l.request l.pool_requests new refused in
          let left : leave s l b ≡ b = unfold leave in ground (arith, other) in
          let back =
            ap
              (λ z.
                leave z l (lend_arena s b l.collection_id l.listener l.request l.pool_requests).1)
              x
            ∙ (ap (leave s l) y ∙ left) in
          (ground (arith, refused), ground (arith, refused, back))
    ]

fresh_listeners : (id : ℕ) → find id fresh.shm_pool_listener_map ≡ none
unfolding fresh find
fresh_listeners id = refl

-- Where `init_shm` fails.
init_shm-false :
    (is_created : Bool) (own : Lending) (b : Arena) (l : Lending)
    → find l.listener b.listeners ≡ none
    → own.collection_id ≢ l.collection_id
    → let (i, b', code, actions) = init_shm is_created own (some (b, l)) in
      is_success code ≡ false → (i ≡ nothing_set) × (b' ≡ some b)
unfolding init_shm
init_shm-false is_created own b l new ne failed =
    let (s, a, lent, actions) =
      lend_arena fresh new_arena own.collection_id own.listener own.request own.pool_requests in
    let other =
      listener_map-lend_arena fresh new_arena own l.collection_id ne
      ∙ fresh_listeners l.collection_id in
    let last = app_shm-false s a b l new other in
    elim (Bool-cases is_created) [
      | inr not_made ↦ (ground (arith, not_made), ground (arith, not_made))
      | inl made ↦ elim (Bool-cases lent) [
        | inr refused ↦ (ground (arith, made, refused), ground (arith, made, refused))
        | inl went ↦
            let (x, y) = last (ground (arith, failed, made, went)) in
            (ground (arith, made, went, x), ground (arith, made, went, y))
      ]
    ]

set_up_log_in-false :
    (paired : Option ℕ) (o : MasterOutcome) (is_created : Bool) (own : Lending) (b : Arena)
    (l : Lending)
    → find l.listener b.listeners ≡ none
    → own.collection_id ≢ l.collection_id
    → let (i, b', code, actions) = set_up_log_in paired o is_created own (b, l) in
      is_success code ≡ false → (i ≡ nothing_set) × (b' ≡ some b)
unfolding set_up_log_in
set_up_log_in-false (some e) o is_created own b l new ne failed = (refl, refl)
set_up_log_in-false none (fails e) is_created own b l new ne failed = (refl, refl)
set_up_log_in-false none goes_wrong is_created own b l new ne failed = (refl, refl)
set_up_log_in-false none goes_well is_created own b l new ne failed =
    init_shm-false is_created own b l new ne failed

-- A log-in that fails, at whatever step, leaves nothing behind: the session has no arena, no channel and no
-- `Shm_session`, lets go of the app-scope arena, and that arena is as it was before, without a
-- listener of the session; where the IDs of the two arenas differ and the listener is a new one.
pub complete_log_in-false :
    (e paired : Option ℕ) (o : MasterOutcome) (is_created : Bool) (own : Lending) (b : Arena)
    (l : Lending) (listener : ℕ)
    → find l.listener b.listeners ≡ none
    → own.collection_id ≢ l.collection_id
    → is_success (complete_log_in e paired o is_created own (b, l) listener).3 ≡ false
    → let (i, b', kept, code, actions) =
        complete_log_in e paired o is_created own (b, l) listener in
      (i ≡ nothing_set) × (b' ≡ some b) × (kept ≡ false)
unfolding complete_log_in reset_shm
complete_log_in-false (some e) paired o is_created own b l listener new ne failed =
    (refl, refl, refl)
complete_log_in-false none paired o is_created own b l listener new ne failed =
    elim (Bool-cases (is_success (set_up_log_in paired o is_created own (b, l)).2)) [
      | inl went ↦ absurd (ground (arith, failed, went))
      | inr refused ↦
          let (x, y) = set_up_log_in-false paired o is_created own b l new ne refused in
          let (i, b', _, _) = set_up_log_in paired o is_created own (b, l) in
          let back : reset_shm i l b' ≡ (nothing_set, some b) =
            ap (λ z. reset_shm z l b') x ∙ ap (reset_shm nothing_set l) y in
          (ground (arith, refused, back), ground (arith, refused, back), ground (arith, refused))
    ]
