-- ===== src/Tests/Protocol.antt =====
-- The two sides of a session on concrete input.
use ipc_shm_arena_lend.Base.{
  ◌≡◌, refl, true, false, none, some, List, [], ◌∷◌, arith, if◌then◌else◌, ◌==◌,
}
use ipc_shm_arena_lend.Base.Dict.{find, emplace}
use ipc_shm_arena_lend.AddressMap.{divisible_like}
use ipc_shm_arena_lend.Arena.{Arena}
use ipc_shm_arena_lend.Session.Lender.{register_object, register_object_at}
use ipc_shm_arena_lend.Session.Lender as Lender
use ipc_shm_arena_lend.Session.Lender.Lend.{lent}
use ipc_shm_arena_lend.Session.Borrower as Borrower
use ipc_shm_arena_lend.Session.Data.{
  SessionData, register_lender_collection, register_lender_shm_pool, register_borrower_shm_pool,
}
use ipc_shm_arena_lend.Session.Protocol.{
  ShmSession, errored, responded, lends_pool, lend_shm_pool, lend_arena, offer_arena, request_arena,
  request_pool,
}
use ipc_shm_arena_lend.Session.Protocol.Handle.{
  serialize_handle, deserialize_handle, deserialize_handle-serialize_handle,
}
use ipc_shm_arena_lend.Session.Protocol.Undo.{lend_arena-false}
use ipc_shm_arena_lend.Session.Protocol.Borrow.{receive_shm_pool}
use ipc_shm_arena_lend.Session.Protocol.Borrow.Lifetime.{live, owner_uses-live}
use ipc_shm_arena_lend.Session.Protocol.Borrow.Messages.{
  Incoming, arena_lent, pool_lent, pool_removed,
}
use ipc_shm_arena_lend.Session.Registry.Uses.{owner_uses}
use ipc_shm_arena_lend.Session.Protocol.Borrow.Refusal.{receive_shm_pool-refused}
use ipc_shm_arena_lend.Session.Protocol.Dispatch.{receive_message}
use ipc_shm_arena_lend.Session.Protocol.Dispatch.Agreement.{
  flag, is_lent, is_borrowed, is_lent-receive_message,
}
use ipc_shm_arena_lend.Tests.{pool_a, counter}
use ipc_shm_arena_lend.Tests.Registries.{
  no_borrowed, one_collection, registry, mappable, well, succeeds, finds, unregistered,
}

-- The lender has the collection 4 without pools, and so has the borrower.
abbrev lender : ShmSession
lender = record {
  connected = true;
  session_data = record { lender_collection_map = (4, []) ∷ []; borrower_collection_map = [] };
  shm_pool_listener_map = [];
}

abbrev borrower : SessionData
borrower = record { lender_collection_map = []; borrower_collection_map = (4, []) ∷ [] }

deserialize_handle-serialize_handle_example :
    deserialize_handle (serialize_handle 4 1 904) ≡ some (4, 1, 904)
deserialize_handle-serialize_handle_example =
    deserialize_handle-serialize_handle 4 1 904 (omega arith) (omega arith) (omega arith)

lending_fails : (lend_shm_pool lender 4 pool_a errored).1 ≡ false
unfolding lend_shm_pool request_pool register_lender_shm_pool Lender.register_shm_pool find emplace
lending_fails = refl

abbrev arena : Arena
arena = record { shm_pools = (1, pool_a) ∷ []; listeners = [] }

nobody_listens : find 7 arena.listeners ≡ none
unfolding find
nobody_listens = refl

offer_fails : (lend_arena lender arena 5 7 (responded false) (λ id. responded true)).2 ≡ false
unfolding lend_arena offer_arena request_arena register_lender_collection find emplace
offer_fails = refl

lend_arena-false_example :
    let (s, a, result, actions) =
      lend_arena lender arena 5 7 (responded false) (λ id. responded true) in
    (s ≡ lender) × (a ≡ arena)
lend_arena-false_example =
    lend_arena-false lender arena 5 7 (responded false) (λ id. responded true) nobody_listens
      offer_fails

abbrev no_collection : SessionData
no_collection = record { lender_collection_map = []; borrower_collection_map = [] }

refuses : (register_borrower_shm_pool no_collection 4 pool_a).1 ≡ false
unfolding register_borrower_shm_pool find
refuses = refl

receive_shm_pool-refused_example :
    let (r, s, success, effects) =
      receive_shm_pool registry no_collection 9 4 1 "a" 4096 mappable well in
    (r ≡ registry) × (s ≡ no_collection) × (success ≡ true)
receive_shm_pool-refused_example =
    receive_shm_pool-refused registry no_collection 9 4 1 "a" 4096 mappable well one_collection
      no_borrowed pool_a finds unregistered succeeds refuses

abbrev no_pools_lent : Lender.LenderCollection
no_pools_lent = []

abbrev no_pools_borrowed : Borrower.BorrowerCollection
no_pools_borrowed = []

has_lender_collection : find 4 lender.session_data.lender_collection_map ≡ some no_pools_lent
unfolding find
has_lender_collection = refl

has_borrower_collection : find 4 borrower.borrower_collection_map ≡ some no_pools_borrowed
unfolding find
has_borrower_collection = refl

no_lent_pool : find 1 no_pools_lent ≡ none
unfolding find
no_lent_pool = refl

no_borrowed_pool : find 1 no_pools_borrowed ≡ none
unfolding find
no_borrowed_pool = refl

is_lent-receive_message_example :
    let (r, d, response, effects) =
      receive_message registry borrower 9 mappable well (lends_pool 4 1 "a" 4096) in
    let (s, lent, actions) = lend_shm_pool lender 4 pool_a (responded (flag response)) in
    (is_lent s.session_data 4 1 ≡ lent) × (is_borrowed d 4 1 ≡ lent)
is_lent-receive_message_example =
    is_lent-receive_message registry lender borrower no_pools_lent no_pools_borrowed one_collection
      no_borrowed 9 4 pool_a mappable well refl has_lender_collection no_lent_pool
      has_borrower_collection no_borrowed_pool finds unregistered

-- A session receives an arena and a pool of it, the pool goes, and the session ends.
abbrev incoming : List Incoming
incoming = arena_lent 5 ∷ pool_lent 5 2 "b" 4096 mappable well ∷ pool_removed 5 2 well ∷ []

owner_uses-live_example :
    (owner_uses (live registry no_collection 9 incoming well).owner_data_map 9
      ≡ owner_uses registry.owner_data_map 9)
    × (find 9 (live registry no_collection 9 incoming well).owner_data_map ≡ (
        if 9 == 9
        then find 9 (live registry no_collection 9 incoming well).owner_data_map
        else find 9 registry.owner_data_map))
owner_uses-live_example = owner_uses-live registry no_collection 9 9 incoming well
