-- ===== src/Tests/Objects.antt =====
-- An object on its way between the two sides of a session, on concrete input.
use ipc_shm_arena_lend.Base.{◌≡◌, ◌+◌, ◌<◌, ◌^◌, refl, true, some, [], ◌∷◌, arith}
use ipc_shm_arena_lend.Base.Dict.{find, emplace, assign, erase}
use ipc_shm_arena_lend.Base.Words.{add_offset, sign_extend}
use ipc_shm_arena_lend.Pool.{determine_offset}
use ipc_shm_arena_lend.AddressMap.{divisible_like, lookup}
use ipc_shm_arena_lend.Collection.{lookup_shm_pool}
use ipc_shm_arena_lend.Collection.Borrower.{construct}
use ipc_shm_arena_lend.Session.Lender.{LenderCollection, register_object, register_object_at}
use ipc_shm_arena_lend.Session.Lender as Lender
use ipc_shm_arena_lend.Session.Lender.Lend.{lent}
use ipc_shm_arena_lend.Session.Borrower.{BorrowerCollection}
use ipc_shm_arena_lend.Session.Borrower as Borrower
use ipc_shm_arena_lend.Session.Borrower.Counts.{uses}
use ipc_shm_arena_lend.Session.Data.{
  register_lender_collection, register_lender_shm_pool, register_borrower_collection,
  register_borrower_shm_pool, register_lender_object, construct_and_register_borrower_object,
  deregister_borrower_object,
}
use ipc_shm_arena_lend.Session.Data.Lending.{session_uses}
use ipc_shm_arena_lend.Session.Protocol.{
  ShmSession, sent, lend_object, return_object, remove_lender_shm_pool, receive_object_return,
}
use ipc_shm_arena_lend.Session.Protocol.Objects.{
  Handle, count, take_out, entry, in_pool, withdraw, removes_pool, lender_uses, borrower_uses, Link,
  Step, lends, borrows, gives_back, adds_arena, adds_pool, is_sent, start, fresh, Reach, here, next,
}
use ipc_shm_arena_lend.Session.Protocol.Objects.Invariant.{Reach-IsBalanced}
use ipc_shm_arena_lend.Session.Protocol.Objects.Balance.{IsBalanced}
use ipc_shm_arena_lend.Session.Protocol.Objects.Return.{receive_object_return-true}
use ipc_shm_arena_lend.Tests.{pool_a, two_pools}

abbrev lending : LenderCollection → ShmSession
lending c = record {
  connected = true;
  session_data = record { lender_collection_map = (6, c) ∷ []; borrower_collection_map = [] };
  shm_pool_listener_map = [];
}

abbrev borrowing : BorrowerCollection → ShmSession
borrowing b = record {
  connected = true;
  session_data = record { lender_collection_map = []; borrower_collection_map = (6, b) ∷ [] };
  shm_pool_listener_map = [];
}

abbrev handle : Handle
handle = record { collection_id = 6; shm_pool_id = 1; offset = 904 }

abbrev with_arena : Link
with_arena = record {
  lender = lending [];
  borrower = borrowing [];
  handles = [];
  returns = [];
  lost = [];
  withdrawn = λ h. 0;
}

with_arena-Step : Step start with_arena
unfolding start fresh register_lender_collection register_borrower_collection emplace find
with_arena-Step = adds_arena 6

abbrev with_pool : Link
with_pool = record {
  lender = lending ((1, record { pool = pool_a; object_data_map = [] }) ∷ []);
  borrower = borrowing ((1, record { pool = pool_a; offset_map = [] }) ∷ []);
  handles = [];
  returns = [];
  lost = [];
  withdrawn = λ h. 0;
}

with_pool-Step : Step with_arena with_pool
unfolding register_lender_shm_pool register_borrower_shm_pool emplace find assign
    Lender.register_shm_pool Borrower.register_shm_pool
with_pool-Step = adds_pool 6 pool_a pool_a

abbrev one_use : Lender.ObjectData
one_use = record { object = 5000; use_count = 1 }

abbrev lender : ShmSession
lender = lending ((1, record { pool = pool_a; object_data_map = (904, one_use) ∷ [] }) ∷ [])

abbrev with_handle : Link
with_handle = record with_pool { lender = lender; handles = handle ∷ [] }

lends_object : lend_object two_pools with_pool.lender 6 5000 ≡ (lender, some (6, 1, 904))
unfolding lend_object register_lender_object register_object register_object_at find emplace assign
    lookup_shm_pool lookup determine_offset add_offset Lender.add_use
lends_object = refl

below : lender_uses with_pool.lender.session_data handle + 1 < 2 ^ 32
unfolding lender_uses entry lent find
below = omega arith

with_handle-Step : Step with_pool with_handle
with_handle-Step = lends two_pools 5000 handle lender lends_object below

abbrev with_object : Link
with_object = record with_pool {
  lender = lender;
  borrower = borrowing ((1, record { pool = pool_a; offset_map = (904, 1) ∷ [] }) ∷ []);
}

in_flight : 0 < count handle with_handle.handles
unfolding count
in_flight = omega arith

borrowed_below : borrower_uses with_handle.borrower.session_data handle + 1 < 2 ^ 32
unfolding borrower_uses session_uses uses find
borrowed_below = omega arith

with_object-Step : Step with_handle with_object
unfolding construct_and_register_borrower_object construct find emplace assign take_out
    Borrower.find_shm_pool Borrower.register_object sign_extend
with_object-Step = borrows handle in_flight borrowed_below

with_object-Reach : Reach with_object
with_object-Reach =
    next (next (next (next here with_arena-Step) with_pool-Step) with_handle-Step) with_object-Step

is_used : 0 < borrower_uses with_object.borrower.session_data handle
unfolding borrower_uses session_uses uses find
is_used = omega arith

abbrev with_return : Link
with_return = record with_pool {
  lender = lender;
  borrower = borrowing ((1, record { pool = pool_a; offset_map = [] }) ∷ []);
  returns = handle ∷ [];
}

with_return-Step : Step with_object with_return
unfolding return_object deregister_borrower_object find assign erase Borrower.deregister_object
    is_sent
with_return-Step = gives_back handle sent is_used

returns_one : 0 < count handle with_return.returns
unfolding count
returns_one = omega arith

-- The lender removes the pool with the object that the borrower has.
abbrev without_pool : Link
without_pool = record with_object {
  lender = (remove_lender_shm_pool lender 6 pool_a sent).0;
  withdrawn = withdraw lender.session_data 6 1 (λ h. 0);
}

without_pool-Step : Step with_object without_pool
without_pool-Step = removes_pool 6 pool_a sent

one_withdrawn : without_pool.withdrawn handle ≡ 1
unfolding withdraw in_pool lender_uses entry lent find
one_withdrawn = refl

Reach-IsBalanced_example : IsBalanced without_pool
Reach-IsBalanced_example = Reach-IsBalanced (next with_object-Reach without_pool-Step)

receive_object_return-true_example : (receive_object_return with_return.lender 6 1 904).1 ≡ true
receive_object_return-true_example =
    receive_object_return-true handle (next with_object-Reach with_return-Step) returns_one refl
