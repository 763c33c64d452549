-- ===== src/Session/Protocol/Objects/Return.antt =====
-- The way of an object back to the lender, in session/standalone/shm/arena_lend/jemalloc/shm_session.cpp.
use ipc_shm_arena_lend.Base.{◌≡◌, ◌<◌, true, ◌∷◌, if◌then◌else◌, arith}
use ipc_shm_arena_lend.Session.Protocol.{sent, return_object, receive_object_return}
use ipc_shm_arena_lend.Session.Protocol.Objects.{Handle, count, Link, is_sent, Step, Reach}
use ipc_shm_arena_lend.Session.Protocol.Objects.Entries.{deregister_lender_object-is_some}
use ipc_shm_arena_lend.Session.Protocol.Objects.Balance.{IsBalanced, accounted}
use ipc_shm_arena_lend.Session.Protocol.Objects.Invariant.{Reach-IsBalanced}

-- In every state that the two sides reach, an object being lent and borrowed only while its count on
-- that side is below 2 ^ 32 - 1: a return that arrives at the lender finds its object there, and
-- `receive_object_return` succeeds, where the uses of the object that the lender gave up with removed
-- pools, less the returns since that found no object, are none.
pub receive_object_return-true :
    {s : Link} (h : Handle)
    → Reach s
    → 0 < count h s.returns
    → s.withdrawn h ≡ 0
    → (receive_object_return s.lender h.collection_id h.shm_pool_id h.offset).1 ≡ true
unfolding receive_object_return IsBalanced accounted
receive_object_return-true {s} h r l w =
    let (x, y) = Reach-IsBalanced r h in
    deregister_lender_object-is_some s.lender.session_data h (omega arith)

-- Steps one after the other.
pub data Steps : Link → Link → Type 0 where
  done : {s : Link} → Steps s s
  step : {s t u : Link} → Step s t → Steps t u → Steps s u

-- The next return of an object goes out.
abbrev returned : Link → Handle → Link
returned s h =
    let (b, found, actions) =
      return_object s.borrower h.collection_id h.shm_pool_id h.offset sent in
    record s {
      borrower = b;
      returns = if is_sent actions then h ∷ s.returns else s.returns;
      lost = if is_sent actions then s.lost else h ∷ s.lost;
    }
