-- ===== src/Session/Protocol/Objects.antt =====
-- The objects of a session between its two sides (`Shm_session` of the lender and of the borrower), in
-- session/standalone/shm/arena_lend/jemalloc/shm_session.cpp: handles on their way to the borrower, and returns
-- on their way back.
pub mod Counts
pub mod Uses
pub mod Entries
pub mod Balance
pub mod Invariant
pub mod Return
use ipc_shm_arena_lend.Base.{
  ℕ, ◌+◌, ◌<◌, ◌^◌, ◌≡◌, Bool, true, false, ◌&&◌, Option, none, some, List, [], ◌∷◌, if◌then◌else◌,
  ◌==◌, ◌-◌, ltb,
}
use ipc_shm_arena_lend.Base.Dict.{find, is_some}
use ipc_shm_arena_lend.Pool.{Pool}
use ipc_shm_arena_lend.Pool.Divisible.{DivisiblePool}
use ipc_shm_arena_lend.Session.Lender.{ObjectData}
use ipc_shm_arena_lend.Session.Lender.Lend.{lent}
use ipc_shm_arena_lend.Session.Data.{
  SessionData, construct_and_register_borrower_object, register_lender_collection,
  register_lender_shm_pool, register_borrower_collection, register_borrower_shm_pool,
  deregister_borrower_shm_pool,
}
use ipc_shm_arena_lend.Session.Data.Lending.{session_uses}
use ipc_shm_arena_lend.Session.Protocol.{
  ShmSession, SendOutcome, Action, sends, requests, reports_error, Message, returns_object,
  lend_object, return_object, remove_lender_shm_pool, receive_object_return,
}

-- `Shm_object_handle`
pub record Handle : Type 0 where
  pub collection_id : ℕ
  pub shm_pool_id : ℕ
  pub offset : ℕ

unfoldable pub same : Handle → Handle → Bool
same h k =
    (h.collection_id == k.collection_id)
    && (h.shm_pool_id == k.shm_pool_id)
    && (h.offset == k.offset)

unfoldable pub count : Handle → List Handle → ℕ
unfolding same
count h [] = 0
count h (k ∷ ks) = if same k h then 1 + count h ks else count h ks

-- One occurrence is taken out.
unfoldable pub take_out : Handle → List Handle → List Handle
unfolding same
take_out h [] = []
take_out h (k ∷ ks) = let rest = take_out h ks in if same k h then ks else k ∷ rest

-- The entry of an object at the lender.
unfoldable pub entry : SessionData → Handle → Option ObjectData
entry d h = elim (find h.collection_id d.lender_collection_map) [
  | none ↦ none
  | some c ↦ lent c h.shm_pool_id h.offset
]

-- The uses of an object at the lender, 0 where it has no entry.
unfoldable pub lender_uses : SessionData → Handle → ℕ
unfolding entry
lender_uses d h = elim (entry d h) [ none ↦ 0 | some e ↦ e.use_count ]

-- Whether the entry, if there is one, has a use, and no more than 32 bits hold.
unfoldable pub is_counted : SessionData → Handle → Bool
unfolding entry
is_counted d h = elim (entry d h) [
  | none ↦ true
  | some e ↦ ltb 0 e.use_count && ltb e.use_count (2 ^ 32)
]

unfoldable pub borrower_uses : SessionData → Handle → ℕ
borrower_uses d h = session_uses d h.collection_id h.shm_pool_id h.offset

-- Whether an object is in a pool of a collection.
unfoldable pub in_pool : ℕ → ℕ → Handle → Bool
in_pool id shm_pool_id h = (id == h.collection_id) && (shm_pool_id == h.shm_pool_id)

-- The two sides, the handles and the returns in flight, and what was lost: handles whose object could
-- not be constructed, and returns that were not sent. And per object, the uses that the lender gave up
-- when it removed a pool with lent objects, less the returns since that found no object.
pub record Link : Type 0 where
  pub lender : ShmSession
  pub borrower : ShmSession
  pub handles : List Handle
  pub returns : List Handle
  pub lost : List Handle
  pub withdrawn : Handle → ℕ

-- Whether a return went out.
unfoldable pub is_sent : List Action → Bool
is_sent [] = false
is_sent (sends (returns_object a b c) ∷ xs) = true
is_sent (x ∷ xs) = is_sent xs

abbrev pub with_data : ShmSession → SessionData → ShmSession
with_data s d = record s { session_data = d }

-- What the lender withdraws with a pool: all of its uses of the objects there.
unfoldable pub withdraw : SessionData → ℕ → ℕ → (Handle → ℕ) → Handle → ℕ
unfolding in_pool
withdraw d id shm_pool_id f h = f h + (if in_pool id shm_pool_id h then lender_uses d h else 0)

-- A return that finds no object is one of a withdrawn use.
unfoldable pub late : Bool → Handle → (Handle → ℕ) → Handle → ℕ
unfolding same
late found h f k = f k - (if found then 0 else if same h k then 1 else 0)

-- The next return of an object arrives at the lender.
abbrev pub delivered : Link → Handle → Link
delivered s h =
    let (l, found) = receive_object_return s.lender h.collection_id h.shm_pool_id h.offset in
    record s { lender = l; returns = take_out h s.returns; withdrawn = late found h s.withdrawn }

-- One step of either side or of the network. An object is returned by the callback of a borrowed object,
-- so it has a use. An object is lent and borrowed only while its count on that side is below the largest
-- that 32 bits hold: at that one the code's count wraps around. A pool of the lender goes with its objects or without.
pub data Step (s : Link) : Link → Type 0 where
  lends :
      (pools : List (ℕ × DivisiblePool)) (object : ℕ) (h : Handle) (l : ShmSession)
      → lend_object pools s.lender h.collection_id object
        ≡ (l, some (h.collection_id, h.shm_pool_id, h.offset))
      → lender_uses s.lender.session_data h + 1 < 2 ^ 32
      → Step s (record s { lender = l; handles = h ∷ s.handles })
  borrows :
      (h : Handle)
      → 0 < count h s.handles
      → borrower_uses s.borrower.session_data h + 1 < 2 ^ 32
      → Step s (
          let (d, object) =
            construct_and_register_borrower_object s.borrower.session_data h.collection_id
              h.shm_pool_id h.offset in
          record s {
            borrower = with_data s.borrower d;
            handles = take_out h s.handles;
            lost = if is_some object then s.lost else h ∷ s.lost;
          })
  gives_back :
      (h : Handle) (o : SendOutcome)
      → 0 < borrower_uses s.borrower.session_data h
      → Step s (
          let (b, found, actions) =
            return_object s.borrower h.collection_id h.shm_pool_id h.offset o in
          record s {
            borrower = b;
            returns = if is_sent actions then h ∷ s.returns else s.returns;
            lost = if is_sent actions then s.lost else h ∷ s.lost;
          })
  takes_back : (h : Handle) → 0 < count h s.returns → Step s (delivered s h)
  disconnects :
      (lender borrower : Bool)
      → Step s (record s {
        lender = record s.lender { connected = lender };
        borrower = record s.borrower { connected = borrower };
      })
  adds_arena :
      (id : ℕ)
      → Step s (record s {
        lender = with_data s.lender (register_lender_collection s.lender.session_data id).0;
        borrower = with_data s.borrower (register_borrower_collection s.borrower.session_data id).0;
      })
  adds_pool :
      (id : ℕ) (p q : Pool)
      → Step s (record s {
        lender = with_data s.lender (register_lender_shm_pool s.lender.session_data id p).0;
        borrower = with_data s.borrower (register_borrower_shm_pool s.borrower.session_data id q).0;
      })
  removes_pool :
      (id : ℕ) (p : Pool) (o : SendOutcome)
      → Step s (record s {
        lender = (remove_lender_shm_pool s.lender id p o).0;
        withdrawn = withdraw s.lender.session_data id p.id s.withdrawn;
      })
  forgets_pool :
      (id shm_pool_id : ℕ)
      → Step s (record s {
        borrower =
            with_data s.borrower
              (deregister_borrower_shm_pool s.borrower.session_data id shm_pool_id).0;
      })

-- The sides before anything is registered.
unfoldable pub fresh : ShmSession
fresh = record {
  connected = true;
  session_data = record { lender_collection_map = []; borrower_collection_map = [] };
  shm_pool_listener_map = [];
}

unfoldable pub start : Link
unfolding fresh
start = record {
  lender = fresh;
  borrower = fresh;
  handles = [];
  returns = [];
  lost = [];
  withdrawn = λ h. 0;
}

pub data Reach : Link → Type 0 where
  here : Reach start
  next : {s t : Link} → Reach s → Step s t → Reach t
