-- ===== src/Session/Protocol/Objects/Balance.antt =====
-- The balance of the uses of an object, and what lending, borrowing and returning in
-- session/standalone/shm/arena_lend/jemalloc/shm_session.cpp keep of it.
use ipc_shm_arena_lend.Base.{
  ℕ, ◌≡◌, ◌+◌, ◌<◌, ◌^◌, true, some, ◌∷◌, if◌then◌else◌, arith, Option-cases, Bool-cases, inl, inr,
  subst, none,
}
use ipc_shm_arena_lend.Base.Dict.{Dict, find, is_some}
use ipc_shm_arena_lend.Pool.Divisible.{DivisiblePool}
use ipc_shm_arena_lend.Session.Borrower as Borrower
use ipc_shm_arena_lend.Session.Borrower.Counts.{uses}
use ipc_shm_arena_lend.Session.Data.{
  SessionData, register_lender_object, deregister_borrower_object,
  construct_and_register_borrower_object,
}
use ipc_shm_arena_lend.Session.Data.Lending.{session_uses}
use ipc_shm_arena_lend.Session.Protocol.{ShmSession, SendOutcome, lend_object, return_object}
use ipc_shm_arena_lend.Session.Protocol.Objects.{
  Handle, same, count, take_out, entry, is_counted, lender_uses, borrower_uses, Link, is_sent,
  with_data,
}
use ipc_shm_arena_lend.Session.Protocol.Objects.Entries.{is_counted-register_lender_object}
use ipc_shm_arena_lend.Session.Protocol.Objects.Counts.{count-take_out}
use ipc_shm_arena_lend.Session.Protocol.Objects.Uses.{
  lender_uses-register_lender_object, borrower_uses-construct_and_register_borrower_object,
  borrower_uses-deregister_borrower_object,
}

-- Where a use of an object can be, other than in the lender's books.
unfoldable pub accounted : Link → Handle → ℕ
accounted s h =
    borrower_uses s.borrower.session_data h
    + (count h s.handles + (count h s.returns + count h s.lost))

unfoldable pub IsBalanced : Link → Type 0
unfolding accounted
IsBalanced s =
    (h : Handle)
    → (accounted s h ≡ lender_uses s.lender.session_data h + s.withdrawn h)
      × (is_counted s.lender.session_data h ≡ true)

lend_object-register_lender_object :
    (pools : Dict DivisiblePool) (s l : ShmSession) (object : ℕ) (h : Handle)
    → lend_object pools s h.collection_id object
      ≡ (l, some (h.collection_id, h.shm_pool_id, h.offset))
    → ((register_lender_object pools s.session_data h.collection_id object).1
        ≡ some (h.shm_pool_id, h.offset))
      × ((register_lender_object pools s.session_data h.collection_id object).0 ≡ l.session_data)
unfolding lend_object
lend_object-register_lender_object pools s l object h e =
    let r = register_lender_object pools s.session_data h.collection_id object in
    elim (Bool-cases s.connected) [
      | inr off ↦ absurd (ground (arith, e, off))
      | inl on ↦ elim (Option-cases r.1) [
        | inl refused ↦ absurd (ground (arith, e, on, refused))
        | inr (x, f) ↦ (ground (arith, e, on, f), ground (arith, e, on, f))
      ]
    ]

pub below_top : (d : SessionData) (h : Handle) → is_counted d h ≡ true → lender_uses d h < 2 ^ 32
unfolding is_counted lender_uses
below_top d h b = elim (Option-cases (entry d h)) [
  | inl e ↦ ground (arith, e)
  | inr (x, e) ↦ ground (arith, b, e)
]

pub has_use :
    (d : SessionData) (h : Handle) → is_counted d h ≡ true → lender_uses d h ≡ 0 → entry d h ≡ none
unfolding is_counted lender_uses
has_use d h b z = elim (Option-cases (entry d h)) [
  | inl e ↦ e
  | inr (x, e) ↦ absurd (ground (arith, b, z, e))
]

pub lends-IsBalanced :
    (s : Link) (pools : Dict DivisiblePool) (object : ℕ) (h : Handle) (l : ShmSession)
    → lend_object pools s.lender h.collection_id object
      ≡ (l, some (h.collection_id, h.shm_pool_id, h.offset))
    → lender_uses s.lender.session_data h + 1 < 2 ^ 32
    → IsBalanced s
    → IsBalanced (record s { lender = l; handles = h ∷ s.handles })
unfolding IsBalanced accounted count
lends-IsBalanced s pools object h l e u b k =
    let (r, d) = lend_object-register_lender_object pools s.lender l object h e in
    let law =
      subst
        (λ x. lender_uses x k ≡ (if same h k then 1 else 0) + lender_uses s.lender.session_data k) d
        (lender_uses-register_lender_object pools s.lender.session_data object h k r u) in
    let counted =
      subst (λ x. is_counted x k ≡ true) d
        (is_counted-register_lender_object pools s.lender.session_data object h k r u (b k).1) in
    (ground (arith, law, (b k).0), counted)

pub borrows-IsBalanced :
    (s : Link) (h : Handle)
    → 0 < count h s.handles
    → borrower_uses s.borrower.session_data h + 1 < 2 ^ 32
    → IsBalanced s
    → let (d, object) =
        construct_and_register_borrower_object s.borrower.session_data h.collection_id h.shm_pool_id
          h.offset in
      IsBalanced (record s {
        borrower = with_data s.borrower d;
        handles = take_out h s.handles;
        lost = if is_some object then s.lost else h ∷ s.lost;
      })
unfolding IsBalanced accounted count
borrows-IsBalanced s h l t b k =
    let out = count-take_out h k s.handles l in
    let (x, y) = b k in
    let law = borrower_uses-construct_and_register_borrower_object s.borrower.session_data h k t in
    let object =
      (construct_and_register_borrower_object s.borrower.session_data h.collection_id h.shm_pool_id
        h.offset).1 in
    elim (Bool-cases (is_some object)) [
      | inl e ↦ (ground (arith, x, out, law, e), y)
      | inr e ↦ (ground (arith, x, out, law, e), y)
    ]

pub deregister_borrower_object-true :
    (s : SessionData) (h : Handle)
    → 0 < borrower_uses s h
    → (deregister_borrower_object s h.collection_id h.shm_pool_id h.offset).1 ≡ true
unfolding borrower_uses session_uses uses deregister_borrower_object Borrower.deregister_object
deregister_borrower_object-true s h l =
    elim (Option-cases (find h.collection_id s.borrower_collection_map)) [
      | inl out ↦ absurd (ground (arith, l, out))
      | inr (c, e) ↦ elim (Option-cases (find h.shm_pool_id c)) [
        | inl out ↦ absurd (ground (arith, l, e, out))
        | inr (d, f) ↦ elim (Option-cases (find h.offset d.offset_map)) [
          | inl out ↦ absurd (ground (arith, l, e, f, out))
          | inr (n, g) ↦ ground (arith, e, f, g)
        ]
      ]
    ]

pub gives_back-IsBalanced :
    (s : Link) (h : Handle) (o : SendOutcome)
    → 0 < borrower_uses s.borrower.session_data h
    → IsBalanced s
    → let (b, found, actions) = return_object s.borrower h.collection_id h.shm_pool_id h.offset o in
      IsBalanced (record s {
        borrower = b;
        returns = if is_sent actions then h ∷ s.returns else s.returns;
        lost = if is_sent actions then s.lost else h ∷ s.lost;
      })
unfolding IsBalanced accounted count return_object
gives_back-IsBalanced s h o l b k =
    let (x, y) = b k in
    let found = deregister_borrower_object-true s.borrower.session_data h l in
    let law = borrower_uses-deregister_borrower_object s.borrower.session_data h k l in
    let actions = (return_object s.borrower h.collection_id h.shm_pool_id h.offset o).2 in
    elim (Bool-cases (is_sent actions)) [
      | inl e ↦ (ground (arith, x, law, found, e), y)
      | inr e ↦ (ground (arith, x, law, found, e), y)
    ]
