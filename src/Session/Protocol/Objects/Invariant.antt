-- ===== src/Session/Protocol/Objects/Invariant.antt =====
-- What the steps of session/standalone/shm/arena_lend/jemalloc/shm_session.cpp keep of the uses of an object.
use ipc_shm_arena_lend.Base.{
  ℕ, ◌≡◌, ◌<◌, arith, Bool-cases, inl, inr, subst, zero, suc, ◌⊎◌, ◌∙◌, refl,
}
use ipc_shm_arena_lend.Base.Dict.{find}
use ipc_shm_arena_lend.Session.Borrower.Counts.{uses}
use ipc_shm_arena_lend.Session.Data.{register_lender_collection, register_lender_shm_pool}
use ipc_shm_arena_lend.Session.Data.Lending.{session_uses}
use ipc_shm_arena_lend.Session.Protocol.{SendOutcome, receive_object_return, remove_lender_shm_pool}
use ipc_shm_arena_lend.Session.Protocol.Objects.{
  Handle, same, count, entry, is_counted, in_pool, withdraw, late, delivered, lender_uses,
  borrower_uses, Link, Step, lends, borrows, gives_back, takes_back, disconnects, adds_arena,
  adds_pool, removes_pool, forgets_pool, fresh, start, Reach, here, next,
}
use ipc_shm_arena_lend.Pool.{Pool}
use ipc_shm_arena_lend.Session.Protocol.Objects.Entries.{
  same_entry, entry-register_lender_collection, entry-register_lender_shm_pool,
  entry-deregister_none, entry-remove_lender_shm_pool, is_counted-deregister_lender_object,
  deregister_lender_object-is_some,
}
use ipc_shm_arena_lend.Session.Protocol.Objects.Counts.{count-take_out}
use ipc_shm_arena_lend.Session.Protocol.Objects.Uses.{
  same-≡, lender_uses-deregister_lender_object, borrower_uses-deregister_borrower_shm_pool,
  borrower_uses-register_borrower_shm_pool, borrower_uses-register_borrower_collection,
}
use ipc_shm_arena_lend.Session.Protocol.Objects.Balance.{
  accounted, IsBalanced, lends-IsBalanced, borrows-IsBalanced, gives_back-IsBalanced, below_top,
  has_use,
}

zero_or_more : (n : ℕ) → (n ≡ 0) ⊎ (0 < n)
zero_or_more zero = inl refl
zero_or_more (suc n) = inr (omega arith)

-- A return that finds its object, and one that does not.
takes_back-found :
    (s : Link) (h : Handle)
    → 0 < count h s.returns
    → 0 < lender_uses s.lender.session_data h
    → IsBalanced s
    → IsBalanced (delivered s h)
unfolding IsBalanced accounted receive_object_return late
takes_back-found s h l u b k =
    let (x, y) = b k in
    let out = count-take_out h k s.returns l in
    let top = below_top s.lender.session_data h (b h).1 in
    let law = lender_uses-deregister_lender_object s.lender.session_data h k u top in
    let found = deregister_lender_object-is_some s.lender.session_data h u in
    (
      ground (arith, x, law, out, found),
      is_counted-deregister_lender_object s.lender.session_data h k u top y,
    )

takes_back-late :
    (s : Link) (h : Handle)
    → 0 < count h s.returns
    → lender_uses s.lender.session_data h ≡ 0
    → IsBalanced s
    → IsBalanced (delivered s h)
unfolding IsBalanced accounted receive_object_return late
takes_back-late s h l z b k =
    let (x, y) = b k in
    let (v, w) = b h in
    let out = count-take_out h k s.returns l in
    let (law, none_there) =
      entry-deregister_none s.lender.session_data h k (has_use s.lender.session_data h w z) in
    let (uses, counted) =
      same_entry s.lender.session_data (delivered s h).lender.session_data k law in
    elim (Bool-cases (same h k)) [
      | inl is ↦
          let given : 0 < s.withdrawn k =
            subst (λ x. 0 < s.withdrawn x) (same-≡ h k is) (omega arith) in
          (ground (arith, x, out, uses, none_there, is, given), counted ∙ y)
      | inr isnt ↦ (ground (arith, x, out, uses, none_there, isnt), counted ∙ y)
    ]

takes_back-IsBalanced :
    (s : Link) (h : Handle) → 0 < count h s.returns → IsBalanced s → IsBalanced (delivered s h)
takes_back-IsBalanced s h l b = elim (zero_or_more (lender_uses s.lender.session_data h)) [
  | inl z ↦ takes_back-late s h l z b
  | inr u ↦ takes_back-found s h l u b
]

removes_pool-IsBalanced :
    (s : Link) (id : ℕ) (p : Pool) (o : SendOutcome)
    → IsBalanced s
    → IsBalanced (record s {
      lender = (remove_lender_shm_pool s.lender id p o).0;
      withdrawn = withdraw s.lender.session_data id p.id s.withdrawn;
    })
unfolding IsBalanced accounted withdraw lender_uses is_counted
removes_pool-IsBalanced s id p o b k =
    let (x, y) = b k in
    let law = entry-remove_lender_shm_pool s.lender id p o k in
    elim (Bool-cases (in_pool id p.id k)) [
      | inl i ↦ (ground (arith, law, i, x), ground (arith, law, i))
      | inr i ↦ (ground (arith, law, i, x), ground (arith, law, i, y))
    ]

Step-IsBalanced : {s t : Link} → Step s t → IsBalanced s → IsBalanced t
unfolding IsBalanced accounted
Step-IsBalanced {s} (lends pools object h l e u) b = lends-IsBalanced s pools object h l e u b
Step-IsBalanced {s} (borrows h l t) b = borrows-IsBalanced s h l t b
Step-IsBalanced {s} (gives_back h o l) b = gives_back-IsBalanced s h o l b
Step-IsBalanced {s} (takes_back h l) b = takes_back-IsBalanced s h l b
Step-IsBalanced {s} (disconnects x y) b = b
Step-IsBalanced {s} (adds_arena id) b = λ k.
    let d = s.lender.session_data in
    let (uses, counted) =
      same_entry d (register_lender_collection d id).0 k
        (entry-register_lender_collection d id k) in
    rw (borrower_uses-register_borrower_collection s.borrower.session_data id k, uses, counted)
      (b k)
Step-IsBalanced {s} (adds_pool id p q) b = λ k.
    let d = s.lender.session_data in
    let (uses, counted) =
      same_entry d (register_lender_shm_pool d id p).0 k
        (entry-register_lender_shm_pool d id p k) in
    rw (borrower_uses-register_borrower_shm_pool s.borrower.session_data id q k, uses, counted)
      (b k)
Step-IsBalanced {s} (removes_pool id p o) b = removes_pool-IsBalanced s id p o b
Step-IsBalanced {s} (forgets_pool id i) b =
    λ k. rw (borrower_uses-deregister_borrower_shm_pool s.borrower.session_data id i k) (b k)

-- In every state that the two sides reach, an object being lent and borrowed only while its count on
-- that side is below 2 ^ 32 - 1: the uses at the borrower, the handles and the returns in flight and the
-- losses of an object are together as many as its uses at the lender and those that the lender gave up
-- with a
-- removed pool, less the returns since that found no object; and an entry at the lender has a
-- count that is not 0 and fits 32 bits.
pub Reach-IsBalanced : {s : Link} → Reach s → IsBalanced s
unfolding IsBalanced accounted start fresh count borrower_uses session_uses lender_uses is_counted
    entry find
Reach-IsBalanced here = λ h. (ground arith, ground arith)
Reach-IsBalanced (next r x) = Step-IsBalanced x (Reach-IsBalanced r)
