-- ===== src/Session/Protocol/Objects/Uses.antt =====
-- The uses of an object on either side of a session, through the operations of
-- session/standalone/shm/arena_lend/shm_session_data.cpp.
use ipc_shm_arena_lend.Base.{
  ℕ, ◌≡◌, ◌+◌, ◌<◌, ◌^◌, true, some, [], if◌then◌else◌, arith, Option-cases, Bool-cases, inl, inr,
  subst,
}
use ipc_shm_arena_lend.Base.Dict.{Dict, find, is_some, find-assign, find-emplace}
use ipc_shm_arena_lend.Pool.{Pool}
use ipc_shm_arena_lend.Pool.Divisible.{DivisiblePool}
use ipc_shm_arena_lend.AddressMap.{divisible_like}
use ipc_shm_arena_lend.Session.Lender.{ObjectData, PoolData, LenderCollection, register_object_at}
use ipc_shm_arena_lend.Session.Lender as Lender
use ipc_shm_arena_lend.Session.Borrower.{BorrowerCollection}
use ipc_shm_arena_lend.Session.Borrower as Borrower
use ipc_shm_arena_lend.Session.Borrower.Counts.{uses, uses-deregister_object}
use ipc_shm_arena_lend.Session.Data.{
  SessionData, put_lender, put_borrower, register_lender_object, deregister_lender_object,
  register_borrower_collection, register_borrower_shm_pool, deregister_borrower_shm_pool,
  deregister_borrower_object, construct_and_register_borrower_object,
}
use ipc_shm_arena_lend.Session.Data.Lending.{
  session_uses, session_uses-construct_and_register_borrower_object,
}
use ipc_shm_arena_lend.Session.Protocol.Objects.{Handle, same, entry, lender_uses, borrower_uses}
use ipc_shm_arena_lend.Session.Protocol.Objects.Counts.{
  lent_uses, lent_uses-register_object, lent_uses-deregister_object, uses-deregister_shm_pool,
  uses-register_shm_pool,
}

pub lender_uses-register_lender_object :
    (pools : Dict DivisiblePool) (s : SessionData) (object : ℕ) (h k : Handle)
    → (register_lender_object pools s h.collection_id object).1 ≡ some (h.shm_pool_id, h.offset)
    → lender_uses s h + 1 < 2 ^ 32
    → lender_uses (register_lender_object pools s h.collection_id object).0 k
      ≡ (if same h k then 1 else 0) + lender_uses s k
unfolding lender_uses entry lent_uses register_lender_object put_lender same
lender_uses-register_lender_object pools s object h k r l =
    elim (Option-cases (find h.collection_id s.lender_collection_map)) [
      | inl out ↦ absurd (ground (arith, r, out))
      | inr (c, e) ↦
          let c' = (Lender.register_object pools c object).0 in
          let law =
            lent_uses-register_object pools c object h.shm_pool_id h.offset k.shm_pool_id k.offset
              (ground (arith, r, e)) (ground (arith, l, e)) in
          ground
            (arith, e, law, find-assign h.collection_id k.collection_id c' s.lender_collection_map)
    ]

same-fields :
    (h k : Handle)
    → same h k ≡ true
    → (h.collection_id ≡ k.collection_id) × (h.shm_pool_id ≡ k.shm_pool_id) × (h.offset ≡ k.offset)
unfolding same
same-fields h k e = (ground arith, ground arith, ground arith)

pub same-≡ : (h k : Handle) → same h k ≡ true → h ≡ k
same-≡ h k e =
    let (a, b, c) = same-fields h k e in
    λ i. record { collection_id = a i; shm_pool_id = b i; offset = c i }

pub lender_uses-deregister_lender_object :
    (s : SessionData) (h k : Handle)
    → 0 < lender_uses s h
    → lender_uses s h < 2 ^ 32
    → (if same h k then 1 else 0)
        + lender_uses (deregister_lender_object s h.collection_id h.shm_pool_id h.offset).0 k
      ≡ lender_uses s k
unfolding lender_uses entry lent_uses deregister_lender_object put_lender same
lender_uses-deregister_lender_object s h k l u =
    elim (Option-cases (find h.collection_id s.lender_collection_map)) [
      | inl out ↦ absurd (ground (arith, l, out))
      | inr (c, e) ↦
          let c' = (Lender.deregister_object c h.shm_pool_id h.offset).0 in
          let law =
            lent_uses-deregister_object c h.shm_pool_id h.offset k.shm_pool_id k.offset
              (ground (arith, l, e)) (ground (arith, u, e)) in
          elim (Bool-cases (same h k)) [
            | inl is ↦
                let one : 0 < lender_uses s k =
                  subst (λ x. 0 < lender_uses s x) (same-≡ h k is) l in
                ground (
                  arith,
                  e,
                  law,
                  is,
                  one,
                  find-assign h.collection_id k.collection_id c' s.lender_collection_map,
                )
            | inr isnt ↦ ground (
              arith,
              e,
              law,
              isnt,
              find-assign h.collection_id k.collection_id c' s.lender_collection_map,
            )
          ]
    ]

pub borrower_uses-construct_and_register_borrower_object :
    (s : SessionData) (h k : Handle)
    → borrower_uses s h + 1 < 2 ^ 32
    → let (s', object) =
        construct_and_register_borrower_object s h.collection_id h.shm_pool_id h.offset in
      borrower_uses s' k
      ≡ (if is_some object then if same h k then 1 else 0 else 0) + borrower_uses s k
unfolding borrower_uses same
borrower_uses-construct_and_register_borrower_object s h k l = ground (
  arith,
  session_uses-construct_and_register_borrower_object s h.collection_id h.shm_pool_id h.offset
      k.collection_id k.shm_pool_id k.offset l,
)

pub borrower_uses-deregister_borrower_object :
    (s : SessionData) (h k : Handle)
    → 0 < borrower_uses s h
    → (if same h k then 1 else 0)
        + borrower_uses (deregister_borrower_object s h.collection_id h.shm_pool_id h.offset).0 k
      ≡ borrower_uses s k
unfolding borrower_uses session_uses same deregister_borrower_object put_borrower
borrower_uses-deregister_borrower_object s h k l =
    elim (Option-cases (find h.collection_id s.borrower_collection_map)) [
      | inl out ↦ absurd (ground (arith, l, out))
      | inr (c, e) ↦
          let c' = (Borrower.deregister_object c h.shm_pool_id h.offset).0 in
          let law = uses-deregister_object c h.shm_pool_id h.offset k.shm_pool_id k.offset in
          elim (Bool-cases (same h k)) [
            | inl is ↦
                let one : 0 < borrower_uses s k =
                  subst (λ x. 0 < borrower_uses s x) (same-≡ h k is) l in
                ground (
                  arith,
                  e,
                  law,
                  is,
                  one,
                  find-assign h.collection_id k.collection_id c' s.borrower_collection_map,
                )
            | inr isnt ↦ ground (
              arith,
              e,
              law,
              isnt,
              find-assign h.collection_id k.collection_id c' s.borrower_collection_map,
            )
          ]
    ]

pub borrower_uses-deregister_borrower_shm_pool :
    (s : SessionData) (id shm_pool_id : ℕ) (k : Handle)
    → borrower_uses (deregister_borrower_shm_pool s id shm_pool_id).0 k ≡ borrower_uses s k
unfolding borrower_uses session_uses deregister_borrower_shm_pool put_borrower
borrower_uses-deregister_borrower_shm_pool s id shm_pool_id k =
    elim (Option-cases (find id s.borrower_collection_map)) [
      | inl out ↦ ground (arith, out)
      | inr (c, e) ↦
          let c' = (Borrower.deregister_shm_pool c shm_pool_id).0 in
          let law = uses-deregister_shm_pool c shm_pool_id k.shm_pool_id k.offset in
          ground (arith, e, law, find-assign id k.collection_id c' s.borrower_collection_map)
    ]

pub borrower_uses-register_borrower_shm_pool :
    (s : SessionData) (id : ℕ) (p : Pool) (k : Handle)
    → borrower_uses (register_borrower_shm_pool s id p).0 k ≡ borrower_uses s k
unfolding borrower_uses session_uses register_borrower_shm_pool put_borrower
borrower_uses-register_borrower_shm_pool s id p k =
    elim (Option-cases (find id s.borrower_collection_map)) [
      | inl out ↦ ground (arith, out)
      | inr (c, e) ↦
          let c' = (Borrower.register_shm_pool c p).0 in
          let law = uses-register_shm_pool c p k.shm_pool_id k.offset in
          ground (arith, e, law, find-assign id k.collection_id c' s.borrower_collection_map)
    ]

pub borrower_uses-register_borrower_collection :
    (s : SessionData) (id : ℕ) (k : Handle)
    → borrower_uses (register_borrower_collection s id).0 k ≡ borrower_uses s k
unfolding borrower_uses session_uses uses find register_borrower_collection
borrower_uses-register_borrower_collection s id k =
    let c : BorrowerCollection = [] in
    let law = find-emplace id k.collection_id c s.borrower_collection_map in ground (arith, law)
