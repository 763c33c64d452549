-- ===== src/Session/Protocol/Borrow/Lifetime.antt =====
-- A session of the borrower from its begin to its end, in session/standalone/shm/arena_lend/jemalloc/shm_session.cpp, and the
-- owners in the registry of the process.
use ipc_shm_arena_lend.Base.{
  ℕ, ◌≡◌, Bool, false, List, [], if◌then◌else◌, arith, ◌==◌, Option-cases, inl, inr, ◌+◌, ◌-◌,
}
use ipc_shm_arena_lend.Base.Dict.{find, find-assign, find-erase, find-emplace}
use ipc_shm_arena_lend.Repository.Borrower.{UseCounted}
use ipc_shm_arena_lend.Session.Registry.{
  Registry, OwnerData, ReleaseOutcome, register_owner, deregister_owner,
}
use ipc_shm_arena_lend.Session.Data.{SessionData}
use ipc_shm_arena_lend.Session.Protocol.Borrow.{release_collections, begin_session, end_session}
use ipc_shm_arena_lend.Session.Registry.Uses.{owner_uses, Keeps-trans, elsewhere}
use ipc_shm_arena_lend.Session.Protocol.Borrow.Messages.{
  Incoming, receive_all, receive_all-Keeps, release_collections-Keeps,
}

back_to_before : (n a c m : ℕ) → a ≡ n + 1 → c ≡ a → m ≡ c - 1 → m ≡ n
back_to_before n a c m p q e = omega arith

unchanged :
    {A : Type 0} {b : Bool} (x a c y : A)
    → b ≡ false
    → a ≡ (if b then a else x)
    → c ≡ a
    → y ≡ (if b then y else c)
    → y ≡ x
unchanged x a c y n p q e = ground arith

module _ {C : Type 0} ⦃u : UseCounted C⦄ where
  begin_session-uses :
      (r : Registry C) (owner k : ℕ)
      → (owner_uses (begin_session r owner).owner_data_map owner
          ≡ owner_uses r.owner_data_map owner + 1)
        × (find k (begin_session r owner).owner_data_map ≡ (
            if owner == k
            then find k (begin_session r owner).owner_data_map
            else find k r.owner_data_map))
  unfolding begin_session register_owner owner_uses
  begin_session-uses r owner k = elim (Option-cases (find owner r.owner_data_map)) [
    | inl absent ↦
        let new : OwnerData C = record { uses = u.new_use; collection_data_map = [] } in
        (
          ground (arith, absent, u.new_count, find-emplace owner owner new r.owner_data_map),
          ground (arith, absent, find-emplace owner k new r.owner_data_map),
        )
    | inr (d, here) ↦
        let more = record d { uses = u.increment_use d.uses } in
        (
          ground (
            arith,
            here,
            u.increment_count d.uses,
            find-assign owner owner more r.owner_data_map,
          ),
          ground (arith, here, find-assign owner k more r.owner_data_map),
        )
  ]

  deregister_owner-uses :
      (r : Registry C) (owner k : ℕ)
      → (owner_uses (deregister_owner r owner).0.owner_data_map owner
          ≡ owner_uses r.owner_data_map owner - 1)
        × (find k (deregister_owner r owner).0.owner_data_map ≡ (
            if owner == k
            then find k (deregister_owner r owner).0.owner_data_map
            else find k r.owner_data_map))
  unfolding deregister_owner owner_uses
  deregister_owner-uses r owner k = elim (Option-cases (find owner r.owner_data_map)) [
    | inl absent ↦ (ground (arith, absent), ground (arith, absent))
    | inr (d, here) ↦
        let less = record d { uses = u.decrement_use d.uses } in
        (
          ground (
            arith,
            here,
            u.decrement_count d.uses,
            find-assign owner owner less r.owner_data_map,
            find-erase owner owner r.owner_data_map,
          ),
          ground (
            arith,
            here,
            find-assign owner k less r.owner_data_map,
            find-erase owner k r.owner_data_map,
          ),
        )
  ]

  -- The whole life of a session: it begins, receives messages in any order, and ends.
  unfoldable pub live : Registry C → SessionData → ℕ → List Incoming → ReleaseOutcome → Registry C
  unfolding begin_session receive_all end_session
  live r d owner xs o =
      let (r', d') = receive_all (begin_session r owner) d owner xs in (end_session r' d' owner o).0

  -- The end of a session, over the collections and then the owner.
  end_session-registry :
      (r : Registry C) (d : SessionData) (owner : ℕ) (o : ReleaseOutcome)
      → (end_session r d owner o).0
        ≡ (deregister_owner (release_collections r owner d.borrower_collection_map o).0 owner).0
  unfolding end_session
  end_session-registry r d owner o = ground arith

  -- A session that begins, receives any messages about arenas and pools, and ends, leaves the registry with
  -- as many sessions of each owner as before, and with the same data of every other owner, whatever the
  -- registry and the system answered on the way.
  pub owner_uses-live :
      (r : Registry C) (d : SessionData) (owner k : ℕ) (xs : List Incoming) (o : ReleaseOutcome)
      → (owner_uses (live r d owner xs o).owner_data_map k ≡ owner_uses r.owner_data_map k)
        × (find k (live r d owner xs o).owner_data_map ≡ (
            if owner == k
            then find k (live r d owner xs o).owner_data_map
            else find k r.owner_data_map))
  unfolding live
  owner_uses-live r d owner k xs o =
      let a = begin_session r owner in
      let s = receive_all a d owner xs in
      let c = (release_collections s.0 owner s.1.borrower_collection_map o).0 in
      let w =
        Keeps-trans owner a s.0 c (receive_all-Keeps a d owner xs)
          (release_collections-Keeps s.0 owner s.1.borrower_collection_map o) in
      let first = begin_session-uses r owner k in
      let last = deregister_owner-uses c owner k in
      let end = end_session-registry s.0 s.1 owner o in
      let uses : owner_uses (deregister_owner c owner).0.owner_data_map owner
          ≡ owner_uses r.owner_data_map owner =
        back_to_before _ _ _ _ first.0 w.uses last.0 in
      rw end (
        elsewhere owner k _ r.owner_data_map uses
          (λ n. unchanged _ _ _ _ n first.1 (w.others k n) last.1))
