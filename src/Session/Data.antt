-- ===== src/Session/Data.antt =====
-- session/standalone/shm/arena_lend/shm_session_data.hpp and .cpp (class `Shm_session_data`): the lender
-- and borrower collections of a session, by their IDs. The mutexes make each operation one step. The
-- pools of the arena that a lender collection refers to are an argument.
pub mod Lending
use ipc_shm_arena_lend.Base.{ℕ, Bool, true, false, Option, none, some, []}
use ipc_shm_arena_lend.Base.Dict.{Dict, find, erase, assign, emplace, is_some}
use ipc_shm_arena_lend.Base.Words.{sign_extend}
use ipc_shm_arena_lend.Pool.{Pool}
use ipc_shm_arena_lend.Pool.Divisible.{DivisiblePool}
use ipc_shm_arena_lend.Collection.Borrower.{construct}
use ipc_shm_arena_lend.Session.Borrower.{BorrowerCollection, find_shm_pool}
use ipc_shm_arena_lend.Session.Borrower as Borrower
use ipc_shm_arena_lend.Session.Lender.{LenderCollection}
use ipc_shm_arena_lend.Session.Lender as Lender

pub record SessionData : Type 0 where
  pub lender_collection_map : Dict LenderCollection
  pub borrower_collection_map : Dict BorrowerCollection

unfoldable pub put_lender : SessionData → ℕ → LenderCollection → SessionData
put_lender s id c = record s { lender_collection_map = assign id c s.lender_collection_map }

unfoldable pub put_borrower : SessionData → ℕ → BorrowerCollection → SessionData
put_borrower s id c = record s { borrower_collection_map = assign id c s.borrower_collection_map }

unfoldable pub register_lender_collection : SessionData → ℕ → SessionData × Bool
register_lender_collection s id =
    let (m, registered) = emplace id [] s.lender_collection_map in
    (record s { lender_collection_map = m }, registered)

unfoldable pub deregister_lender_collection : SessionData → ℕ → SessionData × Bool
deregister_lender_collection s id = (
  record s { lender_collection_map = erase id s.lender_collection_map },
  is_some (find id s.lender_collection_map),
)

unfoldable pub register_lender_shm_pool : SessionData → ℕ → Pool → SessionData × Bool
unfolding put_lender
register_lender_shm_pool s id p = elim (find id s.lender_collection_map) [
  | none ↦ (s, false)
  | some c ↦ let (c', registered) = Lender.register_shm_pool c p in (put_lender s id c', registered)
]

-- None where the code returns false, and otherwise the out-argument `was_empty`.
unfoldable pub deregister_lender_shm_pool : SessionData → ℕ → Pool → SessionData × Option Bool
unfolding put_lender
deregister_lender_shm_pool s id p = elim (find id s.lender_collection_map) [
  | none ↦ (s, none)
  | some c ↦
      let (c', was_empty) = Lender.deregister_shm_pool c p.id in (put_lender s id c', was_empty)
]

-- The pool's ID and the offset, where it succeeds.
unfoldable pub register_lender_object :
    Dict DivisiblePool → SessionData → ℕ → ℕ → SessionData × Option (ℕ × ℕ)
unfolding put_lender
register_lender_object pools s id object = elim (find id s.lender_collection_map) [
  | none ↦ (s, none)
  | some c ↦
      let (c', registered) = Lender.register_object pools c object in
      (put_lender s id c', registered)
]

unfoldable pub deregister_lender_object : SessionData → ℕ → ℕ → ℕ → SessionData × Option ℕ
unfolding put_lender
deregister_lender_object s id shm_pool_id offset = elim (find id s.lender_collection_map) [
  | none ↦ (s, none)
  | some c ↦
      let (c', object) = Lender.deregister_object c shm_pool_id offset in
      (put_lender s id c', object)
]

unfoldable pub register_borrower_collection : SessionData → ℕ → SessionData × Bool
register_borrower_collection s id =
    let (m, registered) = emplace id [] s.borrower_collection_map in
    (record s { borrower_collection_map = m }, registered)

unfoldable pub register_borrower_shm_pool : SessionData → ℕ → Pool → SessionData × Bool
unfolding put_borrower
register_borrower_shm_pool s id p = elim (find id s.borrower_collection_map) [
  | none ↦ (s, false)
  | some c ↦
      let (c', registered) = Borrower.register_shm_pool c p in (put_borrower s id c', registered)
]

unfoldable pub deregister_borrower_shm_pool : SessionData → ℕ → ℕ → SessionData × Bool
unfolding put_borrower
deregister_borrower_shm_pool s id shm_pool_id = elim (find id s.borrower_collection_map) [
  | none ↦ (s, false)
  | some c ↦
      let (c', pool) = Borrower.deregister_shm_pool c shm_pool_id in
      (put_borrower s id c', is_some pool)
]

unfoldable pub deregister_borrower_object : SessionData → ℕ → ℕ → ℕ → SessionData × Bool
unfolding put_borrower
deregister_borrower_object s id shm_pool_id offset = elim (find id s.borrower_collection_map) [
  | none ↦ (s, false)
  | some c ↦
      let (c', deregistered) = Borrower.deregister_object c shm_pool_id offset in
      (put_borrower s id c', deregistered)
]

-- The part of `construct_and_register_borrower_object` for a collection: the new registrations, and the
-- address of the object or null. A registration is taken back where the construction fails.
unfoldable pub construct_registered : BorrowerCollection → ℕ → ℕ → BorrowerCollection × Option ℕ
construct_registered c shm_pool_id offset = elim (find_shm_pool c shm_pool_id) [
  | none ↦ (c, none)
  | some p ↦
      let (c', registered) = Borrower.register_object c shm_pool_id offset in
      let (c'', deregistered) = Borrower.deregister_object c' shm_pool_id offset in
      elim registered [
        | false ↦ (c', none)
        | true ↦ elim (construct p.address (sign_extend offset)) [
          | none ↦ (c'', none)
          | some object ↦ (c', some object)
        ]
      ]
]

unfoldable pub construct_and_register_borrower_object :
    SessionData → ℕ → ℕ → ℕ → SessionData × Option ℕ
unfolding put_borrower construct_registered
construct_and_register_borrower_object s id shm_pool_id offset =
    elim (find id s.borrower_collection_map) [
      | none ↦ (s, none)
      | some c ↦
          let (c', object) = construct_registered c shm_pool_id offset in
          (put_borrower s id c', object)
    ]
