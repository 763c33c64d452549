-- ===== src/Session/Data/Lending.antt =====
-- Lending and borrowing by way of session/standalone/shm/arena_lend/shm_session_data.hpp and .cpp.
use ipc_shm_arena_lend.Base.{
  ℕ, ◌≡◌, ◌+◌, ◌-◌, ◌<◌, ◌^◌, ◌∙◌, true, none, some, arith, if◌then◌else◌, ◌==◌, Option-cases, inl,
  inr, ◌&&◌,
}
use ipc_shm_arena_lend.Base.Dict.{Dict, find, is_some, find-assign}
use ipc_shm_arena_lend.Base.Words.{sign_extend}
use ipc_shm_arena_lend.Pool.{Pool, IsValid, determine_offset}
use ipc_shm_arena_lend.Pool.Range.{determine_offset-Contains}
use ipc_shm_arena_lend.Pool.Divisible.{DivisiblePool}
use ipc_shm_arena_lend.AddressMap.{divisible_like}
use ipc_shm_arena_lend.AddressMap.Layout.{IsLaidOut}
use ipc_shm_arena_lend.Collection.{lookup_shm_pool}
use ipc_shm_arena_lend.Collection.Owner.Remove.{lookup_shm_pool-find}
use ipc_shm_arena_lend.Collection.Borrower.{construct}
use ipc_shm_arena_lend.Session.Borrower.{BorrowerCollection, find_shm_pool}
use ipc_shm_arena_lend.Session.Borrower as Borrower
use ipc_shm_arena_lend.Session.Borrower.Counts.{uses, uses-register_object, uses-deregister_object}
use ipc_shm_arena_lend.Session.Lender.{LenderCollection, register_object}
use ipc_shm_arena_lend.Session.Data.{
  SessionData, construct_registered, construct_and_register_borrower_object, register_lender_object,
  put_borrower,
}

-- Constructing a borrowed object adds one use of it where an address is returned; where null is
-- returned the uses are as before, also after a registration that was taken back.
uses-construct_registered :
    (c : BorrowerCollection) (shm_pool_id offset i o : ℕ)
    → uses c shm_pool_id offset + 1 < 2 ^ 32
    → let (c', object) = construct_registered c shm_pool_id offset in
      uses c' i o ≡ (
        if is_some object && (shm_pool_id == i) && (offset == o)
        then uses c i o + 1
        else uses c i o)
unfolding construct_registered
uses-construct_registered c id offset i o h =
    let (ok, up) = uses-register_object c id offset i o h in
    let c' = (Borrower.register_object c id offset).0 in
    let down = uses-deregister_object c' id offset i o in
    elim (Option-cases (find_shm_pool c id)) [
      | inl out ↦ ground (arith, out)
      | inr (p, e) ↦
          let registered : (Borrower.register_object c id offset).1 ≡ true =
            ground (arith, ok, e) in
          elim (Option-cases (construct p.address (sign_extend offset))) [
            | inl failed ↦ ground (arith, e, registered, failed, up, down)
            | inr (object, made) ↦ ground (arith, e, registered, made, up)
          ]
    ]

-- The uses of a borrowed object of a session, 0 where its collection is not registered.
unfoldable pub session_uses : SessionData → ℕ → ℕ → ℕ → ℕ
session_uses s collection_id shm_pool_id offset =
    elim (find collection_id s.borrower_collection_map) [
      | none ↦ 0
      | some c ↦ uses c shm_pool_id offset
    ]

-- Below the width of the counter, `construct_and_register_borrower_object` adds one use of its object
-- where it returns an address, and where it returns null, at whatever step, all uses are as before; no
-- other object of the session is concerned.
pub session_uses-construct_and_register_borrower_object :
    (s : SessionData) (collection_id shm_pool_id offset j i o : ℕ)
    → session_uses s collection_id shm_pool_id offset + 1 < 2 ^ 32
    → let (s', object) =
        construct_and_register_borrower_object s collection_id shm_pool_id offset in
      session_uses s' j i o ≡ (
        if is_some object
        then if (collection_id == j) && (shm_pool_id == i) && (offset == o)
          then session_uses s j i o + 1
          else session_uses s j i o
        else session_uses s j i o)
unfolding session_uses construct_and_register_borrower_object put_borrower
session_uses-construct_and_register_borrower_object s collection_id id offset j i o h =
    elim (Option-cases (find collection_id s.borrower_collection_map)) [
      | inl out ↦ ground (arith, out)
      | inr (c, e) ↦
          let law = uses-construct_registered c id offset i o (ground (arith, h, e)) in
          let c' = (construct_registered c id offset).0 in
          ground (arith, e, law, find-assign collection_id j c' s.borrower_collection_map)
    ]

register_object-find_shm_pool :
    (c : BorrowerCollection) (id offset : ℕ)
    → (Borrower.register_object c id offset).1 ≡ is_some (find_shm_pool c id)
unfolding Borrower.register_object find_shm_pool
register_object-find_shm_pool c id offset = elim (Option-cases (find id c)) [
  | inl out ↦ ground (arith, out)
  | inr (d, e) ↦ ground (arith, e)
]

lent_offset :
    (pools : Dict DivisiblePool) (c : LenderCollection) (object id offset : ℕ) (p : DivisiblePool)
    → IsLaidOut pools
    → lookup_shm_pool pools object ≡ some p
    → (register_object pools c object).1 ≡ some (id, offset)
    → IsValid p.pool
      × (p.pool.id ≡ id)
      × (offset ≡ object - p.pool.address)
      × (offset < p.pool.size)
unfolding register_object
lent_offset pools c object id offset p l e h =
    let (_, v, k) = lookup_shm_pool-find pools object p l e in
    let d : determine_offset p.pool object ≡ some (object - p.pool.address) =
      determine_offset-Contains p.pool object v k in
    (v, ground (arith, h, e, d), ground (arith, h, e, d), ground (arith, h, e, d, k))

-- An object of the arena that a session lends arrives at the other side: where the borrower has the
-- pool of the same ID and size, mapped at an address of its own, constructing the object under the ID and
-- the offset that the lender returned succeeds, and the object is as far from the base of the
-- borrower's mapping as it is from the base of the lender's.
pub construct_and_register_borrower_object-register_lender_object :
    (pools : Dict DivisiblePool) (s t : SessionData) (lender borrower object id offset : ℕ)
    (p : DivisiblePool) (c : BorrowerCollection) (q : Pool)
    → IsLaidOut pools
    → lookup_shm_pool pools object ≡ some p
    → (register_lender_object pools s lender object).1 ≡ some (id, offset)
    → find borrower t.borrower_collection_map ≡ some c
    → find_shm_pool c id ≡ some q
    → IsValid q
    → q.size ≡ p.pool.size
    → (construct_and_register_borrower_object t borrower id offset).1
      ≡ some (q.address + (object - p.pool.address))
unfolding register_lender_object construct_and_register_borrower_object construct_registered
    construct sign_extend
construct_and_register_borrower_object-register_lender_object pools s t lender borrower object id
      offset p c q l e h f g v z =
    elim (Option-cases (find lender s.lender_collection_map)) [
      | inl out ↦ absurd (ground (arith, h, out))
      | inr (b, x) ↦
          let (w, same_id, same_offset, bound) =
            lent_offset pools b object id offset p l e (ground (arith, h, x)) in
          let k : (Borrower.register_object c id offset).1 ≡ true =
            register_object-find_shm_pool c id offset ∙ ground (arith, g) in
          ground (arith, f, g, k, same_offset, bound, v, z)
    ]
