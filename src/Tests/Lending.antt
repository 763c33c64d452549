-- ===== src/Tests/Lending.antt =====
-- A session's data on concrete input.
use ipc_shm_arena_lend.Base.{◌≡◌, ◌+◌, ◌-◌, refl, some, [], ◌∷◌, arith, if◌then◌else◌, ◌==◌, ◌&&◌}
use ipc_shm_arena_lend.Base.Dict.{is_some, find}
use ipc_shm_arena_lend.Base.Words.{add_offset}
use ipc_shm_arena_lend.Pool.{Pool, IsValid, determine_offset}
use ipc_shm_arena_lend.AddressMap.{divisible_like, lookup}
use ipc_shm_arena_lend.Collection.{lookup_shm_pool}
use ipc_shm_arena_lend.Session.Borrower.{BorrowerCollection, find_shm_pool}
use ipc_shm_arena_lend.Session.Borrower.Counts.{uses}
use ipc_shm_arena_lend.Session.Lender.{LenderCollection, register_object}
use ipc_shm_arena_lend.Session.Data.{
  SessionData, construct_and_register_borrower_object, register_lender_object,
}
use ipc_shm_arena_lend.Session.Data.Lending.{
  session_uses, session_uses-construct_and_register_borrower_object,
  construct_and_register_borrower_object-register_lender_object,
}
use ipc_shm_arena_lend.Tests.{pool_a, whole_a, two_pools, two_pools-IsLaidOut}

-- The borrower's mapping of the lender's first pool.
abbrev mapping : Pool
mapping = record { id = 1; name = "a"; address = 65536; size = 4096; fd = 5 }

mapping-IsValid : IsValid mapping
mapping-IsValid = record {
  id_pos = omega arith;
  id_bound = omega arith;
  address_pos = omega arith;
  size_pos = omega arith;
  size_bound = omega arith;
  end_bound = omega arith;
}

abbrev borrowed : BorrowerCollection
borrowed = (1, record { pool = mapping; offset_map = [] }) ∷ []

abbrev lent : LenderCollection
lent = (1, record { pool = pool_a; object_data_map = [] }) ∷ []

-- The lender's side has the collection 6, the borrower's the collection 6 of the other process.
abbrev lender_side : SessionData
lender_side = record { lender_collection_map = (6, lent) ∷ []; borrower_collection_map = [] }

abbrev borrower_side : SessionData
borrower_side = record { lender_collection_map = []; borrower_collection_map = (6, borrowed) ∷ [] }

holds_5000 : lookup_shm_pool two_pools 5000 ≡ some whole_a
unfolding lookup_shm_pool lookup determine_offset add_offset
holds_5000 = refl

lends_5000 : (register_lender_object two_pools lender_side 6 5000).1 ≡ some (1, 904)
unfolding register_lender_object register_object find lookup_shm_pool lookup determine_offset
    add_offset
lends_5000 = refl

finds_borrowed : find 6 borrower_side.borrower_collection_map ≡ some borrowed
unfolding find
finds_borrowed = refl

finds_mapping : find_shm_pool borrowed 1 ≡ some mapping
unfolding find_shm_pool find
finds_mapping = refl

construct_and_register_borrower_object-register_lender_object_example :
    (construct_and_register_borrower_object borrower_side 6 1 904).1 ≡ some (65536 + (5000 - 4096))
construct_and_register_borrower_object-register_lender_object_example =
    construct_and_register_borrower_object-register_lender_object two_pools lender_side
      borrower_side 6 6 5000 1 904 whole_a borrowed mapping two_pools-IsLaidOut holds_5000
      lends_5000 finds_borrowed finds_mapping mapping-IsValid refl

session_uses-construct_and_register_borrower_object_example :
    let (s, object) = construct_and_register_borrower_object borrower_side 6 1 904 in
    session_uses s 6 1 904 ≡ (
      if is_some object
      then if (6 == 6) && (1 == 1) && (904 == 904)
        then session_uses borrower_side 6 1 904 + 1
        else session_uses borrower_side 6 1 904
      else session_uses borrower_side 6 1 904)
unfolding session_uses find uses
session_uses-construct_and_register_borrower_object_example =
    session_uses-construct_and_register_borrower_object borrower_side 6 1 904 6 1 904 (omega arith)
