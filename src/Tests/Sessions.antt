-- ===== src/Tests/Sessions.antt =====
-- Lender and borrower collections of a session on concrete input.
use ipc_shm_arena_lend.Base.{◌≡◌, refl, true, some, [], ◌∷◌}
use ipc_shm_arena_lend.Base.Dict.{find}
use ipc_shm_arena_lend.Base.Words.{add_offset}
use ipc_shm_arena_lend.AddressMap.{lookup}
use ipc_shm_arena_lend.Collection.{lookup_shm_pool}
use ipc_shm_arena_lend.Pool.{to_address, determine_offset}
use ipc_shm_arena_lend.Pool.Divisible.{DivisiblePool}
use ipc_shm_arena_lend.Session.Borrower.{BorrowerCollection}
use ipc_shm_arena_lend.Session.Lender.{LenderCollection, register_object, register_object_at}
use ipc_shm_arena_lend.Session.Lender.Lend.{register_object-to_address}
use ipc_shm_arena_lend.Tests.{pool_a, two_pools, two_pools-IsLaidOut}

abbrev borrowed : BorrowerCollection
borrowed = (1, record { pool = pool_a; offset_map = (904, 2) ∷ [] }) ∷ []

abbrev nothing_lent : LenderCollection
nothing_lent = (1, record { pool = pool_a; object_data_map = [] }) ∷ []

abbrev one_lent : LenderCollection
one_lent =
    (
      1,
      record {
        pool = pool_a;
        object_data_map = (904, record { object = 5000; use_count = 2 }) ∷ [];
      },
    )
    ∷ []

found_5000 : (register_object two_pools nothing_lent 5000).1 ≡ some (1, 904)
unfolding register_object find lookup_shm_pool lookup determine_offset add_offset
found_5000 = refl

register_object-to_address_example :
    (p : DivisiblePool) × (find p.pool.address two_pools ≡ some p)
    × (p.pool.id ≡ 1)
    × (to_address p.pool 904 ≡ 5000)
    × (register_object_at nothing_lent 1 904 5000
        ≡ ((register_object two_pools nothing_lent 5000).0, true))
register_object-to_address_example =
    register_object-to_address two_pools nothing_lent 5000 1 904 two_pools-IsLaidOut found_5000
