-- ===== src/Tests/Registries.antt =====
-- The registry of borrowed pools on concrete input.
use ipc_shm_arena_lend.Base.{ℕ, ◌≡◌, refl, true, none, some, [], ◌∷◌}
use ipc_shm_arena_lend.Base.Dict.{find, emplace}
use ipc_shm_arena_lend.AddressMap.{emplace_ordered}
use ipc_shm_arena_lend.Repository.{empty, insert}
use ipc_shm_arena_lend.Collection.Borrower.{OpenOutcome, open_shm_pool}
use ipc_shm_arena_lend.Session.Registry.{
  CollectionData, OwnerData, Registry, ReleaseOutcome, find_collection, register_shm_pool,
  deregister_shm_pool,
}
use ipc_shm_arena_lend.Session.Registry.Undo.{register_shm_pool-none}
use ipc_shm_arena_lend.Session.Registry.Return.{deregister_shm_pool-register_shm_pool}
use ipc_shm_arena_lend.Tests.{counter, pool_a}

abbrev pub no_borrowed : CollectionData ℕ
no_borrowed = record { uses = 1; collection = []; shm_pool_ids = [] }

abbrev pub one_collection : OwnerData ℕ
one_collection = record { uses = 1; collection_data_map = (4, no_borrowed) ∷ [] }

-- The owner 9 has the collection 4.
abbrev pub registry : Registry ℕ
registry = record { owner_data_map = (9, one_collection) ∷ []; shm_pool_repository = empty }

abbrev unmappable : OpenOutcome
unmappable = record { opened = some 3; mapped = λ p. none; unmapped = true; closed = true }

abbrev pub mappable : OpenOutcome
mappable = record { opened = some 3; mapped = λ p. some 4096; unmapped = true; closed = true }

abbrev pub well : ReleaseOutcome
well = record { unmapped = true; closed = true }

fails : (register_shm_pool registry 9 4 1 "a" 4096 unmappable well).1 ≡ none
unfolding register_shm_pool open_shm_pool find
fails = refl

register_shm_pool-none_example :
    (register_shm_pool registry 9 4 1 "a" 4096 unmappable well).0 ≡ registry
register_shm_pool-none_example =
    register_shm_pool-none registry 9 4 1 "a" 4096 unmappable well fails

pub succeeds : (register_shm_pool registry 9 4 1 "a" 4096 mappable well).1 ≡ some pool_a
unfolding register_shm_pool open_shm_pool find emplace_ordered insert emplace empty
succeeds = refl

pub finds : find_collection registry 9 4 ≡ some (one_collection, no_borrowed)
unfolding find_collection find
finds = refl

pub unregistered : find 1 no_borrowed.shm_pool_ids ≡ none
unfolding find
unregistered = refl

deregister_shm_pool-register_shm_pool_example :
    let r = (register_shm_pool registry 9 4 1 "a" 4096 mappable well).0 in
    let (r', deregistered, effects) = deregister_shm_pool r 9 4 1 well in
    (deregistered ≡ true) × (r' ≡ registry)
deregister_shm_pool-register_shm_pool_example =
    deregister_shm_pool-register_shm_pool registry 9 4 1 "a" 4096 mappable well well one_collection
      no_borrowed pool_a finds unregistered succeeds
