-- ===== src/Session/Lender.antt =====
-- session/standalone/shm/arena_lend/lender_collection.hpp and .cpp (class `Lender_collection`): per
-- pool, the lent objects by their offsets. An object is the address that its pointer holds; that the
-- entry keeps the object alive is not modelled. The use counts are 32 bits wide.
pub mod Lend
use ipc_shm_arena_lend.Base.{
  ℕ, ◌+◌, ◌-◌, ◌%◌, ◌^◌, Bool, true, false, Option, none, some, List, [], ◌∷◌, if◌then◌else◌, ltb,
  ◌==◌,
}
use ipc_shm_arena_lend.Base.Dict.{Dict, find, erase, assign, emplace}
use ipc_shm_arena_lend.Pool.{Pool, determine_offset}
use ipc_shm_arena_lend.Pool.Divisible.{DivisiblePool}
use ipc_shm_arena_lend.AddressMap.{divisible_like}
use ipc_shm_arena_lend.Collection.{lookup_shm_pool}

-- `Object_data`
pub record ObjectData : Type 0 where
  pub object : ℕ
  pub use_count : ℕ

-- `Shm_pool_data`
pub record PoolData : Type 0 where
  pub pool : Pool
  pub object_data_map : Dict ObjectData

abbrev pub LenderCollection : Type 0
LenderCollection = Dict PoolData

unfoldable pub register_shm_pool : LenderCollection → Pool → LenderCollection × Bool
register_shm_pool c p = emplace p.id (record { pool = p; object_data_map = [] }) c

unfoldable pub is_empty : Dict ObjectData → Bool
is_empty [] = true
is_empty (_ ∷ _) = false

-- None where the pool is not registered, and otherwise whether it was empty; it goes either way.
unfoldable pub deregister_shm_pool : LenderCollection → ℕ → LenderCollection × Option Bool
unfolding is_empty
deregister_shm_pool c id = elim (find id c) [
  | none ↦ (c, none)
  | some d ↦ (erase id c, some (is_empty d.object_data_map))
]

-- `Shm_pool_data::register_object`: an object already there stays, with one more use.
unfoldable pub add_use : Dict ObjectData → ℕ → ℕ → Dict ObjectData
add_use m offset object = elim (find offset m) [
  | none ↦ (emplace offset (record { object = object; use_count = 1 }) m).0
  | some d ↦ assign offset (record d { use_count = (d.use_count + 1) % 2 ^ 32 }) m
]

-- `register_object` of a pool ID and an offset
unfoldable pub register_object_at : LenderCollection → ℕ → ℕ → ℕ → LenderCollection × Bool
unfolding add_use
register_object_at c id offset object = elim (find id c) [
  | none ↦ (c, false)
  | some d ↦
      (assign id (record d { object_data_map = add_use d.object_data_map offset object }) c, true)
]

-- `register_object` of an object, in the pools of the arena: the ID and the offset, where it succeeds.
unfoldable pub register_object :
    Dict DivisiblePool → LenderCollection → ℕ → LenderCollection × Option (ℕ × ℕ)
unfolding register_object_at
register_object pools c object = elim (lookup_shm_pool pools object) [
  | none ↦ (c, none)
  | some p ↦ elim (determine_offset p.pool object) [
    | none ↦ (c, none)
    | some offset ↦
        let (c', registered) = register_object_at c p.pool.id offset object in
        if registered then (c', some (p.pool.id, offset)) else (c, none)
  ]
]

-- `Shm_pool_data::deregister_object`: the object and whether its entry goes, for a given entry. The
-- decrement wraps around.
unfoldable pub drop_use : Dict ObjectData → ℕ → ObjectData → Dict ObjectData
drop_use m offset d =
    if d.use_count == 1
    then erase offset m
    else assign offset (record d { use_count = (d.use_count + (2 ^ 32 - 1)) % 2 ^ 32 }) m

unfoldable pub deregister_object : LenderCollection → ℕ → ℕ → LenderCollection × Option ℕ
unfolding drop_use
deregister_object c id offset = elim (find id c) [
  | none ↦ (c, none)
  | some d ↦ elim (find offset d.object_data_map) [
    | none ↦ (c, none)
    | some e ↦ (
      assign id (record d { object_data_map = drop_use d.object_data_map offset e }) c,
      some e.object,
    )
  ]
]
