-- ===== src/Session/Borrower.antt =====
-- session/standalone/shm/arena_lend/borrower_collection.hpp and .cpp (class `Borrower_collection`):
-- per pool, the offsets of the borrowed objects with their use counts, which are 32 bits wide.
pub mod Counts
use ipc_shm_arena_lend.Base.{
  ℕ, ◌+◌, ◌-◌, ◌%◌, ◌^◌, Bool, true, false, Option, none, some, List, [], ◌∷◌, if◌then◌else◌, ltb,
  ◌==◌,
}
use ipc_shm_arena_lend.Base.Dict.{Dict, find, erase, assign, emplace}
use ipc_shm_arena_lend.Pool.{Pool}

-- `Shm_pool_data`
pub record PoolData : Type 0 where
  pub pool : Pool
  pub offset_map : Dict ℕ

abbrev pub BorrowerCollection : Type 0
BorrowerCollection = Dict PoolData

unfoldable pub register_shm_pool : BorrowerCollection → Pool → BorrowerCollection × Bool
register_shm_pool c p = emplace p.id (record { pool = p; offset_map = [] }) c

unfoldable pub deregister_found :
    BorrowerCollection → ℕ → Pool → Dict ℕ → BorrowerCollection × Option Pool
deregister_found c id p [] = (erase id c, some p)
deregister_found c id p (_ ∷ _) = (c, none)

-- A pool with objects left stays registered.
unfoldable pub deregister_shm_pool : BorrowerCollection → ℕ → BorrowerCollection × Option Pool
unfolding deregister_found
deregister_shm_pool c id = elim (find id c) [
  | none ↦ (c, none)
  | some d ↦ deregister_found c id d.pool d.offset_map
]

unfoldable pub find_shm_pool : BorrowerCollection → ℕ → Option Pool
find_shm_pool c id = elim (find id c) [ none ↦ none | some d ↦ some d.pool ]

-- One more use of the object at an offset.
unfoldable pub count_up : Dict ℕ → ℕ → Dict ℕ
count_up m offset = elim (find offset m) [
  | none ↦ (emplace offset 1 m).0
  | some use_count ↦ assign offset ((use_count + 1) % 2 ^ 32) m
]

unfoldable pub register_object : BorrowerCollection → ℕ → ℕ → BorrowerCollection × Bool
unfolding count_up
register_object c id offset = elim (find id c) [
  | none ↦ (c, false)
  | some d ↦ (assign id (record d { offset_map = count_up d.offset_map offset }) c, true)
]

-- One use fewer of an object that has this many: its entry goes with the last one.
unfoldable pub count_down : Dict ℕ → ℕ → ℕ → Dict ℕ
count_down m offset use_count =
    if ltb 1 use_count then assign offset (use_count - 1) m else erase offset m

unfoldable pub deregister_object : BorrowerCollection → ℕ → ℕ → BorrowerCollection × Bool
unfolding count_down
deregister_object c id offset = elim (find id c) [
  | none ↦ (c, false)
  | some d ↦ elim (find offset d.offset_map) [
    | none ↦ (c, false)
    | some use_count ↦
        (assign id (record d { offset_map = count_down d.offset_map offset use_count }) c, true)
  ]
]

unfoldable pub get_shm_pool_ids : BorrowerCollection → List ℕ
get_shm_pool_ids [] = []
get_shm_pool_ids ((id, _) ∷ c) = id ∷ get_shm_pool_ids c
