-- ===== src/PoolId.antt =====
-- shm/arena_lend/detail/shm_pool_offset_ptr_data.cpp (`generate_pool_id`). The SHM object that holds
-- the last ID is `none` until some process creates it; its name and the mutex's are the same on the
-- whole machine. The two critical sections of the code, the one that opens or creates the object
-- and the one that takes the next ID, are two atomic steps; each runs under the named mutex.
pub mod Sequence
use ipc_shm_arena_lend.Base.{
  ℕ, ◌+◌, ◌*◌, ◌/◌, ◌%◌, ◌^◌, Bool, true, false, Option, none, some, ◌==◌, if◌then◌else◌,
}

-- `id = (++id_ref) << 1 >> 1`, and once more `++id_ref` with ID 1 where that is 0: the new content of
-- the region, and the ID.
unfoldable pub next_id : ℕ → ℕ × ℕ
next_id id_ref =
    let r = (id_ref + 1) % 2 ^ 32 in
    let id = r * 2 % 2 ^ 32 / 2 in if id == 0 then ((r + 1) % 2 ^ 32, 1) else (r, id)

-- The Boost.Interprocess call that throws in the first critical section, if one does.
pub data Fault : Type 0 where
  mutex_failed open_failed create_failed truncate_failed map_failed : Fault

-- What the first critical section leaves: the process is ready to take IDs, or it also took the
-- first one, or it aborts.
pub data Opened : Type 0 where
  ready : Opened
  first : ℕ → Opened
  aborted : Opened

-- Creation of the object, which was not found: created, sized, mapped and set to 1. A failure after
-- the creation leaves an object of unknown content behind.
unfoldable pub create_region : Option Fault → ℕ → Option ℕ × Opened
create_region none garbage = (some 1, first 1)
create_region (some create_failed) garbage = (none, aborted)
create_region (some truncate_failed) garbage = (some garbage, aborted)
create_region (some map_failed) garbage = (some garbage, aborted)
create_region (some f) garbage = (some 1, first 1)

-- An object that exists was initialized by its creator: it is opened and mapped.
unfoldable pub open_region : Option Fault → ℕ → Option ℕ × Opened
open_region (some map_failed) r = (some r, aborted)
open_region f r = (some r, ready)

-- The body of `call_once`. An error other than `not_found_error` is thrown on, and aborts.
unfoldable pub init_region : Option Fault → ℕ → Option ℕ → Option ℕ × Opened
unfolding create_region open_region
init_region (some mutex_failed) garbage region = (region, aborted)
init_region (some open_failed) garbage region = (region, aborted)
init_region fault garbage none = create_region fault garbage
init_region fault garbage (some r) = open_region fault r

-- The second critical section: the region, the `call_once` flag and the ID, or `none` for an abort.
unfoldable pub after_open : Option ℕ × Opened → Option ℕ × Bool × Option ℕ
unfolding next_id
after_open (region, first id) = (region, true, some id)
after_open (region, aborted) = (region, false, none)
after_open (some r, ready) = let (r', id) = next_id r in (some r', true, some id)
after_open (none, ready) = (none, true, none)

-- One `generate_pool_id` in a process with nobody else in between: the flag says whether the process
-- ran `call_once` before.
unfoldable pub generate_pool_id : Option Fault → ℕ → Bool → Option ℕ → Option ℕ × Bool × Option ℕ
unfolding init_region after_open
generate_pool_id fault garbage true region = after_open (region, ready)
generate_pool_id fault garbage false region = after_open (init_region fault garbage region)
