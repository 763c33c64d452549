-- ===== src/Arena/Process.antt =====
-- shm/arena_lend/jemalloc/ipc_arena.hpp and .cpp: the arenas of a process, their creation by `create`, the objects that
-- `construct_impl` puts in them, and the collection ID of an object. An arena is the address of its object; it ends with
-- its last reference. The event listener and the activator are left out.
pub mod Steps
pub mod Invariant
pub mod Start
pub mod Lifetime
pub mod Identity
pub mod Ids
use ipc_shm_arena_lend.Base.{
  ℕ, ◌+◌, ◌%◌, ◌^◌, Bool, true, false, Option, none, some, List, [], ◌∷◌, if◌then◌else◌, ◌==◌, ◌&&◌,
}
use ipc_shm_arena_lend.Base.Dict.{Dict, find, erase}
use ipc_shm_arena_lend.Memory.{Call}
use ipc_shm_arena_lend.Jemalloc.Start.{Arenas, start, destroy_arenas, first_arena}
use ipc_shm_arena_lend.Jemalloc.Objects.{
  Heap, Answers, Deleter, no_cache, cache, ObjectDeleter, Constructed, construct,
}

pub record IpcArena : Type 0 where
  pub collection_id : ℕ
  pub jemalloc : Arenas

-- `m_collection_id_counter`, the arenas by address, and the objects.
pub record Process : Type 0 where
  pub collection_id_counter : ℕ
  pub arenas : Dict IpcArena
  pub heap : Heap

-- An arena, a null handle, or the end of the call by an exception or an assertion.
pub data Creation : Type 0 where
  created : ℕ → Creation
  null_arena : Creation
  fails : Creation

unfoldable pub with_calls : Process → List Call → Process
with_calls p calls = record p { heap = record p.heap { calls = calls } }

-- The end of `create`, given what `start` left and returned: a new arena that is not returned is destroyed.
unfoldable pub finish_create : Process → ℕ → IpcArena → List Call → Option Bool → Process × Creation
unfolding destroy_arenas with_calls
finish_create p address a calls (some true) =
    (record (with_calls p calls) { arenas = (address, a) ∷ p.arenas }, created address)
finish_create p address a calls (some false) =
    (with_calls p (destroy_arenas a.jemalloc.arenas calls), null_arena)
finish_create p address a calls none =
    (with_calls p (destroy_arenas a.jemalloc.arenas calls), fails)

-- `create`, with the constructor, at an address: the hooks are at this address too.
unfoldable pub create : Process → ℕ → (ℕ → ℕ × ℕ) → Process × Creation
unfolding finish_create start
create p address answers =
    let id = (p.collection_id_counter + 1) % 2 ^ 32 in
    let p' = record p { collection_id_counter = id } in
    if id == 0
    then (p', fails)
    else (let (a, calls, result) =
          start address (record { started = false; arenas = [] }) 1 answers p.heap.calls in
        finish_create p' address (record { collection_id = id; jemalloc = a }) calls result)

-- The end of an arena at the end of its last reference.
unfoldable pub destroy : Process → ℕ → Process
unfolding destroy_arenas with_calls
destroy p address = elim (find address p.arenas) [
  | none ↦ p
  | some a ↦ record (with_calls p (destroy_arenas a.jemalloc.arenas p.heap.calls)) {
    arenas = erase address p.arenas;
  }
]

unfoldable pub get_arena_id : IpcArena → Option ℕ
unfolding first_arena
get_arena_id a = first_arena a.jemalloc.arenas

-- `construct` and `construct_thread_cached`; none where there is no arena at the address.
unfoldable pub construct_impl :
    Process → ℕ → ℕ → Bool → ℕ → Answers → Option (Process × Constructed)
unfolding get_arena_id
construct_impl p thread address use_cache size o = elim (find address p.arenas) [
  | none ↦ none
  | some a ↦ elim (get_arena_id a) [
    | none ↦ none
    | some arena_id ↦
        let (h, r) = construct true p.heap thread address arena_id use_cache size o in
        some (record p { heap = h }, r)
  ]
]

-- The collection that a deleter leads to.
unfoldable pub get_pool_collection : Deleter → ℕ
get_pool_collection (no_cache collection arena_id) = collection
get_pool_collection (cache c) = c.owner

-- `get_collection_id` of the object at an address: none where it throws, for a deleter of another class.
unfoldable pub get_collection_id : Process → ℕ → Option ℕ
unfolding get_pool_collection
get_collection_id p object = elim (find object p.heap.objects) [
  | none ↦ none
  | some d ↦
      if d.is_ipc
      then (elim (find (get_pool_collection d.base) p.arenas) [
        | none ↦ none
        | some a ↦ some a.collection_id
      ])
      else none
]
