-- ===== src/Tests/Arenas.antt =====
-- Arenas, objects and thread caches on concrete input: an arena of the ID 1 at the address 100, with the arena 5 of
-- jemalloc; the thread 1 constructs the object at 4096 with its cache 3, and the thread ends before the object does.
use ipc_shm_arena_lend.Base.{ℕ, ◌≡◌, ◌≢◌, ◌↔◌, refl, true, false, none, some, [], ◌∷◌, ◌+◌, arith}
use ipc_shm_arena_lend.Base.Dict.{find, emplace, is_some}
use ipc_shm_arena_lend.Memory.{create_arena}
use ipc_shm_arena_lend.AddressMap.{emplace_ordered}
use ipc_shm_arena_lend.Jemalloc.Start.{Arenas, IsDistinct, start_arenas, answered, start-true}
use ipc_shm_arena_lend.Jemalloc.Start as Start
use ipc_shm_arena_lend.Jemalloc.Caches.{get_or_create_thread_cache}
use ipc_shm_arena_lend.Jemalloc.Objects.{
  Heap, Answers, handle, construct, release_object, exit_thread, references, has_pointer,
  thread_references, object_references,
}
use ipc_shm_arena_lend.Jemalloc.Objects.References.{has_id}
use ipc_shm_arena_lend.Jemalloc.Objects.Trace.{
  is_open, is_arena_open, allocation, IsSafe, IsMatched, IsArenaSafe,
}
use ipc_shm_arena_lend.Jemalloc.Objects.Steps as Objects
use ipc_shm_arena_lend.Jemalloc.Objects.Safety.{Reach-IsSafe, is_open-has_id}
use ipc_shm_arena_lend.Jemalloc.Objects.Agreement.{allocation_of, is_leaked}
use ipc_shm_arena_lend.Jemalloc.Objects.Matching.{Reach-IsMatched, allocation-objects}
use ipc_shm_arena_lend.Arena.Process.{IpcArena, Process, create, construct_impl, get_collection_id}
use ipc_shm_arena_lend.Arena.Process.Steps.{creates, constructs, Reach, start, later, no_arenas}
use ipc_shm_arena_lend.Arena.Process.Invariant.{arena_of}
use ipc_shm_arena_lend.Arena.Process.Lifetime.{Reach-IsArenaSafe, is_arena_open_iff}
use ipc_shm_arena_lend.Arena.Process.Identity.{get_collection_id-construct_impl}
use ipc_shm_arena_lend.Arena.Process.Ids.{collection_id-ne}

abbrev answers : Answers
answers = record { cache_pointer = 200; ec = 0; cache_id = 3; address = 4096; throws = false }

abbrev constructed : Heap
constructed = (construct true Objects.no_objects 1 100 5 true 8 answers).0

abbrev released : Heap
released = release_object (exit_thread constructed 1) 4096

answers-IsNew : Objects.IsNew Objects.no_objects answers
unfolding references thread_references object_references has_pointer is_open allocation
answers-IsNew = record { new_pointer = refl; new_id = refl; new_address = refl }

released-Reach : Objects.Reach released
released-Reach =
    Objects.later
      (Objects.later
        (Objects.later Objects.start (Objects.constructs true 1 100 5 true 8 answers answers-IsNew))
        (Objects.exits 1))
      (Objects.releases 4096)

Reach-IsSafe_example : IsSafe released.calls
Reach-IsSafe_example = Reach-IsSafe released-Reach

is_open-has_id_example : is_open 3 released.calls ≡ has_id 3 (references released)
is_open-has_id_example = is_open-has_id released-Reach 3

Reach-IsMatched_example : IsMatched released.calls
Reach-IsMatched_example = Reach-IsMatched released-Reach

allocation-objects_example :
    allocation 4096 released.calls
    ≡ elim (find 4096 released.objects) [ none ↦ none | some d ↦ some (allocation_of d.base) ]
unfolding is_leaked construct release_object exit_thread
allocation-objects_example = allocation-objects released-Reach 4096 refl

abbrev ids : ℕ → ℕ × ℕ
ids i = (0, 5 + i)

abbrev one_arena : Process
one_arena = (create no_arenas 100 ids).0

one_arena-Reach : Reach one_arena
unfolding is_arena_open find
one_arena-Reach = later start (creates 100 ids refl refl (omega arith))

abbrev with_object : Process
with_object = record one_arena { heap = (construct true one_arena.heap 1 100 5 true 8 answers).0 }

abbrev first : IpcArena
first = record { collection_id = 1; jemalloc = record { started = true; arenas = (5, tt) ∷ [] } }

construct_impl-with_object :
    construct_impl one_arena 1 100 true 8 answers ≡ some (with_object, handle 4096)
unfolding construct_impl create start_arenas create_arena emplace_ordered find construct
    get_or_create_thread_cache emplace
construct_impl-with_object = refl

one_arena-IsNew : Objects.IsNew one_arena.heap answers
unfolding references thread_references object_references has_pointer is_open allocation create
    start_arenas create_arena emplace_ordered find
one_arena-IsNew = record { new_pointer = refl; new_id = refl; new_address = refl }

with_object-Reach : Reach with_object
with_object-Reach = later one_arena-Reach (
    constructs 1 100 true 8 answers with_object (handle 4096) one_arena-IsNew
      construct_impl-with_object)

Reach-IsArenaSafe_example : IsArenaSafe with_object.heap.calls
Reach-IsArenaSafe_example = Reach-IsArenaSafe with_object-Reach

is_arena_open_iff_example :
    (is_arena_open 5 with_object.heap.calls ≡ true)
    ↔ ((k : ℕ) × (arena_of with_object.arenas k ≡ some 5))
is_arena_open_iff_example = is_arena_open_iff with_object-Reach 5

get_collection_id-construct_impl_example : get_collection_id with_object 4096 ≡ some 1
unfolding create start_arenas create_arena emplace_ordered find
get_collection_id-construct_impl_example =
    get_collection_id-construct_impl one_arena with_object 1 100 true 8 answers first 4096
      one_arena-Reach refl construct_impl-with_object

abbrev two_arenas : Process
two_arenas = (create one_arena 300 (λ i. (0, 9))).0

two_arenas-Reach : Reach two_arenas
unfolding is_arena_open find create start_arenas create_arena emplace_ordered
two_arenas-Reach = later one_arena-Reach (creates 300 (λ i. (0, 9)) refl refl (omega arith))

abbrev second : IpcArena
second = record { collection_id = 2; jemalloc = record { started = true; arenas = (9, tt) ∷ [] } }

collection_id-ne_example : ◌≢◌ {A = ℕ} 1 2
unfolding create start_arenas create_arena emplace_ordered find
collection_id-ne_example =
    collection_id-ne two_arenas-Reach 100 300 first second refl refl (λ e. omega arith)

start-true_example :
    let (a, calls', result) = Start.start 7 (record { started = false; arenas = [] }) 3 ids [] in
    (result ≡ some true)
    × ((id : ℕ) → is_some (find id a.arenas) ≡ answered 3 0 ids id)
    × (Start.start 7 a 1 ids calls' ≡ (a, calls', some true))
start-true_example =
    start-true 7 3 1 ids [] (λ j. refl) (λ i j e. omega arith) (omega arith) (omega arith)
