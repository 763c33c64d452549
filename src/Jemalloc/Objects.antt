-- ===== src/Jemalloc/Objects.antt =====
-- shm/arena_lend/jemalloc/shm_pool_collection.hpp and .cpp: objects in an arena, the deleters of their
-- handles and the caches of the threads, with `construct_helper` of owner_shm_pool_collection.hpp and
-- `construct_impl` of ipc_arena.hpp. An object with a handle is its address; the copies of a handle share
-- the deleter, which runs when the last copy goes. A `Thread_cache` is destroyed with its last reference,
-- which a thread's map or a deleter holds; jemalloc answers its destruction with success, since the destructor
-- may not throw. The assertions on the arenas of the collection are left out.
pub mod References
pub mod Trace
pub mod Sound
pub mod Steps
pub mod Take
pub mod Heaps
pub mod Safety
pub mod Agreement
pub mod Keys
pub mod Matching
pub mod Ownership
pub mod Upkeep
use ipc_shm_arena_lend.Base.{
  ℕ, Bool, true, false, ◌||◌, Option, none, some, List, [], ◌∷◌, ◌++◌, if◌then◌else◌, ◌==◌,
}
use ipc_shm_arena_lend.Base.Dict.{Dict, find}
use ipc_shm_arena_lend.Memory.{
  Call, allocate_in_arena, allocate_cached, deallocate_in_arena, deallocate_cached,
  create_thread_cache, destroy_thread_cache, flush_thread_cache,
}
use ipc_shm_arena_lend.Jemalloc.Caches.{
  ThreadCache, get_cache, get_or_create_thread_cache, remove_caches_by_owner,
}

-- `Object_deleter_no_cache`, of a collection and an arena, and `Object_deleter_cache`.
pub data Deleter : Type 0 where
  no_cache : ℕ → ℕ → Deleter
  cache : ThreadCache → Deleter

-- A deleter, or the class of `Ipc_arena` derived from it.
pub record ObjectDeleter : Type 0 where
  pub is_ipc : Bool
  pub base : Deleter

-- The maps of the threads, the objects with a handle, the calls of jemalloc, newest first, and for the
-- record the allocations whose object was not constructed.
pub record Heap : Type 0 where
  pub threads : Dict (Dict ThreadCache)
  pub objects : Dict ObjectDeleter
  pub calls : List Call
  pub leaked : List ℕ

-- The map without the first entry of a key.
unfoldable pub others {ℓ} : {V : Type ℓ} → ℕ → Dict V → Dict V
others k [] = []
others k ((j, v) ∷ m) = if j == k then m else (j, v) ∷ others k m

-- `s_thread_local_data` of a thread: it starts empty.
unfoldable pub local_caches : ℕ → Dict (Dict ThreadCache) → Dict ThreadCache
unfolding find
local_caches thread ts = elim (find thread ts) [ none ↦ [] | some m ↦ m ]

unfoldable pub set_local_caches :
    ℕ → Dict ThreadCache → Dict (Dict ThreadCache) → Dict (Dict ThreadCache)
unfolding others
set_local_caches thread m ts = (thread, m) ∷ others thread ts

-- The references to thread caches.
unfoldable pub caches_in : Dict ThreadCache → List ThreadCache
caches_in [] = []
caches_in ((k, c) ∷ m) = c ∷ caches_in m

unfoldable pub thread_references : Dict (Dict ThreadCache) → List ThreadCache
unfolding caches_in
thread_references [] = []
thread_references ((k, m) ∷ ts) = caches_in m ++ thread_references ts

unfoldable pub reference_of : Deleter → List ThreadCache
reference_of (no_cache collection arena_id) = []
reference_of (cache c) = c ∷ []

unfoldable pub object_references : Dict ObjectDeleter → List ThreadCache
unfolding reference_of
object_references [] = []
object_references ((a, d) ∷ m) = reference_of d.base ++ object_references m

unfoldable pub references : Heap → List ThreadCache
unfolding thread_references object_references
references h = thread_references h.threads ++ object_references h.objects

unfoldable pub has_pointer : ℕ → List ThreadCache → Bool
has_pointer p [] = false
has_pointer p (c ∷ cs) = (c.pointer == p) || has_pointer p cs

-- References go one after the other while the others stay: a cache without one runs `~Thread_cache`.
unfoldable pub drop_references : List ThreadCache → List ThreadCache → List Call → List Call
unfolding has_pointer destroy_thread_cache
drop_references [] kept calls = calls
drop_references (c ∷ cs) kept calls = drop_references cs kept (
    if has_pointer c.pointer (cs ++ kept)
    then calls
    else (destroy_thread_cache c.thread_cache_id 0 calls).0)

unfoldable pub release_references : List ThreadCache → Heap → Heap
unfolding drop_references references
release_references cs h = record h { calls = drop_references cs (references h) h.calls }

-- What the steps of a construction meet: the address of a new `Thread_cache`, the code and the ID that
-- jemalloc answers for it, the address of the allocation, and whether the constructor of the object
-- throws.
pub record Answers : Type 0 where
  pub cache_pointer : ℕ
  pub ec : ℕ
  pub cache_id : ℕ
  pub address : ℕ
  pub throws : Bool

-- `get_or_create_thread_cache` with the constructor of `Thread_cache`, on a thread; none where it throws.
unfoldable pub take_thread_cache : Heap → ℕ → ℕ → ℕ → Answers → Heap × Option ThreadCache
unfolding local_caches set_local_caches create_thread_cache get_cache
take_thread_cache h thread owner arena_id o =
    elim (get_cache (local_caches thread h.threads) arena_id) [
      | some c ↦ (h, some c)
      | none ↦
          let (calls, id) = create_thread_cache o.ec o.cache_id h.calls in
          elim id [
            | none ↦ (record h { calls = calls }, none)
            | some i ↦
                let (m, c) =
                  get_or_create_thread_cache (local_caches thread h.threads) owner arena_id
                    o.cache_pointer i in
                (record h { threads = set_local_caches thread m h.threads; calls = calls }, some c)
          ]
    ]

-- A handle, a null handle, or an exception.
pub data Constructed : Type 0 where
  handle : ℕ → Constructed
  null_handle : Constructed
  thrown : Constructed

-- `construct_helper`: a deleter that is not used goes at the end.
unfoldable pub construct_helper : Heap → ℕ → ObjectDeleter → Bool → Heap × Constructed
unfolding release_references reference_of
construct_helper h allocation d throws =
    if allocation == 0
    then (release_references (reference_of d.base) h, null_handle)
    else if throws
    then (
      release_references (reference_of d.base) (record h { leaked = allocation ∷ h.leaked }),
      thrown,
    )
    else (record h { objects = (allocation, d) ∷ h.objects }, handle allocation)

-- `construct_in_arena`, and `construct_impl` of `Ipc_arena` for its arena: these differ in the class of
-- the deleter.
unfoldable pub construct_no_cache : Bool → Heap → ℕ → ℕ → ℕ → Answers → Heap × Constructed
unfolding construct_helper allocate_in_arena
construct_no_cache is_ipc h collection arena_id size o =
    let (calls, allocation) = allocate_in_arena size arena_id o.address h.calls in
    construct_helper (record h { calls = calls }) allocation
      (record { is_ipc = is_ipc; base = no_cache collection arena_id }) o.throws

unfoldable pub construct_cached : Bool → Heap → ThreadCache → ℕ → ℕ → Answers → Heap × Constructed
unfolding construct_helper allocate_cached
construct_cached is_ipc h c arena_id size o =
    let (calls, allocation) = allocate_cached size arena_id c.thread_cache_id o.address h.calls in
    construct_helper (record h { calls = calls }) allocation
      (record { is_ipc = is_ipc; base = cache c }) o.throws

unfoldable pub construct : Bool → Heap → ℕ → ℕ → ℕ → Bool → ℕ → Answers → Heap × Constructed
unfolding take_thread_cache construct_no_cache construct_cached
construct is_ipc h thread collection arena_id use_cache size o =
    if use_cache
    then (let (h', c) = take_thread_cache h thread collection arena_id o in
        elim c [ none ↦ (h', thrown) | some x ↦ construct_cached is_ipc h' x arena_id size o ])
    else construct_no_cache is_ipc h collection arena_id size o

-- The call of the deleter, `operator()`.
unfoldable pub delete_object : Deleter → ℕ → List Call → List Call
unfolding deallocate_in_arena deallocate_cached
delete_object (no_cache collection arena_id) address calls =
    deallocate_in_arena address arena_id calls
delete_object (cache c) address calls = deallocate_cached address c.arena_id c.thread_cache_id calls

-- The end of the last handle of an object: the deleter is called, and goes. An address without an object
-- has no handle.
unfoldable pub release_object : Heap → ℕ → Heap
unfolding delete_object release_references reference_of
release_object h address = elim (find address h.objects) [
  | none ↦ h
  | some d ↦ release_references (reference_of d.base) (record h {
    objects = others address h.objects;
    calls = delete_object d.base address h.calls;
  })
]

-- The caches that `remove_caches_by_owner` erases, in order.
unfoldable pub caches_of_owner : Dict ThreadCache → ℕ → List ThreadCache
caches_of_owner [] owner = []
caches_of_owner ((k, c) ∷ m) owner =
    let rest = caches_of_owner m owner in if owner == c.owner then c ∷ rest else rest

unfoldable pub remove_current_thread_cache : Heap → ℕ → ℕ → Heap
unfolding caches_of_owner release_references set_local_caches local_caches
remove_current_thread_cache h thread owner =
    let m = local_caches thread h.threads in
    release_references (caches_of_owner m owner)
      (record h { threads = set_local_caches thread (remove_caches_by_owner m owner).0 h.threads })

-- The end of a thread, which destroys its `s_thread_local_data`.
unfoldable pub exit_thread : Heap → ℕ → Heap
unfolding caches_in release_references set_local_caches local_caches
exit_thread h thread =
    release_references (caches_in (local_caches thread h.threads))
      (record h { threads = set_local_caches thread [] h.threads })

-- `flush_all_caches`, where `ec` is the code for each ID: the first that is not 0 throws.
unfoldable pub flush_each : (ℕ → ℕ) → Dict ThreadCache → List Call → List Call × Option (Unit {0})
unfolding flush_thread_cache
flush_each ec [] calls = (calls, some tt)
flush_each ec ((k, c) ∷ m) calls =
    let (calls', done) = flush_thread_cache c.thread_cache_id (ec c.thread_cache_id) calls in
    let rest = flush_each ec m calls' in elim done [ none ↦ (calls', none) | some _ ↦ rest ]

unfoldable pub flush_current_thread_cache_all : Heap → ℕ → (ℕ → ℕ) → Heap × Option (Unit {0})
unfolding flush_each local_caches
flush_current_thread_cache_all h thread ec =
    let (calls, done) = flush_each ec (local_caches thread h.threads) h.calls in
    (record h { calls = calls }, done)
