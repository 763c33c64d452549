-- ===== src/Arena/Process/Identity.antt =====
-- shm/arena_lend/jemalloc/ipc_arena.hpp: the collection ID of an object.
use ipc_shm_arena_lend.Base.{
  ℕ, ◌≡◌, refl, sym, ap, ◌∙◌, Bool, true, false, inl, inr, arith, ◌==◌, Bool-cases, Option-cases,
  none, some,
}
use ipc_shm_arena_lend.Base.Dict.{find}
use ipc_shm_arena_lend.Jemalloc.Caches.{ThreadCache}
use ipc_shm_arena_lend.Jemalloc.Objects.{
  Heap, Answers, Constructed, handle, thrown, Deleter, no_cache, cache, ObjectDeleter,
  construct_helper, construct_no_cache, construct_cached, construct, take_thread_cache,
}
use ipc_shm_arena_lend.Jemalloc.Objects.Matching.{take_thread_cache-TakesCache}
use ipc_shm_arena_lend.Jemalloc.Objects.Ownership.{home}
use ipc_shm_arena_lend.Jemalloc.Objects.Upkeep.{take_thread_cache-Takes}
use ipc_shm_arena_lend.Arena.Process.{
  IpcArena, Process, construct_impl, get_pool_collection, get_collection_id,
}
use ipc_shm_arena_lend.Arena.Process.Steps.{Reach}
use ipc_shm_arena_lend.Arena.Process.Invariant.{arena_of}
use ipc_shm_arena_lend.Arena.Process.Start.{IsAliveProcess, construct_impl-Built}
use ipc_shm_arena_lend.Arena.Process.Lifetime.{Reach-IsAlive}

construct_helper-handle :
    (h : Heap) (a b : ℕ) (d : ObjectDeleter) (throws : Bool)
    → (construct_helper h a d throws).1 ≡ handle b
    → find b (construct_helper h a d throws).0.objects ≡ some d
unfolding construct_helper find
construct_helper-handle h a b d throws e = elim (Bool-cases (a == 0)) [
  | inl null ↦ ground (arith, null)
  | inr there ↦ elim (Bool-cases throws) [
    | inl fails ↦ ground (arith, there, fails)
    | inr built ↦ ground (arith, there, built)
  ]
]

-- The object has a deleter of this class that leads to the arena.
record HasDeleter (h : Heap) (b address : ℕ) : Type 0 where
  deleter : ObjectDeleter
  there : find b h.objects ≡ some deleter
  is_ipc : deleter.is_ipc ≡ true
  leads : get_pool_collection deleter.base ≡ address

construct-cached :
    (h : Heap) (thread address arena size : ℕ) (o : Answers) (c : ThreadCache)
    → (take_thread_cache h thread address arena o).1 ≡ some c
    → construct true h thread address arena true size o
      ≡ construct_cached true (take_thread_cache h thread address arena o).0 c arena size o
unfolding construct
construct-cached h thread address arena size o c taken = rw (taken) refl

construct-failed :
    (h : Heap) (thread address arena size : ℕ) (o : Answers)
    → (take_thread_cache h thread address arena o).1 ≡ none
    → (construct true h thread address arena true size o).1 ≡ thrown
unfolding construct
construct-failed h thread address arena size o fails = rw fails refl

construct-HasDeleter :
    (p : Process) (thread address arena : ℕ) (use_cache : Bool) (size : ℕ) (o : Answers) (b : ℕ)
    → IsAliveProcess p
    → arena_of p.arenas address ≡ some arena
    → (construct true p.heap thread address arena use_cache size o).1 ≡ handle b
    → HasDeleter (construct true p.heap thread address arena use_cache size o).0 b address
unfolding construct construct_no_cache construct_cached get_pool_collection
construct-HasDeleter p thread address arena false size o b v own e = record {
  deleter = record { is_ipc = true; base = no_cache address arena };
  there = construct_helper-handle _ _ b _ o.throws e;
  is_ipc = refl;
  leads = refl;
}
construct-HasDeleter p thread address arena true size o b v own e =
    let w =
      take_thread_cache-Takes (λ k i. arena_of p.arenas k ≡ some i) v.owned thread address arena o
        own in
    let k = take_thread_cache-TakesCache p.heap v.matched thread address arena o in
    elim (Option-cases (take_thread_cache p.heap thread address arena o).1) [
      | inl fails ↦ cc (construct-failed p.heap thread address arena size o fails, e)
      | inr (c, taken) ↦
          let same = construct-cached p.heap thread address arena size o c taken in
          rw same (record {
            deleter = record { is_ipc = true; base = cache c };
            there =
                construct_helper-handle _ _ b _ o.throws
                  (ap (λ (x : Heap × Constructed). x.1) (sym same) ∙ e);
            is_ipc = refl;
            leads =
                v.separate c.owner address arena (w.has_home c taken ∙ ap some (k.of_arena c taken))
                  own;
          })
    ]

get_collection_id-HasDeleter :
    (p : Process) (b address : ℕ) (a : IpcArena)
    → HasDeleter p.heap b address
    → find address p.arenas ≡ some a
    → get_collection_id p b ≡ some a.collection_id
unfolding get_collection_id
get_collection_id-HasDeleter p b address a d here = ground (arith, d.there, d.is_ipc, d.leads, here)

-- At any time in the history of a process, `get_collection_id` of an object that an arena constructs, with
-- or without a thread cache, is the ID of this arena.
pub get_collection_id-construct_impl :
    (p q : Process) (thread address : ℕ) (use_cache : Bool) (size : ℕ) (o : Answers) (a : IpcArena)
    (b : ℕ)
    → Reach p
    → find address p.arenas ≡ some a
    → construct_impl p thread address use_cache size o ≡ some (q, handle b)
    → get_collection_id q b ≡ some a.collection_id
get_collection_id-construct_impl p q thread address use_cache size o a b r here e =
    let v = Reach-IsAlive r in
    let x = construct_impl-Built p thread address use_cache size o q (handle b) v e in
    let d =
      construct-HasDeleter p thread address x.arena_id use_cache size o b v x.its_arena
        (sym x.result) in
    rw x.after (
      get_collection_id-HasDeleter
        (record p { heap = (construct true p.heap thread address x.arena_id use_cache size o).0 }) b
        address a d here)

home-collection : (d : Deleter) → (home d).0 ≡ get_pool_collection d
unfolding get_pool_collection
home-collection (no_cache collection arena_id) = refl
home-collection (cache c) = refl

-- At any time, `get_collection_id` returns an ID for every object of an arena that has a handle: its
-- arena is still there.
pub get_collection_id-some :
    (p : Process) (b : ℕ) (d : ObjectDeleter)
    → Reach p
    → find b p.heap.objects ≡ some d
    → d.is_ipc ≡ true
    → (a : IpcArena) × (find (get_pool_collection d.base) p.arenas ≡ some a)
      × (get_collection_id p b ≡ some a.collection_id)
unfolding arena_of
get_collection_id-some p b d r there ipc =
    let own = (Reach-IsAlive r).owned.objects b d there in
    elim (Option-cases (find (get_pool_collection d.base) p.arenas)) [
      | inl absent ↦ ground (arith, home-collection d.base, absent, own)
      | inr (a, here) ↦ (
        a,
        here,
        get_collection_id-HasDeleter p b (get_pool_collection d.base) a
            (record { deleter = d; there = there; is_ipc = ipc; leads = refl }) here,
      )
    ]
