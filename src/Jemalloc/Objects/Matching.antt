-- ===== src/Jemalloc/Objects/Matching.antt =====
-- The allocations of the objects of shm/arena_lend/jemalloc/shm_pool_collection.hpp: each deleter names the arena and
-- the thread cache that its object was allocated with.
use ipc_shm_arena_lend.Base.{
  ℕ, ◌≡◌, refl, subst, ◌∙◌, Bool, true, false, inl, inr, List, [], ◌∷◌, ◌==◌, Bool-cases,
  Option-cases, Option, none, some,
}
use ipc_shm_arena_lend.Base.Dict.{Dict, find}
use ipc_shm_arena_lend.Memory.{mallocx}
use ipc_shm_arena_lend.Jemalloc.Caches.{ThreadCache}
use ipc_shm_arena_lend.Jemalloc.Objects.{
  Heap, Answers, ObjectDeleter, caches_in, caches_of_owner, no_cache, cache, reference_of,
  local_caches, set_local_caches, release_references, take_thread_cache, construct_helper,
  construct_no_cache, construct_cached, construct, release_object, remove_current_thread_cache,
  exit_thread, flush_current_thread_cache_all,
}
use ipc_shm_arena_lend.Jemalloc.Objects.Trace.{allocation, IsMatched}
use ipc_shm_arena_lend.Jemalloc.Objects.Take.{
  new_cache, with_cache, take_thread_cache-here, take_thread_cache-failed, take_thread_cache-new,
}
use ipc_shm_arena_lend.Jemalloc.Objects.Steps.{
  IsNew, Step, constructs, releases, removes, exits, flushes, Reach, start, later,
}
use ipc_shm_arena_lend.Jemalloc.Objects.Agreement.{
  allocation_of, is_leaked, Agrees, Agrees-call, drop_references-Agrees, flush_each-Agrees,
  allocate-null, allocate-object, allocate-leaked, delete-object,
}
use ipc_shm_arena_lend.Jemalloc.Objects.Keys.{
  HasKeys, AllHaveKeys, HasKeys-find, remove_caches_by_owner-HasKeys, local_caches-HasKeys,
  set_local_caches-AllHaveKeys,
}

pub record IsMatchedHeap (h : Heap) : Type 0 where
  pub keys : AllHaveKeys h.threads
  pub agrees : Agrees h.objects h.leaked h.calls

module _ (h : Heap) (v : IsMatchedHeap h) where
  release_references-IsMatchedHeap :
      (cs : List ThreadCache) → IsMatchedHeap (release_references cs h)
  unfolding release_references
  release_references-IsMatchedHeap cs = record {
    keys = v.keys;
    agrees = drop_references-Agrees cs _ v.agrees;
  }

  local-IsMatchedHeap :
      (thread : ℕ) (m : Dict ThreadCache)
      → HasKeys m
      → IsMatchedHeap (record h { threads = set_local_caches thread m h.threads })
  local-IsMatchedHeap thread m u = record {
    keys = set_local_caches-AllHaveKeys thread m h.threads u v.keys;
    agrees = v.agrees;
  }

  release_object-IsMatchedHeap : (a : ℕ) → IsMatchedHeap (release_object h a)
  unfolding release_object release_references
  release_object-IsMatchedHeap a = elim (Option-cases (find a h.objects)) [
    | inl absent ↦ rw (absent, release_object) v
    | inr (d, here) ↦
        rw (here, release_object)
          (record {
            keys = v.keys;
            agrees =
                drop_references-Agrees (reference_of d.base) _ (delete-object v.agrees a d here);
          })
  ]

  -- `construct_helper` after the allocation.
  construct_helper-IsMatchedHeap :
      (size a : ℕ) (d : ObjectDeleter) (throws : Bool)
      → allocation a h.calls ≡ none
      → IsMatchedHeap
          (construct_helper
            (record h {
              calls = mallocx size (allocation_of d.base).0 (allocation_of d.base).1 a ∷ h.calls;
            })
            a
            d
            throws).0
  unfolding construct_helper release_references
  construct_helper-IsMatchedHeap size a d throws new = elim (Bool-cases (a == 0)) [
    | inl null ↦ rw null (record {
      keys = v.keys;
      agrees =
          drop_references-Agrees (reference_of d.base) _
            (allocate-null v.agrees size (allocation_of d.base).0 (allocation_of d.base).1 a null);
    })
    | inr there ↦ elim (Bool-cases throws) [
      | inl fails ↦
          rw (there, fails)
            (record {
              keys = v.keys;
              agrees = drop_references-Agrees (reference_of d.base) _ (
                  allocate-leaked v.agrees size (allocation_of d.base).0 (allocation_of d.base).1 a
                    new there);
            })
      | inr built ↦
          rw (there, built)
            (record { keys = v.keys; agrees = allocate-object v.agrees size a d new there })
    ]
  ]

-- A cache that a thread takes is of the arena, and the allocations stay.
pub record TakesCache (h k : Heap) (arena : ℕ) (o : Option ThreadCache) : Type 0 where
  pub valid : IsMatchedHeap k
  pub of_arena : (c : ThreadCache) → o ≡ some c → c.arena_id ≡ arena
  pub same : (a : ℕ) → allocation a k.calls ≡ allocation a h.calls

module _ (h : Heap) (v : IsMatchedHeap h) (thread owner arena : ℕ) (o : Answers) where
  pub take_thread_cache-TakesCache :
      TakesCache h
        (take_thread_cache h thread owner arena o).0
        arena
        (take_thread_cache h thread owner arena o).1
  unfolding with_cache allocation
  take_thread_cache-TakesCache = elim (Option-cases (find arena (local_caches thread h.threads))) [
    | inr (c, here) ↦ rw (take_thread_cache-here h thread owner arena o c here) (record {
      valid = v;
      of_arena = λ d e.
          HasKeys-find arena d (local_caches thread h.threads)
            (local_caches-HasKeys thread h.threads v.keys) (here ∙ e);
      same = λ a. refl;
    })
    | inl none_yet ↦ elim (Bool-cases (o.ec == 0)) [
      | inl opened ↦ rw (take_thread_cache-new h thread owner arena o none_yet opened) (record {
        valid = record {
          keys =
              set_local_caches-AllHaveKeys thread
                ((arena, new_cache h thread owner arena o) ∷ local_caches thread h.threads)
                h.threads (refl, local_caches-HasKeys thread h.threads v.keys) v.keys;
          agrees = Agrees-call (λ a. refl) (λ m. m) v.agrees;
        };
        of_arena = λ d e. cc;
        same = λ a. refl;
      })
      | inr failed ↦ rw (take_thread_cache-failed h thread owner arena o none_yet failed) (record {
        valid = record { keys = v.keys; agrees = Agrees-call (λ a. refl) (λ m. m) v.agrees };
        of_arena = λ d e. cc;
        same = λ a. refl;
      })
    ]
  ]

construct_cached-IsMatchedHeap :
    (is_ipc : Bool) (h : Heap) (c : ThreadCache) (arena size : ℕ) (o : Answers)
    → c.arena_id ≡ arena
    → allocation o.address h.calls ≡ none
    → IsMatchedHeap h
    → IsMatchedHeap (construct_cached is_ipc h c arena size o).0
unfolding construct_cached
construct_cached-IsMatchedHeap is_ipc h c arena size o e new v =
    subst (λ a. IsMatchedHeap (construct_cached is_ipc h c a size o).0) e
      (construct_helper-IsMatchedHeap h v size o.address
        (record { is_ipc = is_ipc; base = cache c }) o.throws new)

construct-IsMatchedHeap :
    (is_ipc : Bool) (h : Heap) (thread collection arena : ℕ) (use_cache : Bool) (size : ℕ)
    (o : Answers)
    → IsNew h o
    → IsMatchedHeap h
    → IsMatchedHeap (construct is_ipc h thread collection arena use_cache size o).0
unfolding construct construct_no_cache
construct-IsMatchedHeap is_ipc h thread collection arena false size o new v =
    construct_helper-IsMatchedHeap h v size o.address
      (record { is_ipc = is_ipc; base = no_cache collection arena }) o.throws new.new_address
construct-IsMatchedHeap is_ipc h thread collection arena true size o new v =
    let w = take_thread_cache-TakesCache h v thread collection arena o in
    elim (Option-cases (take_thread_cache h thread collection arena o).1) [
      | inl fails ↦ rw fails w.valid
      | inr (c, e) ↦ rw e (
          construct_cached-IsMatchedHeap is_ipc (take_thread_cache h thread collection arena o).0 c
            arena size o (w.of_arena c e) (w.same o.address ∙ new.new_address) w.valid)
    ]

pub Step-IsMatchedHeap : {h k : Heap} → Step h k → IsMatchedHeap h → IsMatchedHeap k
unfolding remove_current_thread_cache exit_thread flush_current_thread_cache_all
Step-IsMatchedHeap {h} (constructs is_ipc thread collection arena use_cache size o new) v =
    construct-IsMatchedHeap is_ipc h thread collection arena use_cache size o new v
Step-IsMatchedHeap {h} (releases a) v = release_object-IsMatchedHeap h v a
Step-IsMatchedHeap {h} (removes thread owner) v =
    release_references-IsMatchedHeap _
      (local-IsMatchedHeap h v thread _
        (remove_caches_by_owner-HasKeys _ owner (local_caches-HasKeys thread h.threads v.keys)))
      (caches_of_owner (local_caches thread h.threads) owner)
Step-IsMatchedHeap {h} (exits thread) v =
    release_references-IsMatchedHeap _ (local-IsMatchedHeap h v thread [] tt)
      (caches_in (local_caches thread h.threads))
Step-IsMatchedHeap {h} (flushes thread ec) v = record {
  keys = v.keys;
  agrees = flush_each-Agrees ec (local_caches thread h.threads) v.agrees;
}

pub Reach-IsMatchedHeap : {h : Heap} → Reach h → IsMatchedHeap h
unfolding allocation find
Reach-IsMatchedHeap start = record {
  keys = tt;
  agrees = record { single = tt; matched = tt; owned = λ a d e. cc; freed = λ a e l. refl };
}
Reach-IsMatchedHeap (later r s) = Step-IsMatchedHeap s (Reach-IsMatchedHeap r)

-- In every history of threads that construct and release objects, drop and flush their caches and end,
-- each deallocation names the arena and the thread cache that the object at the address was allocated
-- with, and the object was not deallocated before; new allocations are at addresses not in use.
pub Reach-IsMatched : {h : Heap} → Reach h → IsMatched h.calls
Reach-IsMatched r = (Reach-IsMatchedHeap r).agrees.matched

-- In every such history, the allocation in use at an address, its arena and its thread cache, is that
-- of the object there, as its deleter has it; where there is no object there is none, unless
-- an object's constructor threw there.
pub allocation-objects :
    {h : Heap}
    → Reach h
    → (a : ℕ) → is_leaked a h.leaked ≡ false
    → allocation a h.calls
      ≡ elim (find a h.objects) [ none ↦ none | some d ↦ some (allocation_of d.base) ]
allocation-objects {h} r a kept =
    let v = (Reach-IsMatchedHeap r).agrees in
    elim (Option-cases (find a h.objects)) [
      | inl e ↦ rw e (v.freed a e kept)
      | inr (d, e) ↦ rw e (v.owned a d e)
    ]
