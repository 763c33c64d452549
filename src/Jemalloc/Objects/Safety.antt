-- ===== src/Jemalloc/Objects/Safety.antt =====
-- No thread cache of shm/arena_lend/jemalloc/shm_pool_collection.cpp is used after its end, and none is left open.
use ipc_shm_arena_lend.Base.{
  ℕ, ◌≡◌, refl, Bool, true, false, inl, inr, List, [], ◌∷◌, ◌++◌, ◌==◌, Bool-cases, Option-cases,
}
use ipc_shm_arena_lend.Base.Dict.{Dict, find}
use ipc_shm_arena_lend.Memory.{Call, tcache_none, tcache, mallocx, dallocx, mallctl, tcache_flush}
use ipc_shm_arena_lend.Jemalloc.Caches.{ThreadCache, remove_caches_by_owner}
use ipc_shm_arena_lend.Jemalloc.Objects.{
  Heap, Answers, Deleter, no_cache, cache, references, thread_references, object_references,
  reference_of, caches_in, caches_of_owner, local_caches, set_local_caches, others,
  release_references, take_thread_cache, construct_no_cache, construct_cached, construct,
  release_object, delete_object, remove_current_thread_cache, exit_thread, flush_each,
  flush_current_thread_cache_all,
}
use ipc_shm_arena_lend.Jemalloc.Objects.References.{
  Refers, has_id, Same, Same-refl, Same-nil, Same-symm, Same-trans, Same-append, Same-assoc,
  Same-middle, Same-objects, Same-owner,
}
use ipc_shm_arena_lend.Jemalloc.Objects.Trace.{is_open, IsSafe}
use ipc_shm_arena_lend.Jemalloc.Objects.Sound.{
  IsSound, IsSound-Same, IsSound-is_open, IsSound-call, IsSound-copy,
}
use ipc_shm_arena_lend.Jemalloc.Objects.Steps.{
  IsNew, Step, constructs, releases, removes, exits, flushes, Reach, start, later,
}
use ipc_shm_arena_lend.Jemalloc.Objects.Heaps.{
  IsSoundHeap, release_references-IsSound, construct_helper-IsSound, Same-local, Refers-local,
  take_thread_cache-IsSound, take_thread_cache-Refers,
}

construct_no_cache-IsSound :
    (is_ipc : Bool) (h : Heap) (collection arena size : ℕ) (o : Answers)
    → IsSoundHeap h
    → IsSoundHeap (construct_no_cache is_ipc h collection arena size o).0
unfolding construct_no_cache references reference_of is_open
construct_no_cache-IsSound is_ipc h collection arena size o v =
    construct_helper-IsSound
      (record h { calls = mallocx size arena tcache_none o.address ∷ h.calls }) o.address
      (record { is_ipc = is_ipc; base = no_cache collection arena }) o.throws
      (IsSound-call (mallocx size arena tcache_none o.address) (λ id. refl) tt v)

construct_cached-IsSound :
    (is_ipc : Bool) (h : Heap) (c : ThreadCache) (arena size : ℕ) (o : Answers)
    → Refers c (references h)
    → IsSoundHeap h
    → IsSoundHeap (construct_cached is_ipc h c arena size o).0
unfolding construct_cached references reference_of is_open
construct_cached-IsSound is_ipc h c arena size o r v =
    construct_helper-IsSound
      (record h { calls = mallocx size arena (tcache c.thread_cache_id) o.address ∷ h.calls })
      o.address (record { is_ipc = is_ipc; base = cache c }) o.throws
      (IsSound-copy c r (
        IsSound-call (mallocx size arena (tcache c.thread_cache_id) o.address) (λ id. refl)
          (IsSound-is_open c v r) v))

construct-IsSound :
    (is_ipc : Bool) (h : Heap) (thread collection arena : ℕ) (use_cache : Bool) (size : ℕ)
    (o : Answers)
    → IsNew h o
    → IsSoundHeap h
    → IsSoundHeap (construct is_ipc h thread collection arena use_cache size o).0
unfolding construct
construct-IsSound is_ipc h thread collection arena false size o new v =
    construct_no_cache-IsSound is_ipc h collection arena size o v
construct-IsSound is_ipc h thread collection arena true size o new v =
    let w = take_thread_cache-IsSound h thread collection arena o new v in
    elim (Option-cases (take_thread_cache h thread collection arena o).1) [
      | inl fails ↦ rw fails w
      | inr (c, e) ↦ rw e (
          construct_cached-IsSound is_ipc _ c arena size o
            (take_thread_cache-Refers h thread collection arena o c e) w)
    ]

delete_object-IsSound :
    (d : Deleter) (a : ℕ) (R : List ThreadCache) (t : List Call)
    → IsSound (reference_of d ++ R) t
    → IsSound (reference_of d ++ R) (delete_object d a t)
unfolding delete_object is_open reference_of
delete_object-IsSound (no_cache collection arena) a R t v =
    IsSound-call (dallocx a arena tcache_none) (λ id. refl) tt v
delete_object-IsSound (cache c) a R t v =
    IsSound-call (dallocx a c.arena_id (tcache c.thread_cache_id)) (λ id. refl)
      (IsSound-is_open c v (inl refl)) v

release_object-IsSound : (h : Heap) (a : ℕ) → IsSoundHeap h → IsSoundHeap (release_object h a)
unfolding release_object references
release_object-IsSound h a v = elim (Option-cases (find a h.objects)) [
  | inl absent ↦ rw (absent, release_object) v
  | inr (d, here) ↦
      rw (here, release_object)
        (release_references-IsSound (reference_of d.base)
          (record {
            threads = h.threads;
            objects = others a h.objects;
            calls = delete_object d.base a h.calls;
            leaked = h.leaked;
          })
          (delete_object-IsSound d.base a _ h.calls (
            IsSound-Same
              (Same-trans
                (Same-append (Same-refl (thread_references h.threads))
                  (Same-objects a d h.objects here))
                (Same-middle (thread_references h.threads) (reference_of d.base)
                  (object_references (others a h.objects))))
              v)))
]

-- The references of a thread are split in those that go and those that stay.
local_split-IsSound :
    (h : Heap) (thread : ℕ) (cs : List ThreadCache) (kept : Dict ThreadCache)
    → Same (caches_in (local_caches thread h.threads)) (cs ++ caches_in kept)
    → IsSoundHeap h
    → IsSoundHeap
        (release_references cs (record h { threads = set_local_caches thread kept h.threads }))
unfolding references set_local_caches thread_references
local_split-IsSound h thread cs kept s v =
    release_references-IsSound cs (record h { threads = set_local_caches thread kept h.threads })
      (IsSound-Same
        (Same-trans (Same-local h thread) (
          Same-trans
            (Same-append s (
              Same-refl
                (thread_references (others thread h.threads) ++ object_references h.objects)))
            (Same-trans
              (Same-assoc cs (caches_in kept)
                (thread_references (others thread h.threads) ++ object_references h.objects))
              (Same-append (Same-refl cs) (
                Same-symm (
                  Same-assoc (caches_in kept) (thread_references (others thread h.threads))
                    (object_references h.objects)))))))
        v)

remove_current_thread_cache-IsSound :
    (h : Heap) (thread owner : ℕ)
    → IsSoundHeap h
    → IsSoundHeap (remove_current_thread_cache h thread owner)
unfolding remove_current_thread_cache
remove_current_thread_cache-IsSound h thread owner =
    local_split-IsSound h thread (caches_of_owner (local_caches thread h.threads) owner)
      (remove_caches_by_owner (local_caches thread h.threads) owner).0
      (Same-owner (local_caches thread h.threads) owner)

exit_thread-IsSound : (h : Heap) (thread : ℕ) → IsSoundHeap h → IsSoundHeap (exit_thread h thread)
unfolding exit_thread
exit_thread-IsSound h thread =
    local_split-IsSound h thread (caches_in (local_caches thread h.threads)) []
      (Same-nil (caches_in (local_caches thread h.threads)))

flush_each-IsSound :
    (ec : ℕ → ℕ) (m : Dict ThreadCache) (R : List ThreadCache) (t : List Call)
    → ((c : ThreadCache) → Refers c (caches_in m) → Refers c R)
    → IsSound R t
    → IsSound R (flush_each ec m t).0
unfolding flush_each caches_in is_open
flush_each-IsSound ec [] R t s v = v
flush_each-IsSound ec ((k, c) ∷ m) R t s v =
    let w =
      IsSound-call (mallctl (tcache_flush c.thread_cache_id) (ec c.thread_cache_id) 0) (λ id. refl)
        (IsSound-is_open c v (s c (inl refl))) v in
    let rest =
      flush_each-IsSound ec m R
        (mallctl (tcache_flush c.thread_cache_id) (ec c.thread_cache_id) 0 ∷ t) (λ d r. s d (inr r))
        w in
    elim (Bool-cases (ec c.thread_cache_id == 0)) [
      | inl done ↦ rw (done, flush_each) rest
      | inr fails ↦ rw (fails, flush_each) w
    ]

flush-IsSound :
    (h : Heap) (thread : ℕ) (ec : ℕ → ℕ)
    → IsSoundHeap h
    → IsSoundHeap (flush_current_thread_cache_all h thread ec).0
unfolding flush_current_thread_cache_all references
flush-IsSound h thread ec v =
    flush_each-IsSound ec (local_caches thread h.threads) (references h) h.calls
      (λ c r. Refers-local h thread c r) v

pub Step-IsSound : {h k : Heap} → Step h k → IsSoundHeap h → IsSoundHeap k
Step-IsSound {h} (constructs is_ipc thread collection arena use_cache size o new) =
    construct-IsSound is_ipc h thread collection arena use_cache size o new
Step-IsSound {h} (releases a) = release_object-IsSound h a
Step-IsSound {h} (removes thread owner) = remove_current_thread_cache-IsSound h thread owner
Step-IsSound {h} (exits thread) = exit_thread-IsSound h thread
Step-IsSound {h} (flushes thread ec) = flush-IsSound h thread ec

pub Reach-IsSound : {h : Heap} → Reach h → IsSoundHeap h
unfolding references is_open has_id thread_references object_references
Reach-IsSound start = record { open_iff = λ id. refl; agree = λ c d x y. elim x [ ]; safe = tt }
Reach-IsSound (later r s) = Step-IsSound s (Reach-IsSound r)

-- In every history of threads that construct and release objects, drop and flush their caches and end, no
-- call of jemalloc names a thread cache that is not open at that moment, and no cache is destroyed twice;
-- new caches have addresses and IDs that are not in use.
pub Reach-IsSafe : {h : Heap} → Reach h → IsSafe h.calls
Reach-IsSafe r = (Reach-IsSound r).safe

-- In every such history, a thread cache of jemalloc is open exactly while the map of a thread or the
-- deleter of an object refers to it.
pub is_open-has_id : {h : Heap} → Reach h → (id : ℕ) → is_open id h.calls ≡ has_id id (references h)
is_open-has_id r = (Reach-IsSound r).open_iff
