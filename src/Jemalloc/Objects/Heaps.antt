-- ===== src/Jemalloc/Objects/Heaps.antt =====
-- The thread caches of shm/arena_lend/jemalloc/shm_pool_collection.cpp that are open, when a thread takes one and when
-- references go.
use ipc_shm_arena_lend.Base.{
  ℕ, ◌≡◌, refl, sym, ap, subst, ◌∙◌, Bool, inl, inr, List, [], ◌∷◌, ◌++◌, arith, ◌==◌, Bool-cases,
  Option-cases, Option, some,
}
use ipc_shm_arena_lend.Base.Dict.{find}
use ipc_shm_arena_lend.Memory.{mallctl, tcache_create}
use ipc_shm_arena_lend.Jemalloc.Caches.{ThreadCache}
use ipc_shm_arena_lend.Jemalloc.Objects.{
  Heap, Answers, ObjectDeleter, references, thread_references, object_references, reference_of,
  caches_in, local_caches, set_local_caches, others, release_references, take_thread_cache,
  construct_helper,
}
use ipc_shm_arena_lend.Jemalloc.Objects.References.{
  Refers, Same, Same-refl, find-Refers, Same-symm, Same-trans, Same-append, Same-assoc, Same-middle,
  Same-threads, append-Refers,
}
use ipc_shm_arena_lend.Jemalloc.Objects.Trace.{is_open}
use ipc_shm_arena_lend.Jemalloc.Objects.Sound.{
  IsSound, IsSound-Same, IsSound-call, IsSound-create, IsSound-drop_references,
}
use ipc_shm_arena_lend.Jemalloc.Objects.Take.{
  new_cache, with_cache, take_thread_cache-here, take_thread_cache-failed, take_thread_cache-new,
}
use ipc_shm_arena_lend.Jemalloc.Objects.Steps.{IsNew}

abbrev pub IsSoundHeap : Heap → Type 0
IsSoundHeap h = IsSound (references h) h.calls

pub release_references-IsSound :
    (cs : List ThreadCache) (h : Heap)
    → IsSound (cs ++ references h) h.calls
    → IsSoundHeap (release_references cs h)
unfolding release_references references
release_references-IsSound cs h v = IsSound-drop_references cs (references h) h.calls v

pub construct_helper-IsSound :
    (h : Heap) (a : ℕ) (d : ObjectDeleter) (throws : Bool)
    → IsSound (reference_of d.base ++ references h) h.calls
    → IsSoundHeap (construct_helper h a d throws).0
unfolding construct_helper references object_references
construct_helper-IsSound h a d throws v = elim (Bool-cases (a == 0)) [
  | inl null ↦ rw null (release_references-IsSound (reference_of d.base) h v)
  | inr there ↦ elim (Bool-cases throws) [
    | inl fails ↦
        rw (there, fails)
          (release_references-IsSound (reference_of d.base) (record h { leaked = a ∷ h.leaked }) v)
    | inr built ↦
        rw (there, built)
          (IsSound-Same
            (Same-middle (reference_of d.base) (thread_references h.threads)
              (object_references h.objects))
            v)
  ]
]

-- The references of a thread, apart from the others.
pub Same-local :
    (h : Heap) (thread : ℕ)
    → Same (references h) (
        caches_in (local_caches thread h.threads)
        ++ (thread_references (others thread h.threads) ++ object_references h.objects))
unfolding references
Same-local h thread =
    Same-trans
      (Same-append (Same-threads thread h.threads) (Same-refl (object_references h.objects)))
      (Same-assoc (caches_in (local_caches thread h.threads))
        (thread_references (others thread h.threads)) (object_references h.objects))

pub Refers-local :
    (h : Heap) (thread : ℕ) (c : ThreadCache)
    → Refers c (caches_in (local_caches thread h.threads))
    → Refers c (references h)
Refers-local h thread c r = (Same-local h thread).back c (append-Refers c _ _ (inl r))

-- What a new cache adds.
Same-with_cache :
    (h : Heap) (thread owner arena : ℕ) (o : Answers)
    → Same
        (new_cache h thread owner arena o ∷ references h)
        (references (with_cache h thread owner arena o))
unfolding references set_local_caches caches_in thread_references with_cache
Same-with_cache h thread owner arena o =
    Same-trans
      (Same-append (Same-refl (new_cache h thread owner arena o ∷ [])) (Same-local h thread))
      (Same-symm (
        Same-assoc (new_cache h thread owner arena o ∷ caches_in (local_caches thread h.threads))
          (thread_references (others thread h.threads)) (object_references h.objects)))

pub take_thread_cache-IsSound :
    (h : Heap) (thread owner arena : ℕ) (o : Answers)
    → IsNew h o
    → IsSoundHeap h
    → IsSoundHeap (take_thread_cache h thread owner arena o).0
unfolding references is_open with_cache
take_thread_cache-IsSound h thread owner arena o new v =
    elim (Option-cases (find arena (local_caches thread h.threads))) [
      | inr (c, here) ↦ rw (take_thread_cache-here h thread owner arena o c here) v
      | inl none_yet ↦ elim (Bool-cases (o.ec == 0)) [
        | inl opened ↦ rw (take_thread_cache-new h thread owner arena o none_yet opened) (
            let z : 0 ≡ o.ec = ground arith in
            subst
              (λ ec.
                IsSound (references (with_cache h thread owner arena o))
                  (mallctl tcache_create ec o.cache_id ∷ h.calls))
              z
              (IsSound-Same (Same-with_cache h thread owner arena o)
                (IsSound-create (new_cache h thread owner arena o) v new.new_pointer new.new_id)))
        | inr failed ↦
            rw (take_thread_cache-failed h thread owner arena o none_yet failed)
              (IsSound-call (mallctl tcache_create o.ec o.cache_id) (λ id. ground arith) tt v)
      ]
    ]

pub take_thread_cache-Refers :
    (h : Heap) (thread owner arena : ℕ) (o : Answers) (c : ThreadCache)
    → (take_thread_cache h thread owner arena o).1 ≡ some c
    → Refers c (references (take_thread_cache h thread owner arena o).0)
take_thread_cache-Refers h thread owner arena o c e =
    elim (Option-cases (find arena (local_caches thread h.threads))) [
      | inr (d, here) ↦
          let t = take_thread_cache-here h thread owner arena o d here in
          rw t (
            Refers-local h thread c (
              find-Refers arena c _
                (here ∙ ap (λ (x : Heap × Option ThreadCache). x.1) (sym t) ∙ e)))
      | inl none_yet ↦ elim (Bool-cases (o.ec == 0)) [
        | inl opened ↦
            let t = take_thread_cache-new h thread owner arena o none_yet opened in
            rw t (
              subst (λ x. Refers x (references (with_cache h thread owner arena o))) (cc (t, e))
                ((Same-with_cache h thread owner arena o).to (new_cache h thread owner arena o)
                  (inl refl)))
        | inr failed ↦ cc (take_thread_cache-failed h thread owner arena o none_yet failed, e)
      ]
    ]
