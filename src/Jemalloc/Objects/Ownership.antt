-- ===== src/Jemalloc/Objects/Ownership.antt =====
-- The arenas that the objects and the caches of shm/arena_lend/jemalloc/shm_pool_collection.hpp and .cpp belong to,
-- where `Owns` says which collection has which arena.
use ipc_shm_arena_lend.Base.{
  ℕ, ◌≡◌, refl, subst, ◌∙◌, true, inl, inr, List, [], ◌∷◌, ◌++◌, arith, ◌==◌, Bool-cases, some,
}
use ipc_shm_arena_lend.Base.Dict.{Dict, find}
use ipc_shm_arena_lend.Memory.{Call, mallctl, tcache_flush, destroy_thread_cache}
use ipc_shm_arena_lend.Jemalloc.Caches.{ThreadCache}
use ipc_shm_arena_lend.Jemalloc.Objects.{
  Heap, ObjectDeleter, Deleter, no_cache, cache, references, thread_references, caches_in,
  local_caches, set_local_caches, others, has_pointer, release_references, drop_references,
  delete_object, flush_each,
}
use ipc_shm_arena_lend.Jemalloc.Objects.References.{
  Refers, Same-threads, Refers-append, append-Refers,
}
use ipc_shm_arena_lend.Jemalloc.Objects.Trace.{is_arena_open, IsArenaSafe}
use ipc_shm_arena_lend.Jemalloc.Objects.Agreement.{HasOneEach, find-others}

-- The collection and the arena of a deleter.
abbrev pub home : Deleter → ℕ × ℕ
home (no_cache collection arena_id) = (collection, arena_id)
home (cache c) = (c.owner, c.arena_id)

module _ (Owns : ℕ → ℕ → Type 0) where
  abbrev pub ThreadsOwned : Dict (Dict ThreadCache) → Type 0
  ThreadsOwned ts = (c : ThreadCache) → Refers c (thread_references ts) → Owns c.owner c.arena_id

  abbrev pub ObjectsOwned : Dict ObjectDeleter → Type 0
  ObjectsOwned m =
      (a : ℕ) (d : ObjectDeleter) → find a m ≡ some d → Owns (home d.base).0 (home d.base).1

  pub record IsOwned (h : Heap) : Type 0 where
    pub threads : ThreadsOwned h.threads
    pub objects : ObjectsOwned h.objects
    pub open_arena : (k i : ℕ) → Owns k i → is_arena_open i h.calls ≡ true
    pub safe : IsArenaSafe h.calls

  -- One operation: what is owned stays so, and no arena is opened or closed.
  pub record Keeps (h k : Heap) : Type 0 where
    pub owned : IsOwned k
    pub same : (i : ℕ) → is_arena_open i k.calls ≡ is_arena_open i h.calls

-- Calls that leave the arenas as they are.
pub record Quiet (t t' : List Call) : Type 0 where
  pub still : (i : ℕ) → is_arena_open i t' ≡ is_arena_open i t
  pub allowed : IsArenaSafe t → IsArenaSafe t'

pub drop_references-Quiet :
    (cs R : List ThreadCache) (t : List Call) → Quiet t (drop_references cs R t)
unfolding drop_references is_arena_open
drop_references-Quiet [] R t = record { still = λ i. refl; allowed = λ s. s }
drop_references-Quiet (c ∷ cs) R t = elim (Bool-cases (has_pointer c.pointer (cs ++ R))) [
  | inl present ↦ rw present (drop_references-Quiet cs R t)
  | inr absent ↦
      let q = drop_references-Quiet cs R (destroy_thread_cache c.thread_cache_id 0 t).0 in
      rw absent (record { still = λ i. q.still i; allowed = λ s. q.allowed (tt, s) })
]

pub flush_each-Quiet :
    (ec : ℕ → ℕ) (m : Dict ThreadCache) (t : List Call) → Quiet t (flush_each ec m t).0
unfolding flush_each is_arena_open
flush_each-Quiet ec [] t = record { still = λ i. refl; allowed = λ s. s }
flush_each-Quiet ec ((k, c) ∷ m) t =
    let q =
      flush_each-Quiet ec m
        (mallctl (tcache_flush c.thread_cache_id) (ec c.thread_cache_id) 0 ∷ t) in
    elim (Bool-cases (ec c.thread_cache_id == 0)) [
      | inl done ↦
          rw (done, flush_each)
            (record { still = λ i. q.still i; allowed = λ s. q.allowed (tt, s) })
      | inr fails ↦ rw (fails, flush_each) (record { still = λ i. refl; allowed = λ s. (tt, s) })
    ]

delete_object-Quiet :
    (d : Deleter) (a : ℕ) (t : List Call)
    → is_arena_open (home d).1 t ≡ true
    → Quiet t (delete_object d a t)
unfolding delete_object is_arena_open
delete_object-Quiet (no_cache collection arena) a t o = record {
  still = λ i. refl;
  allowed = λ s. (o, s);
}
delete_object-Quiet (cache c) a t o = record { still = λ i. refl; allowed = λ s. (o, s) }

module _ (Owns : ℕ → ℕ → Type 0) {h : Heap} (v : IsOwned Owns h) where
  pub calls-Keeps : (t : List Call) → Quiet h.calls t → Keeps Owns h (record h { calls = t })
  calls-Keeps t q = record {
    owned = record {
      threads = v.threads;
      objects = v.objects;
      open_arena = λ k i o. q.still i ∙ v.open_arena k i o;
      safe = q.allowed v.safe;
    };
    same = q.still;
  }

  pub release_references-Keeps : (cs : List ThreadCache) → Keeps Owns h (release_references cs h)
  unfolding release_references
  release_references-Keeps cs = calls-Keeps _ (drop_references-Quiet cs (references h) h.calls)

  set_local_caches-ThreadsOwned :
      (thread : ℕ) (m : Dict ThreadCache)
      → ((c : ThreadCache) → Refers c (caches_in m) → Owns c.owner c.arena_id)
      → ThreadsOwned Owns (set_local_caches thread m h.threads)
  unfolding set_local_caches thread_references
  set_local_caches-ThreadsOwned thread m f c r =
      elim (Refers-append c (caches_in m) (thread_references (others thread h.threads)) r) [
        | inl x ↦ f c x
        | inr y ↦ v.threads c (
            (Same-threads thread h.threads).back c
              (append-Refers c (caches_in (local_caches thread h.threads)) _ (inr y)))
      ]

  pub local-Owned :
      (thread : ℕ) (c : ThreadCache)
      → Refers c (caches_in (local_caches thread h.threads))
      → Owns c.owner c.arena_id
  local-Owned thread c r =
      v.threads c ((Same-threads thread h.threads).back c (append-Refers c _ _ (inl r)))

  pub local-IsOwned :
      (thread : ℕ) (m : Dict ThreadCache)
      → ((c : ThreadCache) → Refers c (caches_in m) → Owns c.owner c.arena_id)
      → IsOwned Owns (record h { threads = set_local_caches thread m h.threads })
  local-IsOwned thread m f = record {
    threads = set_local_caches-ThreadsOwned thread m f;
    objects = v.objects;
    open_arena = v.open_arena;
    safe = v.safe;
  }

  pub delete-IsOwned :
      (a : ℕ) (d : ObjectDeleter)
      → HasOneEach h.objects
      → find a h.objects ≡ some d
      → Keeps Owns h
          (record h { objects = others a h.objects; calls = delete_object d.base a h.calls })
  delete-IsOwned a d u here =
      let q = delete_object-Quiet d.base a h.calls (v.open_arena _ _ (v.objects a d here)) in
      record {
        owned = record {
          threads = v.threads;
          objects = λ b e x. v.objects b e (ground (arith, find-others a b h.objects u));
          open_arena = λ k i o. q.still i ∙ v.open_arena k i o;
          safe = q.allowed v.safe;
        };
        same = q.still;
      }

  pub insert-IsOwned :
      (a : ℕ) (d : ObjectDeleter)
      → Owns (home d.base).0 (home d.base).1
      → IsOwned Owns (record h { objects = (a, d) ∷ h.objects })
  unfolding find
  insert-IsOwned a d o = record {
    threads = v.threads;
    objects = λ b e x. elim (Bool-cases (a == b)) [
      | inl same ↦
          let eq : d ≡ e = ground arith in subst (λ y. Owns (home y.base).0 (home y.base).1) eq o
      | inr other ↦ v.objects b e (ground arith)
    ];
    open_arena = v.open_arena;
    safe = v.safe;
  }

pub Keeps-trans :
    (Owns : ℕ → ℕ → Type 0) {h k l : Heap} → Keeps Owns h k → Keeps Owns k l → Keeps Owns h l
Keeps-trans Owns p q = record { owned = q.owned; same = λ i. q.same i ∙ p.same i }
