-- ===== src/Jemalloc/Objects/Upkeep.antt =====
-- Each operation on the objects and the caches of shm/arena_lend/jemalloc/shm_pool_collection.hpp and .cpp keeps them in
-- arenas that are owned.
use ipc_shm_arena_lend.Base.{
  ℕ, ◌≡◌, refl, subst, ◌∙◌, Bool, true, false, inl, inr, List, [], ◌∷◌, ◌++◌, ◌==◌, Bool-cases,
  Option-cases, Option, some,
}
use ipc_shm_arena_lend.Base.Dict.{Dict, find}
use ipc_shm_arena_lend.Memory.{CacheFlags, tcache_none, tcache, mallocx, mallctl, tcache_create}
use ipc_shm_arena_lend.Jemalloc.Caches.{ThreadCache, remove_caches_by_owner}
use ipc_shm_arena_lend.Jemalloc.Objects.{
  Heap, Answers, ObjectDeleter, no_cache, cache, caches_in, caches_of_owner, reference_of,
  local_caches, set_local_caches, release_references, take_thread_cache, construct_helper,
  construct_no_cache, construct_cached, construct, release_object, remove_current_thread_cache,
  exit_thread, flush_current_thread_cache_all,
}
use ipc_shm_arena_lend.Jemalloc.Objects.References.{
  Same, Same-nil, find-Refers, Same-owner, append-Refers,
}
use ipc_shm_arena_lend.Jemalloc.Objects.Trace.{is_arena_open}
use ipc_shm_arena_lend.Jemalloc.Objects.Take.{
  new_cache, with_cache, take_thread_cache-here, take_thread_cache-failed, take_thread_cache-new,
}
use ipc_shm_arena_lend.Jemalloc.Objects.Matching.{IsMatchedHeap, take_thread_cache-TakesCache}
use ipc_shm_arena_lend.Jemalloc.Objects.Agreement.{HasOneEach}
use ipc_shm_arena_lend.Jemalloc.Objects.Ownership.{
  home, IsOwned, Keeps, flush_each-Quiet, calls-Keeps, release_references-Keeps, local-Owned,
  local-IsOwned, delete-IsOwned, insert-IsOwned, Keeps-trans,
}

module _ (Owns : ℕ → ℕ → Type 0) {h : Heap} (v : IsOwned Owns h) where
  pub release_object-Keeps : (a : ℕ) → HasOneEach h.objects → Keeps Owns h (release_object h a)
  unfolding release_object
  release_object-Keeps a u = elim (Option-cases (find a h.objects)) [
    | inl absent ↦ rw (absent, release_object) (record { owned = v; same = λ i. refl })
    | inr (d, here) ↦
        let w = delete-IsOwned Owns v a d u here in
        rw (here, release_object)
          (Keeps-trans Owns w (release_references-Keeps Owns w.owned (reference_of d.base)))
  ]

  leave_local-Keeps :
      (thread : ℕ) (cs : List ThreadCache) (kept : Dict ThreadCache)
      → Same (caches_in (local_caches thread h.threads)) (cs ++ caches_in kept)
      → Keeps Owns h
          (release_references cs (record h { threads = set_local_caches thread kept h.threads }))
  leave_local-Keeps thread cs kept s =
      let w = local-IsOwned Owns v thread kept λ c r.
        local-Owned Owns v thread c (s.back c (append-Refers c cs (caches_in kept) (inr r))) in
      Keeps-trans Owns (record { owned = w; same = λ i. refl }) (release_references-Keeps Owns w cs)

  pub remove_current_thread_cache-Keeps :
      (thread owner : ℕ) → Keeps Owns h (remove_current_thread_cache h thread owner)
  unfolding remove_current_thread_cache
  remove_current_thread_cache-Keeps thread owner =
      leave_local-Keeps thread (caches_of_owner (local_caches thread h.threads) owner)
        (remove_caches_by_owner (local_caches thread h.threads) owner).0
        (Same-owner (local_caches thread h.threads) owner)

  pub exit_thread-Keeps : (thread : ℕ) → Keeps Owns h (exit_thread h thread)
  unfolding exit_thread caches_in
  exit_thread-Keeps thread =
      leave_local-Keeps thread (caches_in (local_caches thread h.threads)) []
        (Same-nil (caches_in (local_caches thread h.threads)))

  pub flush-Keeps :
      (thread : ℕ) (ec : ℕ → ℕ) → Keeps Owns h (flush_current_thread_cache_all h thread ec).0
  unfolding flush_current_thread_cache_all
  flush-Keeps thread ec =
      calls-Keeps Owns v _ (flush_each-Quiet ec (local_caches thread h.threads) h.calls)

  release_leaked-Keeps :
      {k : Heap} (a : ℕ) (cs : List ThreadCache)
      → Keeps Owns h k
      → Keeps Owns h (release_references cs (record k { leaked = a ∷ k.leaked }))
  release_leaked-Keeps {k} a cs w =
      let o = w.owned in
      let l : IsOwned Owns (record k { leaked = a ∷ k.leaked }) = record {
        threads = o.threads;
        objects = o.objects;
        open_arena = o.open_arena;
        safe = o.safe;
      } in
      Keeps-trans Owns (record { owned = l; same = w.same }) (release_references-Keeps Owns l cs)

  -- `construct_helper` after an allocation in an arena that is owned.
  construct_helper-Keeps :
      (size a : ℕ) (d : ObjectDeleter) (f : CacheFlags) (throws : Bool)
      → Owns (home d.base).0 (home d.base).1
      → Keeps Owns h
          (construct_helper
            (record h { calls = mallocx size (home d.base).1 f a ∷ h.calls })
            a
            d
            throws).0
  unfolding construct_helper is_arena_open
  construct_helper-Keeps size a d f throws o =
      let w =
        calls-Keeps Owns v (mallocx size (home d.base).1 f a ∷ h.calls)
          (record { still = λ i. refl; allowed = λ s. (v.open_arena _ _ o, s) }) in
      elim (Bool-cases (a == 0)) [
        | inl null ↦
            rw null
              (Keeps-trans Owns w (release_references-Keeps Owns w.owned (reference_of d.base)))
        | inr there ↦ elim (Bool-cases throws) [
          | inl fails ↦ rw (there, fails) (release_leaked-Keeps a (reference_of d.base) w)
          | inr built ↦
              rw (there, built)
                (record { owned = insert-IsOwned Owns w.owned a d o; same = w.same })
        ]
      ]

-- A thread takes a cache for an arena: it belongs to a collection that has its arena.
pub record Takes (Owns : ℕ → ℕ → Type 0) (h k : Heap) (o : Option ThreadCache) : Type 0 where
  pub keeps : Keeps Owns h k
  pub has_home : (c : ThreadCache) → o ≡ some c → Owns c.owner c.arena_id

module _ (Owns : ℕ → ℕ → Type 0) {h : Heap} (v : IsOwned Owns h) (thread owner arena : ℕ)
    (o : Answers) where
  with_cache-Keeps : Owns owner arena → Keeps Owns h (with_cache h thread owner arena o)
  unfolding with_cache is_arena_open caches_in
  with_cache-Keeps own =
      let w =
        local-IsOwned Owns v thread
          ((arena, new_cache h thread owner arena o) ∷ local_caches thread h.threads)
          λ c r. elim r [
            | inl e ↦ subst (λ (x : ThreadCache). Owns x.owner x.arena_id) e own
            | inr y ↦ local-Owned Owns v thread c y
          ] in
      Keeps-trans Owns (record { owned = w; same = λ i. refl })
        (calls-Keeps Owns w (mallctl tcache_create o.ec o.cache_id ∷ h.calls)
          (record { still = λ i. refl; allowed = λ s. (tt, s) }))

  pub take_thread_cache-Takes :
      Owns owner arena
      → Takes Owns h
          (take_thread_cache h thread owner arena o).0
          (take_thread_cache h thread owner arena o).1
  unfolding is_arena_open
  take_thread_cache-Takes own = elim (Option-cases (find arena (local_caches thread h.threads))) [
    | inr (c, here) ↦ rw (take_thread_cache-here h thread owner arena o c here) (record {
      keeps = record { owned = v; same = λ i. refl };
      has_home = λ d e.
          local-Owned Owns v thread d
            (find-Refers arena d (local_caches thread h.threads) (here ∙ e));
    })
    | inl none_yet ↦ elim (Bool-cases (o.ec == 0)) [
      | inl opened ↦ rw (take_thread_cache-new h thread owner arena o none_yet opened) (record {
        keeps = with_cache-Keeps own;
        has_home = λ d e.
            let eq : new_cache h thread owner arena o ≡ d = cc in
            subst (λ (x : ThreadCache). Owns x.owner x.arena_id) eq own;
      })
      | inr failed ↦ rw (take_thread_cache-failed h thread owner arena o none_yet failed) (record {
        keeps =
            calls-Keeps Owns v (mallctl tcache_create o.ec o.cache_id ∷ h.calls)
              (record { still = λ i. refl; allowed = λ s. (tt, s) });
        has_home = λ d e. cc;
      })
    ]
  ]

construct_cached-Keeps :
    (Owns : ℕ → ℕ → Type 0) (is_ipc : Bool) {h : Heap} (c : ThreadCache) (arena size : ℕ)
    (o : Answers)
    → c.arena_id ≡ arena
    → Owns c.owner c.arena_id
    → IsOwned Owns h
    → Keeps Owns h (construct_cached is_ipc h c arena size o).0
unfolding construct_cached
construct_cached-Keeps Owns is_ipc {h} c arena size o e own v =
    subst (λ a. Keeps Owns h (construct_cached is_ipc h c a size o).0) e
      (construct_helper-Keeps Owns v size o.address (record { is_ipc = is_ipc; base = cache c })
        (tcache c.thread_cache_id) o.throws own)

pub construct-Keeps :
    (Owns : ℕ → ℕ → Type 0) (is_ipc : Bool) (h : Heap) (thread collection arena : ℕ)
    (use_cache : Bool) (size : ℕ) (o : Answers)
    → IsMatchedHeap h
    → Owns collection arena
    → IsOwned Owns h
    → Keeps Owns h (construct is_ipc h thread collection arena use_cache size o).0
unfolding construct construct_no_cache
construct-Keeps Owns is_ipc h thread collection arena false size o m own v =
    construct_helper-Keeps Owns v size o.address
      (record { is_ipc = is_ipc; base = no_cache collection arena }) tcache_none o.throws own
construct-Keeps Owns is_ipc h thread collection arena true size o m own v =
    let w = take_thread_cache-Takes Owns v thread collection arena o own in
    let k = take_thread_cache-TakesCache h m thread collection arena o in
    elim (Option-cases (take_thread_cache h thread collection arena o).1) [
      | inl fails ↦ rw fails w.keeps
      | inr (c, e) ↦ rw e (
          Keeps-trans Owns w.keeps (
            construct_cached-Keeps Owns is_ipc c arena size o (k.of_arena c e) (w.has_home c e)
              w.keeps.owned))
    ]
