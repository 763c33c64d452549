-- ===== src/Arena/Process/Invariant.antt =====
-- shm/arena_lend/jemalloc/ipc_arena.hpp and .cpp: what holds of the arenas of a process and of the objects in them at any
-- time.
use ipc_shm_arena_lend.Base.{
  ℕ, ◌≡◌, refl, sym, subst, ◌∙◌, true, false, ◌⊎◌, inl, inr, [], ◌∷◌, arith, ◌==◌, if◌then◌else◌,
  Bool-cases, Option, none, some,
}
use ipc_shm_arena_lend.Base.Dict.{Dict, find, erase, find-erase}
use ipc_shm_arena_lend.Memory.{Call, mallctl, arenas_create, arena_destroy}
use ipc_shm_arena_lend.Jemalloc.Objects.{
  Heap, Deleter, no_cache, cache, references, thread_references,
}
use ipc_shm_arena_lend.Jemalloc.Objects.Trace.{
  is_open, is_arena_open, allocation, Allows, IsMatched,
}
use ipc_shm_arena_lend.Jemalloc.Objects.Agreement.{Agrees-call}
use ipc_shm_arena_lend.Arena.Process.Steps.{is_held, owns_cache-Refers, owns_object-find}
use ipc_shm_arena_lend.Jemalloc.Objects.Sound.{IsSound-call}
use ipc_shm_arena_lend.Jemalloc.Objects.Heaps.{IsSoundHeap}
use ipc_shm_arena_lend.Jemalloc.Objects.Matching.{IsMatchedHeap}
use ipc_shm_arena_lend.Jemalloc.Objects.Ownership.{IsOwned, Keeps, home}
use ipc_shm_arena_lend.Arena.Process.{IpcArena, get_arena_id, get_pool_collection}

-- The jemalloc arena of the arena at an address.
unfoldable pub arena_of : Dict IpcArena → ℕ → Option ℕ
arena_of m k = elim (find k m) [ none ↦ none | some a ↦ get_arena_id a ]

-- An arena of jemalloc is open if an arena of the process has it, and then only one does; the objects and
-- the caches are in such arenas.
pub record IsAlive (arenas : Dict IpcArena) (h : Heap) : Type 0 where
  pub sound : IsSoundHeap h
  pub matched : IsMatchedHeap h
  pub owned : IsOwned (λ k i. arena_of arenas k ≡ some i) h
  pub separate : (k l i : ℕ) → arena_of arenas k ≡ some i → arena_of arenas l ≡ some i → k ≡ l
  pub held : (i : ℕ) → is_arena_open i h.calls ≡ true → (k : ℕ) × (arena_of arenas k ≡ some i)
  pub one :
      (k : ℕ) (a : IpcArena) → find k arenas ≡ some a → (i : ℕ) × (a.jemalloc.arenas ≡ (i, tt) ∷ [])

-- An operation on the heap that keeps what is owned.
pub IsAlive-heap :
    {arenas : Dict IpcArena} {h k : Heap}
    → IsAlive arenas h
    → IsSoundHeap k
    → IsMatchedHeap k
    → Keeps (λ a i. arena_of arenas a ≡ some i) h k
    → IsAlive arenas k
IsAlive-heap v s m w = record {
  sound = s;
  matched = m;
  owned = w.owned;
  separate = v.separate;
  held = λ i o. v.held i (sym (w.same i) ∙ o);
  one = v.one;
}

-- A call about an arena touches neither the thread caches nor the allocations.
module _ (h : Heap) (x : Call) where
  arena_call-IsSoundHeap :
      ((id : ℕ) → is_open id (x ∷ h.calls) ≡ is_open id h.calls)
      → Allows x h.calls
      → IsSoundHeap h
      → IsSoundHeap (record h { calls = x ∷ h.calls })
  unfolding references
  arena_call-IsSoundHeap e a s = IsSound-call x e a s

  arena_call-IsMatchedHeap :
      ((a : ℕ) → allocation a (x ∷ h.calls) ≡ allocation a h.calls)
      → (IsMatched h.calls → IsMatched (x ∷ h.calls))
      → IsMatchedHeap h
      → IsMatchedHeap (record h { calls = x ∷ h.calls })
  arena_call-IsMatchedHeap e m v = record { keys = v.keys; agrees = Agrees-call e m v.agrees }

arena_of-cons :
    (m : Dict IpcArena) (address k : ℕ) (a : IpcArena)
    → arena_of ((address, a) ∷ m) k ≡ (if address == k then get_arena_id a else arena_of m k)
unfolding arena_of find
arena_of-cons m address k a = ground arith

arena_of-erase :
    (m : Dict IpcArena) (address k : ℕ)
    → arena_of (erase address m) k ≡ (if address == k then none else arena_of m k)
unfolding arena_of
arena_of-erase m address k = ground (arith, find-erase address k m)

arena_of-absent : (m : Dict IpcArena) (k : ℕ) → find k m ≡ none → arena_of m k ≡ none
unfolding arena_of
arena_of-absent m k e = ground arith

module _ {m : Dict IpcArena} {h : Heap} (v : IsAlive m h) where
  -- The creation of an arena failed.
  pub failed-IsAlive :
      (hooks : Option ℕ) (ec id : ℕ)
      → (ec == 0) ≡ false
      → IsAlive m (record h { calls = mallctl (arenas_create hooks) ec id ∷ h.calls })
  unfolding is_arena_open is_open allocation
  failed-IsAlive hooks ec id f = record {
    sound = arena_call-IsSoundHeap h _ (λ i. refl) tt v.sound;
    matched = arena_call-IsMatchedHeap h _ (λ i. refl) (λ x. x) v.matched;
    owned = record {
      threads = v.owned.threads;
      objects = v.owned.objects;
      open_arena = λ k i o. ground (arith, v.owned.open_arena k i o);
      safe = (tt, v.owned.safe);
    };
    separate = v.separate;
    held = λ i o. v.held i (ground arith);
    one = v.one;
  }

  -- A new arena, of an ID that is not in use, at an address that is not in use.
  module _ (address : ℕ) (a : IpcArena) (id : ℕ) (fresh : find address m ≡ none)
      (new : is_arena_open id h.calls ≡ false) (only : a.jemalloc.arenas ≡ (id, tt) ∷ []) where
    its_id : get_arena_id a ≡ some id
    unfolding get_arena_id
    its_id = rw only refl

    kept : (k i : ℕ) → arena_of m k ≡ some i → arena_of ((address, a) ∷ m) k ≡ some i
    kept k i e = ground (arith, arena_of-cons m address k a, arena_of-absent m address fresh)

    known :
        (k i : ℕ)
        → arena_of ((address, a) ∷ m) k ≡ some i
        → ((k ≡ address) × (i ≡ id)) ⊎ (arena_of m k ≡ some i)
    known k i e = elim (Bool-cases (address == k)) [
      | inl same ↦ inl (ground arith, ground (arith, arena_of-cons m address k a, its_id))
      | inr other ↦ inr (ground (arith, arena_of-cons m address k a))
    ]

    added-separate :
        (k l i : ℕ)
        → arena_of ((address, a) ∷ m) k ≡ some i
        → arena_of ((address, a) ∷ m) l ≡ some i
        → k ≡ l
    added-separate k l i e f = elim (known k i e) [
      | inl (x, y) ↦ elim (known l i f) [
        | inl (z, w) ↦ x ∙ sym z
        | inr g ↦ cc (v.owned.open_arena l i g, new, y)
      ]
      | inr g ↦ elim (known l i f) [
        | inl (z, w) ↦ cc (v.owned.open_arena k i g, new, w)
        | inr n ↦ v.separate k l i g n
      ]
    ]

    pub added-IsAlive :
        (hooks : Option ℕ)
        → IsAlive
            ((address, a) ∷ m)
            (record h { calls = mallctl (arenas_create hooks) 0 id ∷ h.calls })
    unfolding is_arena_open is_open allocation find
    added-IsAlive hooks = record {
      sound = arena_call-IsSoundHeap h _ (λ i. refl) tt v.sound;
      matched = arena_call-IsMatchedHeap h _ (λ i. refl) (λ x. x) v.matched;
      owned = record {
        threads = λ c r. kept c.owner c.arena_id (v.owned.threads c r);
        objects = λ b d e. kept _ _ (v.owned.objects b d e);
        open_arena = λ k i o. elim (known k i o) [
          | inl (x, y) ↦ ground arith
          | inr g ↦ ground (arith, v.owned.open_arena k i g)
        ];
        safe = (tt, v.owned.safe);
      };
      separate = added-separate;
      held = λ i o. elim (Bool-cases (id == i)) [
        | inl same ↦ (address, ground (arith, arena_of-cons m address address a, its_id))
        | inr other ↦ let (k, e) = v.held i (ground arith) in (k, kept k i e)
      ];
      one = λ k b e. elim (Bool-cases (address == k)) [
        | inl same ↦
            let eq : a ≡ b = ground arith in
            (id, subst (λ (x : IpcArena). x.jemalloc.arenas ≡ (id, tt) ∷ []) eq only)
        | inr other ↦ v.one k b (ground arith)
      ];
    }

  -- The end of an arena that no cache and no object refers to.
  module _ (address id : ℕ) (free : is_held address h ≡ false)
      (here : arena_of m address ≡ some id) where
    gone :
        (k i : ℕ)
        → arena_of (erase address m) k ≡ some i
        → ((address == k) ≡ false) × (arena_of m k ≡ some i)
    gone k i e = ground (arith, arena_of-erase m address k)

    stays :
        (k i : ℕ)
        → (k == address) ≡ false
        → arena_of m k ≡ some i
        → arena_of (erase address m) k ≡ some i
    stays k i f e = ground (arith, arena_of-erase m address k)

    removed-objects :
        (d : Deleter)
        → (get_pool_collection d == address) ≡ false
        → arena_of m (home d).0 ≡ some (home d).1
        → arena_of (erase address m) (home d).0 ≡ some (home d).1
    unfolding get_pool_collection
    removed-objects (no_cache collection arena_id) f e = stays collection arena_id f e
    removed-objects (cache c) f e = stays c.owner c.arena_id f e

    removed-IsOwned :
        IsOwned
          (λ k i. arena_of (erase address m) k ≡ some i)
          (record h { calls = mallctl (arena_destroy id) 0 0 ∷ h.calls })
    unfolding is_arena_open is_held
    removed-IsOwned = record {
      threads = λ c r.
          stays c.owner c.arena_id
            (owns_cache-Refers address c (thread_references h.threads) (ground arith) r)
            (v.owned.threads c r);
      objects = λ b d e.
          removed-objects d.base (owns_object-find address b d h.objects (ground arith) e)
            (v.owned.objects b d e);
      open_arena = λ k i o.
          let (f, g) = gone k i o in
          ground (arith, v.owned.open_arena k i g, v.separate k address i g);
      safe = (v.owned.open_arena address id here, v.owned.safe);
    }

    pub removed-IsAlive :
        IsAlive (erase address m) (record h { calls = mallctl (arena_destroy id) 0 0 ∷ h.calls })
    unfolding is_arena_open is_open allocation
    removed-IsAlive = record {
      sound = arena_call-IsSoundHeap h _ (λ i. refl) tt v.sound;
      matched = arena_call-IsMatchedHeap h _ (λ i. refl) (λ x. x) v.matched;
      owned = removed-IsOwned;
      separate = λ k l i e f. v.separate k l i (gone k i e).1 (gone l i f).1;
      held = λ i o. let (k, e) = v.held i (ground arith) in (k, stays k i (ground arith) e);
      one = λ k a e. v.one k a (ground (arith, find-erase address k m));
    }
