-- ===== src/Jemalloc/Objects/Agreement.antt =====
-- The allocations in use, as the calls of jemalloc tell, and the objects of shm/arena_lend/jemalloc/
-- shm_pool_collection.hpp with their deleters.
use ipc_shm_arena_lend.Base.{
  ℕ, ◌≡◌, refl, ◌∙◌, Bool, true, false, ◌||◌, inl, inr, List, [], ◌∷◌, ◌++◌, arith, ◌==◌,
  if◌then◌else◌, Bool-cases, Option-cases, none, some,
}
use ipc_shm_arena_lend.Base.Dict.{Dict, find}
use ipc_shm_arena_lend.Memory.{Call, CacheFlags, tcache_none, tcache, mallocx, dallocx}
use ipc_shm_arena_lend.Jemalloc.Caches.{ThreadCache}
use ipc_shm_arena_lend.Jemalloc.Objects.{
  ObjectDeleter, Deleter, no_cache, cache, others, has_pointer, drop_references, delete_object,
  flush_each,
}
use ipc_shm_arena_lend.Jemalloc.Objects.Trace.{allocation, IsMatched}

abbrev pub allocation_of : Deleter → ℕ × CacheFlags
allocation_of (no_cache collection arena_id) = (arena_id, tcache_none)
allocation_of (cache c) = (c.arena_id, tcache c.thread_cache_id)

unfoldable pub is_leaked : ℕ → List ℕ → Bool
is_leaked a [] = false
is_leaked a (b ∷ bs) = (b == a) || is_leaked a bs

-- One handle for each object.
abbrev pub HasOneEach : Dict ObjectDeleter → Type 0
HasOneEach [] = Unit {0}
HasOneEach ((a, d) ∷ m) = (find a m ≡ none) × HasOneEach m

-- The objects agree with the calls.
pub record Agrees (objects : Dict ObjectDeleter) (leaked : List ℕ) (t : List Call) : Type 0 where
  pub single : HasOneEach objects
  pub matched : IsMatched t
  pub owned :
      (a : ℕ) (d : ObjectDeleter)
      → find a objects ≡ some d
      → allocation a t ≡ some (allocation_of d.base)
  pub freed : (a : ℕ) → find a objects ≡ none → is_leaked a leaked ≡ false → allocation a t ≡ none

pub find-others :
    (k j : ℕ) (m : Dict ObjectDeleter)
    → HasOneEach m
    → find j (others k m) ≡ (if k == j then none else find j m)
unfolding find others
find-others k j [] u = ground arith
find-others k j ((i, d) ∷ m) (n, u) = ground (arith, find-others k j m u)

pub others-HasOneEach : (k : ℕ) (m : Dict ObjectDeleter) → HasOneEach m → HasOneEach (others k m)
unfolding others
others-HasOneEach k [] u = tt
others-HasOneEach k ((i, d) ∷ m) (n, u) =
    ground (arith, others-HasOneEach k m u, find-others k i m u)

-- A call that allocates nothing.
pub Agrees-call :
    {objects : Dict ObjectDeleter} {leaked : List ℕ} {t t' : List Call}
    → ((a : ℕ) → allocation a t' ≡ allocation a t)
    → (IsMatched t → IsMatched t')
    → Agrees objects leaked t
    → Agrees objects leaked t'
Agrees-call same m v = record {
  single = v.single;
  matched = m v.matched;
  owned = λ a d e. same a ∙ v.owned a d e;
  freed = λ a e l. same a ∙ v.freed a e l;
}

pub drop_references-Agrees :
    (cs R : List ThreadCache) {objects : Dict ObjectDeleter} {leaked : List ℕ} {t : List Call}
    → Agrees objects leaked t
    → Agrees objects leaked (drop_references cs R t)
unfolding drop_references allocation
drop_references-Agrees [] R v = v
drop_references-Agrees (c ∷ cs) R v = elim (Bool-cases (has_pointer c.pointer (cs ++ R))) [
  | inl present ↦ rw present (drop_references-Agrees cs R v)
  | inr absent ↦ rw absent (drop_references-Agrees cs R (Agrees-call (λ a. refl) (λ m. m) v))
]

pub flush_each-Agrees :
    (ec : ℕ → ℕ) (m : Dict ThreadCache) {objects : Dict ObjectDeleter} {leaked : List ℕ}
    {t : List Call}
    → Agrees objects leaked t
    → Agrees objects leaked (flush_each ec m t).0
unfolding flush_each allocation
flush_each-Agrees ec [] v = v
flush_each-Agrees ec ((k, c) ∷ m) v =
    let w = Agrees-call (λ a. refl) (λ m. m) v in
    elim (Bool-cases (ec c.thread_cache_id == 0)) [
      | inl done ↦ rw (done, flush_each) (flush_each-Agrees ec m w)
      | inr fails ↦ rw (fails, flush_each) w
    ]

pub delete_object-dallocx :
    (d : Deleter) (a : ℕ) (t : List Call)
    → delete_object d a t ≡ dallocx a (allocation_of d).0 (allocation_of d).1 ∷ t
unfolding delete_object
delete_object-dallocx (no_cache collection arena) a t = refl
delete_object-dallocx (cache c) a t = refl

module _ {objects : Dict ObjectDeleter} {leaked : List ℕ} {t : List Call}
    (v : Agrees objects leaked t) where
  -- An allocation at a new address: it is null, its object is constructed, or it is leaked.
  pub allocate-null :
      (size arena : ℕ) (f : CacheFlags) (a : ℕ)
      → (a == 0) ≡ true
      → Agrees objects leaked (mallocx size arena f a ∷ t)
  unfolding allocation
  allocate-null size arena f a null = Agrees-call (λ b. ground arith) (λ m. m) v

  pub allocate-object :
      (size : ℕ) (a : ℕ) (d : ObjectDeleter)
      → allocation a t ≡ none
      → (a == 0) ≡ false
      → Agrees
          ((a, d) ∷ objects)
          leaked
          (mallocx size (allocation_of d.base).0 (allocation_of d.base).1 a ∷ t)
  unfolding allocation find
  allocate-object size a d new some_address = record {
    single = (
      elim (Option-cases (find a objects)) [ inl n ↦ n | inr (e, h) ↦ cc (v.owned a e h, new) ],
      v.single,
    );
    matched = v.matched;
    owned = λ b e h. ground (arith, v.owned b e);
    freed = λ b h l. ground (arith, v.freed b);
  }

  pub allocate-leaked :
      (size arena : ℕ) (f : CacheFlags) (a : ℕ)
      → allocation a t ≡ none
      → (a == 0) ≡ false
      → Agrees objects (a ∷ leaked) (mallocx size arena f a ∷ t)
  unfolding allocation is_leaked
  allocate-leaked size arena f a new some_address = record {
    single = v.single;
    matched = v.matched;
    owned = λ b e h. ground (arith, v.owned b e h);
    freed = λ b h l. ground (arith, v.freed b h);
  }

  pub delete-object :
      (a : ℕ) (d : ObjectDeleter)
      → find a objects ≡ some d
      → Agrees (others a objects) leaked (delete_object d.base a t)
  unfolding allocation
  delete-object a d here = rw (delete_object-dallocx d.base a t) (record {
    single = others-HasOneEach a objects v.single;
    matched = (v.owned a d here, v.matched);
    owned = λ b e h. ground (arith, find-others a b objects v.single, v.owned b e);
    freed = λ b h l. ground (arith, find-others a b objects v.single, v.freed b);
  })
