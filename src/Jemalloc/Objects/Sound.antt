-- ===== src/Jemalloc/Objects/Sound.antt =====
-- Thread caches of shm/arena_lend/jemalloc/shm_pool_collection.cpp: the open ones are those that are referred to,
-- after each change of the references and each call.
use ipc_shm_arena_lend.Base.{
  ℕ, ◌≡◌, refl, sym, subst, ◌∙◌, true, false, inl, inr, List, [], ◌∷◌, ◌++◌, arith, ◌==◌,
  if◌then◌else◌, Bool-cases,
}
use ipc_shm_arena_lend.Memory.{Call, mallctl, tcache_create, destroy_thread_cache}
use ipc_shm_arena_lend.Jemalloc.Caches.{ThreadCache}
use ipc_shm_arena_lend.Jemalloc.Objects.{has_pointer, drop_references}
use ipc_shm_arena_lend.Jemalloc.Objects.References.{
  Refers, has_id, has_id-Refers, has_pointer-Refers, Refers-has_pointer, Refers-has_id, Same,
  has_id-Same,
}
use ipc_shm_arena_lend.Jemalloc.Objects.Trace.{is_open, IsSafe, Allows}

pub record IsSound (R : List ThreadCache) (t : List Call) : Type 0 where
  pub open_iff : (id : ℕ) → is_open id t ≡ has_id id R
  pub agree :
      (c d : ThreadCache)
      → Refers c R
      → Refers d R
      → (c.thread_cache_id == d.thread_cache_id) ≡ (c.pointer == d.pointer)
  pub safe : IsSafe t

pub IsSound-Same : {R S : List ThreadCache} {t : List Call} → Same R S → IsSound R t → IsSound S t
IsSound-Same s v = record {
  open_iff = λ id. v.open_iff id ∙ has_id-Same s id;
  agree = λ c d x y. v.agree c d (s.back c x) (s.back d y);
  safe = v.safe;
}

pub IsSound-is_open :
    {R : List ThreadCache} {t : List Call} (c : ThreadCache)
    → IsSound R t
    → Refers c R
    → is_open c.thread_cache_id t ≡ true
IsSound-is_open {R} c v r =
    v.open_iff c.thread_cache_id ∙ has_id-Refers c.thread_cache_id c R r refl

-- A call that opens and closes no cache.
pub IsSound-call :
    {R : List ThreadCache} {t : List Call} (x : Call)
    → ((id : ℕ) → is_open id (x ∷ t) ≡ is_open id t)
    → Allows x t
    → IsSound R t
    → IsSound R (x ∷ t)
IsSound-call x same allowed v = record {
  open_iff = λ id. same id ∙ v.open_iff id;
  agree = v.agree;
  safe = (allowed, v.safe);
}

-- One more reference to a cache that is referred to.
pub IsSound-copy :
    {R : List ThreadCache} {t : List Call} (c : ThreadCache)
    → Refers c R
    → IsSound R t
    → IsSound (c ∷ R) t
IsSound-copy {R} c r v =
    IsSound-Same
      (record {
        to = λ d x. inr x;
        back = λ d x. elim x [ inl e ↦ subst (λ y. Refers y R) e r | inr y ↦ y ];
      })
      v

module _ {R : List ThreadCache} {t : List Call} (c : ThreadCache) (v : IsSound R t) where
  new_agree :
      has_pointer c.pointer R ≡ false
      → is_open c.thread_cache_id t ≡ false
      → (d : ThreadCache) → Refers d R
      → ((c.thread_cache_id == d.thread_cache_id) ≡ false) × ((c.pointer == d.pointer) ≡ false)
  new_agree p o d r =
      (ground (arith, IsSound-is_open d v r), ground (arith, has_pointer-Refers c.pointer d R r))

  create_agree :
      has_pointer c.pointer R ≡ false
      → is_open c.thread_cache_id t ≡ false
      → (d e : ThreadCache) → Refers d (c ∷ R)
      → Refers e (c ∷ R)
      → (d.thread_cache_id == e.thread_cache_id) ≡ (d.pointer == e.pointer)
  create_agree p o d e (inl x) (inl y) = ground arith
  create_agree p o d e (inl x) (inr y) = ground (arith, new_agree p o e y)
  create_agree p o d e (inr x) (inl y) = ground (arith, new_agree p o d x)
  create_agree p o d e (inr x) (inr y) = v.agree d e x y

  -- The first reference to a new cache, whose address and ID are not in use.
  pub IsSound-create :
      has_pointer c.pointer R ≡ false
      → is_open c.thread_cache_id t ≡ false
      → IsSound (c ∷ R) (mallctl tcache_create 0 c.thread_cache_id ∷ t)
  unfolding is_open has_id
  IsSound-create p o = record {
    open_iff = λ id. ground (arith, v.open_iff id);
    agree = create_agree p o;
    safe = (tt, v.safe);
  }

module _ {R : List ThreadCache} {t : List Call} (c : ThreadCache) (v : IsSound (c ∷ R) t) where
  -- The ID of the cache is that of a reference that stays exactly if its address is.
  drop_has_id : has_id c.thread_cache_id R ≡ has_pointer c.pointer R
  drop_has_id = elim (Bool-cases (has_pointer c.pointer R)) [
    | inl present ↦
        let (d, r, e) = Refers-has_pointer c.pointer R present in
        has_id-Refers c.thread_cache_id d R r (ground (arith, v.agree c d (inl refl) (inr r)))
        ∙ sym present
    | inr absent ↦ elim (Bool-cases (has_id c.thread_cache_id R)) [
      | inl there ↦
          let (d, r, e) = Refers-has_id c.thread_cache_id R there in
          ground (arith, has_pointer-Refers c.pointer d R r, v.agree c d (inl refl) (inr r))
      | inr neither ↦ neither ∙ sym absent
    ]
  ]

  -- One reference goes.
  pub IsSound-drop :
      IsSound R
        (if has_pointer c.pointer R then t else (destroy_thread_cache c.thread_cache_id 0 t).0)
  unfolding destroy_thread_cache is_open has_id
  IsSound-drop = elim (Bool-cases (has_pointer c.pointer R)) [
    | inl present ↦ rw present (record {
      open_iff = λ id. ground (arith, v.open_iff id, drop_has_id);
      agree = λ d e x y. v.agree d e (inr x) (inr y);
      safe = v.safe;
    })
    | inr absent ↦ rw absent (record {
      open_iff = λ id. ground (arith, v.open_iff id, drop_has_id);
      agree = λ d e x y. v.agree d e (inr x) (inr y);
      safe = (IsSound-is_open c v (inl refl), v.safe);
    })
  ]

pub IsSound-drop_references :
    (cs R : List ThreadCache) (t : List Call)
    → IsSound (cs ++ R) t
    → IsSound R (drop_references cs R t)
unfolding drop_references
IsSound-drop_references [] R t v = v
IsSound-drop_references (c ∷ cs) R t v = IsSound-drop_references cs R _ (IsSound-drop c v)
