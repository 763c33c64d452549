-- ===== src/Jemalloc/Objects/References.antt =====
-- Lists of references to thread caches, up to order and number.
use ipc_shm_arena_lend.Base.{
  ℕ, ◌≡◌, refl, subst, sym, ◌∙◌, Bool, true, false, ◌||◌, ◌⊎◌, inl, inr, List, [], ◌∷◌, ◌++◌, arith,
  ◌==◌, Bool-cases, some,
}
use mathlib.Core.List.{append_assoc, append-nil}
use ipc_shm_arena_lend.Base.Dict.{Dict, find}
use ipc_shm_arena_lend.Jemalloc.Caches.{ThreadCache, remove_caches_by_owner}
use ipc_shm_arena_lend.Jemalloc.Objects.{
  ObjectDeleter, others, local_caches, caches_in, thread_references, reference_of,
  object_references, has_pointer, caches_of_owner,
}

abbrev pub Refers : ThreadCache → List ThreadCache → Type 0
Refers c [] = ⊥
Refers c (d ∷ R) = (d ≡ c) ⊎ Refers c R

unfoldable pub has_id : ℕ → List ThreadCache → Bool
has_id id [] = false
has_id id (c ∷ R) = (c.thread_cache_id == id) || has_id id R

pub has_id-Refers :
    (id : ℕ) (c : ThreadCache) (R : List ThreadCache)
    → Refers c R
    → c.thread_cache_id ≡ id
    → has_id id R ≡ true
unfolding has_id
has_id-Refers id c [] r e = elim r [ ]
has_id-Refers id c (d ∷ R) r e = ground (arith, has_id-Refers id c R)

pub has_pointer-Refers :
    (p : ℕ) (c : ThreadCache) (R : List ThreadCache)
    → Refers c R
    → c.pointer ≡ p
    → has_pointer p R ≡ true
unfolding has_pointer
has_pointer-Refers p c [] r e = elim r [ ]
has_pointer-Refers p c (d ∷ R) r e = ground (arith, has_pointer-Refers p c R)

pub Refers-has_id :
    (id : ℕ) (R : List ThreadCache)
    → has_id id R ≡ true
    → (c : ThreadCache) × Refers c R × (c.thread_cache_id ≡ id)
unfolding has_id
Refers-has_id id [] h = cc
Refers-has_id id (d ∷ R) h = elim (Bool-cases (d.thread_cache_id == id)) [
  | inl same ↦ (d, inl refl, ground arith)
  | inr other ↦ let (c, r, e) = Refers-has_id id R (ground arith) in (c, inr r, e)
]

pub Refers-has_pointer :
    (p : ℕ) (R : List ThreadCache)
    → has_pointer p R ≡ true
    → (c : ThreadCache) × Refers c R × (c.pointer ≡ p)
unfolding has_pointer
Refers-has_pointer p [] h = cc
Refers-has_pointer p (d ∷ R) h = elim (Bool-cases (d.pointer == p)) [
  | inl same ↦ (d, inl refl, ground arith)
  | inr other ↦ let (c, r, e) = Refers-has_pointer p R (ground arith) in (c, inr r, e)
]

-- The same references.
pub record Same (R S : List ThreadCache) : Type 0 where
  pub to : (c : ThreadCache) → Refers c R → Refers c S
  pub back : (c : ThreadCache) → Refers c S → Refers c R

pub has_id-Same : {R S : List ThreadCache} → Same R S → (id : ℕ) → has_id id R ≡ has_id id S
has_id-Same {R} {S} s id = elim (Bool-cases (has_id id R)) [
  | inl present ↦
      let (c, r, e) = Refers-has_id id R present in
      present ∙ sym (has_id-Refers id c S (s.to c r) e)
  | inr absent ↦ elim (Bool-cases (has_id id S)) [
    | inl there ↦
        let (c, r, e) = Refers-has_id id S there in cc (has_id-Refers id c R (s.back c r) e)
    | inr neither ↦ absent ∙ sym neither
  ]
]

pub Refers-append :
    (c : ThreadCache) (R S : List ThreadCache) → Refers c (R ++ S) → Refers c R ⊎ Refers c S
Refers-append c [] S r = inr r
Refers-append c (d ∷ R) S (inl e) = inl (inl e)
Refers-append c (d ∷ R) S (inr r) = elim (Refers-append c R S r) [
  | inl x ↦ inl (inr x)
  | inr y ↦ inr y
]

pub append-Refers :
    (c : ThreadCache) (R S : List ThreadCache) → Refers c R ⊎ Refers c S → Refers c (R ++ S)
append-Refers c [] S (inl r) = elim r [ ]
append-Refers c [] S (inr r) = r
append-Refers c (d ∷ R) S (inl (inl e)) = inl e
append-Refers c (d ∷ R) S (inl (inr r)) = inr (append-Refers c R S (inl r))
append-Refers c (d ∷ R) S (inr r) = inr (append-Refers c R S (inr r))

pub Same-refl : (R : List ThreadCache) → Same R R
Same-refl R = record { to = λ c r. r; back = λ c r. r }

-- What stays of a list where nothing stays.
pub Same-nil : (R : List ThreadCache) → Same R (R ++ [])
Same-nil R = subst (λ L. Same R L) (sym (append-nil R)) (Same-refl R)

pub Same-symm : {R S : List ThreadCache} → Same R S → Same S R
Same-symm s = record { to = s.back; back = s.to }

pub Same-trans : {R S T : List ThreadCache} → Same R S → Same S T → Same R T
Same-trans s t = record { to = λ c r. t.to c (s.to c r); back = λ c r. s.back c (t.back c r) }

append-subset :
    (R R' S S' : List ThreadCache)
    → ((c : ThreadCache) → Refers c R → Refers c R')
    → ((c : ThreadCache) → Refers c S → Refers c S')
    → (c : ThreadCache) → Refers c (R ++ S)
    → Refers c (R' ++ S')
append-subset R R' S S' f g c r = elim (Refers-append c R S r) [
  | inl x ↦ append-Refers c R' S' (inl (f c x))
  | inr y ↦ append-Refers c R' S' (inr (g c y))
]

pub Same-append : {R R' S S' : List ThreadCache} → Same R R' → Same S S' → Same (R ++ S) (R' ++ S')
Same-append {R} {R'} {S} {S'} s t = record {
  to = append-subset R R' S S' s.to t.to;
  back = append-subset R' R S' S s.back t.back;
}

comm-subset : (R S : List ThreadCache) (c : ThreadCache) → Refers c (R ++ S) → Refers c (S ++ R)
comm-subset R S c r = elim (Refers-append c R S r) [
  | inl x ↦ append-Refers c S R (inr x)
  | inr y ↦ append-Refers c S R (inl y)
]

pub Same-comm : (R S : List ThreadCache) → Same (R ++ S) (S ++ R)
Same-comm R S = record { to = comm-subset R S; back = comm-subset S R }

pub Same-assoc : (R S T : List ThreadCache) → Same ((R ++ S) ++ T) (R ++ (S ++ T))
Same-assoc R S T =
    subst (λ L. Same ((R ++ S) ++ T) L) (append_assoc R S T) (Same-refl ((R ++ S) ++ T))

-- The middle of three comes to the front.
pub Same-middle : (R S T : List ThreadCache) → Same (R ++ (S ++ T)) (S ++ (R ++ T))
Same-middle R S T =
    Same-trans (Same-symm (Same-assoc R S T))
      (Same-trans (Same-append (Same-comm R S) (Same-refl T)) (Same-assoc S R T))

pub Same-threads :
    (thread : ℕ) (ts : Dict (Dict ThreadCache))
    → Same
        (thread_references ts)
        (caches_in (local_caches thread ts) ++ thread_references (others thread ts))
unfolding thread_references local_caches others find caches_in
Same-threads thread [] = Same-refl []
Same-threads thread ((k, m) ∷ ts) = elim (Bool-cases (k == thread)) [
  | inl same ↦ rw (same, local_caches) (Same-refl (caches_in m ++ thread_references ts))
  | inr other ↦
      rw (other, local_caches)
        (Same-trans (Same-append (Same-refl (caches_in m)) (Same-threads thread ts)) (
          Same-middle (caches_in m) (caches_in (local_caches thread ts))
            (thread_references (others thread ts))))
]

pub Same-objects :
    (address : ℕ) (d : ObjectDeleter) (m : Dict ObjectDeleter)
    → find address m ≡ some d
    → Same (object_references m) (reference_of d.base ++ object_references (others address m))
unfolding object_references others find
Same-objects address d [] h = cc
Same-objects address d ((a, e) ∷ m) h = elim (Bool-cases (a == address)) [
  | inl same ↦
      let eq : e ≡ d = ground arith in
      rw same (
        subst
          (λ x.
            Same (reference_of e.base ++ object_references m)
              (reference_of x.base ++ object_references m))
          eq (Same-refl (reference_of e.base ++ object_references m)))
  | inr other ↦ rw other (
      Same-trans
        (Same-append (Same-refl (reference_of e.base)) (Same-objects address d m (ground arith)))
        (Same-middle (reference_of e.base) (reference_of d.base)
          (object_references (others address m))))
]

pub Same-owner :
    (m : Dict ThreadCache) (owner : ℕ)
    → Same (caches_in m) (caches_of_owner m owner ++ caches_in (remove_caches_by_owner m owner).0)
unfolding caches_in caches_of_owner remove_caches_by_owner
Same-owner [] owner = Same-refl []
Same-owner ((k, c) ∷ m) owner = elim (Bool-cases (owner == c.owner)) [
  | inl same ↦ rw same (Same-append (Same-refl (c ∷ [])) (Same-owner m owner))
  | inr other ↦ rw other (
      Same-trans (Same-append (Same-refl (c ∷ [])) (Same-owner m owner)) (
        Same-middle (c ∷ []) (caches_of_owner m owner)
          (caches_in (remove_caches_by_owner m owner).0)))
]

pub find-Refers :
    (k : ℕ) (c : ThreadCache) (m : Dict ThreadCache) → find k m ≡ some c → Refers c (caches_in m)
unfolding find caches_in
find-Refers k c [] h = cc
find-Refers k c ((j, d) ∷ m) h = ground (arith, find-Refers k c m)
