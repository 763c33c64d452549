-- ===== src/Repository/Borrower/Counts.antt =====
-- The use counts of shm/arena_lend/borrower_shm_pool_repository.cpp.
use mathlib.Core.Option
use ipc_shm_arena_lend.Base.{
  ℕ, zero, suc, ◌+◌, ◌-◌, ◌≡◌, refl, ◌∙◌, true, Option, none, some, leb, ltb, if◌then◌else◌, ◌==◌,
  arith, Bool-cases, Option-cases, inl, inr,
}
use ipc_shm_arena_lend.Base.Dict.{find, assign, is_some, find-assign, find-erase}
use ipc_shm_arena_lend.Pool.{Pool}
use ipc_shm_arena_lend.AddressMap.{pool_like}
use ipc_shm_arena_lend.Repository.Invariant.{IsConsistent, insert_cases, erase_pool-IsConsistent}
use ipc_shm_arena_lend.Repository.{Repository, erase_pool, erase_locked, insert}
use ipc_shm_arena_lend.Repository.Borrower.{
  UseCounted, UseTracker, tracker_holder, increment_use, erase_or_decrement_use,
}

module _ {C : Type 0} ⦃u : UseCounted C⦄ where
  -- How many registrations of a pool are outstanding; 0 for an unknown one.
  unfoldable pub count_of : Option (UseTracker C) → ℕ
  count_of none = 0
  count_of (some t) = u.get_use_count t.uses

  unfoldable pub uses : Repository (UseTracker C) → ℕ → ℕ
  unfolding count_of
  uses r id = count_of (find id r.id_map)

  -- A pool with another counter.
  swapped-IsConsistent :
      (r : Repository (UseTracker C)) (id : ℕ) (t : UseTracker C) (c' : C)
      → find id r.id_map ≡ some t
      → IsConsistent r
      → IsConsistent (record r { id_map = assign id (record t { uses = c' }) r.id_map })
  swapped-IsConsistent r id t c' e c =
      let t' : UseTracker C = record t { uses = c' } in
      record {
        laid_out = c.laid_out;
        by_id = λ j g f. elim (Bool-cases (id == j)) [
          | inl hit ↦
              let (x, y) = c.by_id id t e in
              let law = find-assign id j t' r.id_map in
              let same : g.shm_pool ≡ t.shm_pool = ground (arith, law, f, e) in
              (ground arith, rw same y)
          | inr miss ↦ c.by_id j g (ground (arith, find-assign id j t' r.id_map, f))
        ];
        by_address = λ a p f.
            let (g, x, y) = c.by_address a p f in
            elim (Bool-cases (id == p.id)) [
              | inl hit ↦
                  (t', ground (arith, find-assign id p.id t' r.id_map, e, x), ground (arith, e, x))
              | inr miss ↦ (g, ground (arith, find-assign id p.id t' r.id_map, x), y)
            ];
      }

  erased-IsConsistent :
      (r : Repository (UseTracker C)) (id : ℕ) (t : UseTracker C)
      → find id r.id_map ≡ some t
      → IsConsistent r
      → IsConsistent (erase_locked r id t)
  unfolding erase_pool
  erased-IsConsistent r id t e c = rw (e, erase_pool) at (erase_pool-IsConsistent r id c)

  increment_use-IsConsistent :
      (r : Repository (UseTracker C)) (id : ℕ)
      → IsConsistent r
      → IsConsistent (increment_use r id).0
  unfolding increment_use
  increment_use-IsConsistent r id c = elim (Option-cases (find id r.id_map)) [
    | inl e ↦ rw (e, increment_use) c
    | inr (t, e) ↦ rw (e, increment_use) (swapped-IsConsistent r id t (u.increment_use t.uses) e c)
  ]

  erase_or_decrement_use-IsConsistent :
      (r : Repository (UseTracker C)) (id : ℕ)
      → IsConsistent r
      → IsConsistent (erase_or_decrement_use r id).0
  unfolding erase_or_decrement_use
  erase_or_decrement_use-IsConsistent r id c = elim (Option-cases (find id r.id_map)) [
    | inl e ↦ rw (e, erase_or_decrement_use) c
    | inr (t, e) ↦ elim (Bool-cases (leb (u.get_use_count t.uses) 1)) [
      | inl last ↦ rw (e, erase_or_decrement_use) (rw last (erased-IsConsistent r id t e c))
      | inr more ↦
          rw (e, erase_or_decrement_use)
            (rw more (swapped-IsConsistent r id t (u.decrement_use t.uses) e c))
    ]
  ]

  -- Both operations on the use counts keep the two maps of the repository consistent.
  pub use-IsConsistent :
      (r : Repository (UseTracker C)) (id : ℕ)
      → IsConsistent r
      → IsConsistent (increment_use r id).0 × IsConsistent (erase_or_decrement_use r id).0
  use-IsConsistent r id c =
      (increment_use-IsConsistent r id c, erase_or_decrement_use-IsConsistent r id c)

  uses-increment_use :
      (r : Repository (UseTracker C)) (id j : ℕ)
      → uses (increment_use r id).0 j
        ≡ (if id == j then (if is_some (find id r.id_map) then uses r j + 1 else 0) else uses r j)
  unfolding uses increment_use
  uses-increment_use r id j = elim (Option-cases (find id r.id_map)) [
    | inl e ↦ rw (e, increment_use) (ground (arith, e))
    | inr (t, e) ↦
        rw (e, increment_use)
          (ground (
            arith,
            e,
            u.increment_count t.uses,
            find-assign id j (record t { uses = u.increment_use t.uses }) r.id_map,
          ))
  ]

  uses-erase_or_decrement_use :
      (r : Repository (UseTracker C)) (id j : ℕ)
      → uses (erase_or_decrement_use r id).0 j ≡ (if id == j then uses r j - 1 else uses r j)
  unfolding uses erase_or_decrement_use
  uses-erase_or_decrement_use r id j = elim (Option-cases (find id r.id_map)) [
    | inl e ↦ rw (e, erase_or_decrement_use) (ground (arith, e))
    | inr (t, e) ↦
        rw (e, erase_or_decrement_use)
          (ground (
            arith,
            e,
            u.decrement_count t.uses,
            find-erase id j r.id_map,
            find-assign id j (record t { uses = u.decrement_use t.uses }) r.id_map,
          ))
  ]

  -- The pool that is returned, and the count that is left, which is what the count is afterwards.
  returned-erase_or_decrement_use :
      (r : Repository (UseTracker C)) (id : ℕ)
      → (erase_or_decrement_use r id).1
        ≡ Option.map (λ t. (t.shm_pool, uses r id - 1)) (find id r.id_map)
  unfolding uses erase_or_decrement_use
  returned-erase_or_decrement_use r id = elim (Option-cases (find id r.id_map)) [
    | inl e ↦ rw (e, erase_or_decrement_use) refl
    | inr (t, e) ↦ rw (e, erase_or_decrement_use) (ground (arith, u.decrement_count t.uses))
  ]

  found-erase_or_decrement_use :
      (r : Repository (UseTracker C)) (id : ℕ)
      → is_some (find id (erase_or_decrement_use r id).0.id_map) ≡ ltb 1 (uses r id)
  unfolding uses erase_or_decrement_use
  found-erase_or_decrement_use r id = elim (Option-cases (find id r.id_map)) [
    | inl e ↦ rw (e, erase_or_decrement_use) (ground (arith, e))
    | inr (t, e) ↦
        rw (e, erase_or_decrement_use)
          (ground (
            arith,
            e,
            find-erase id id r.id_map,
            find-assign id id (record t { uses = u.decrement_use t.uses }) r.id_map,
          ))
  ]

  found-increment_use :
      (r : Repository (UseTracker C)) (id : ℕ)
      → is_some (find id (increment_use r id).0.id_map) ≡ is_some (find id r.id_map)
  unfolding increment_use
  found-increment_use r id = elim (Option-cases (find id r.id_map)) [
    | inl e ↦ rw (e, increment_use) (ground (arith, e))
    | inr (t, e) ↦
        rw (e, increment_use)
          (ground
            (arith, e, find-assign id id (record t { uses = u.increment_use t.uses }) r.id_map))
  ]

  -- `n` further registrations of a pool, and `n` releases.
  unfoldable pub use_times : ℕ → ℕ → Repository (UseTracker C) → Repository (UseTracker C)
  use_times zero id r = r
  use_times (suc n) id r = use_times n id (increment_use r id).0

  unfoldable pub release_times : ℕ → ℕ → Repository (UseTracker C) → Repository (UseTracker C)
  release_times zero id r = r
  release_times (suc n) id r = release_times n id (erase_or_decrement_use r id).0

  use_times_lem :
      (n id : ℕ) (r : Repository (UseTracker C))
      → is_some (find id r.id_map) ≡ true
      → (is_some (find id (use_times n id r).id_map) ≡ true)
        × (uses (use_times n id r) id ≡ uses r id + n)
  unfolding use_times
  use_times_lem zero id r h = (h, omega arith)
  use_times_lem (suc n) id r h =
      let (a, b) = use_times_lem n id (increment_use r id).0 (found-increment_use r id ∙ h) in
      (a, b ∙ ground (arith, uses-increment_use r id id))

  release_times_lem :
      (n id : ℕ) (r : Repository (UseTracker C))
      → is_some (find id r.id_map) ≡ ltb 0 (uses r id)
      → (is_some (find id (release_times n id r).id_map) ≡ ltb n (uses r id))
        × (uses (release_times n id r) id ≡ uses r id - n)
  unfolding release_times
  release_times_lem zero id r h = (h, omega arith)
  release_times_lem (suc n) id r h =
      let q = (erase_or_decrement_use r id).0 in
      let left : uses q id ≡ uses r id - 1 = ground (arith, uses-erase_or_decrement_use r id id) in
      let (a, b) =
        release_times_lem n id q (found-erase_or_decrement_use r id ∙ ground (arith, left)) in
      (a ∙ ground (arith, left), b ∙ ground (arith, left))

  inserted_once :
      (r : Repository (UseTracker C)) (p : Pool)
      → (insert r p).1 ≡ true
      → (is_some (find p.id (insert r p).0.id_map) ≡ true) × (uses (insert r p).0 p.id ≡ 1)
  unfolding uses find
  inserted_once r p e = ground (arith, insert_cases r p, u.new_count, e)

  -- A pool that was inserted, registered `k` more times and released `n` times is still there exactly
  -- if `n` is at most `k`; then `1 + k - n` uses are left.
  pub release_times-use_times :
      (r : Repository (UseTracker C)) (p : Pool) (k n : ℕ)
      → (insert r p).1 ≡ true
      → let r' = release_times n p.id (use_times k p.id (insert r p).0) in
        (is_some (find p.id r'.id_map) ≡ leb n k) × (uses r' p.id ≡ 1 + k - n)
  release_times-use_times r p k n e =
      let (here, one) = inserted_once r p e in
      let (kept, more) = use_times_lem k p.id (insert r p).0 here in
      let (a, b) =
        release_times_lem n p.id (use_times k p.id (insert r p).0) (kept ∙ ground (arith, more)) in
      (a ∙ ground (arith, more, one), b ∙ ground (arith, more, one))
