-- ===== src/Repository/Invariant.antt =====
-- The two maps of shm/arena_lend/shm_pool_repository.hpp agree, after every history.
use ipc_shm_arena_lend.Base.{
  ℕ, ◌≡◌, subst, true, false, Bool-cases, Option-cases, none, some, ◌∷◌, arith, inl, inr, ◌==◌,
  if◌then◌else◌,
}
use ipc_shm_arena_lend.Base.Dict.{find, erase, emplace, is_some, find-erase, erase-emplace}
use ipc_shm_arena_lend.Pool.{Pool, IsValid}
use ipc_shm_arena_lend.AddressMap.{pool_like, emplace_ordered, insert_ordered}
use ipc_shm_arena_lend.AddressMap.Layout.{
  IsLaidOut, Apart, erase-Above, insert_ordered-Above, find-address, find-insert_ordered,
}
use ipc_shm_arena_lend.Repository.{Holder, Repository, empty, insert, erase_pool}

module _ {H : Type 0} ⦃holder : Holder H⦄ where
  -- The pools are laid out without overlap, and each map leads to the other.
  pub record IsConsistent (r : Repository H) : Type 0 where
    pub laid_out : IsLaidOut r.address_map
    pub by_id :
        (id : ℕ) (h : H)
        → find id r.id_map ≡ some h
        → ((holder.get_shm_pool h).id ≡ id)
          × (find (holder.get_shm_pool h).address r.address_map ≡ some (holder.get_shm_pool h))
    pub by_address :
        (a : ℕ) (p : Pool)
        → find a r.address_map ≡ some p
        → (h : H) × (find p.id r.id_map ≡ some h) × (holder.get_shm_pool h ≡ p)

  pub empty-IsConsistent : IsConsistent empty
  unfolding empty find
  empty-IsConsistent = record {
    laid_out = tt;
    by_id = λ id h e. cc e;
    by_address = λ a p e. absurd (cc e);
  }

  -- What `insert` does, by the two keys: it succeeds exactly if both are new, and otherwise leaves
  -- the repository as it was.
  pub insert_cases :
      (r : Repository H) (p : Pool)
      → insert r p ≡ (
          if is_some (find p.id r.id_map)
          then (r, false)
          else if is_some (find p.address r.address_map)
          then (r, false)
          else (
            record {
              id_map = (p.id, holder.hold p) ∷ r.id_map;
              address_map = insert_ordered p.address p r.address_map;
            },
            true,
          ))
  unfolding insert emplace emplace_ordered
  insert_cases r p = ground (arith, erase-emplace p.id (holder.hold p) r.id_map)

  added_by_id :
      (r : Repository H) (p : Pool) (id : ℕ) (h : H)
      → IsConsistent r
      → find p.address r.address_map ≡ none
      → find id ((p.id, holder.hold p) ∷ r.id_map) ≡ some h
      → ((holder.get_shm_pool h).id ≡ id)
        × (find (holder.get_shm_pool h).address (insert_ordered p.address p r.address_map)
            ≡ some (holder.get_shm_pool h))
  unfolding find
  added_by_id r p id h c new e = elim (Bool-cases (p.id == id)) [
    | inl hit ↦
        let same : holder.hold p ≡ h = cc (rw hit at e) in
        let P : H → Type 0 = λ x.
          ((holder.get_shm_pool x).id ≡ id)
          × (find (holder.get_shm_pool x).address (insert_ordered p.address p r.address_map)
              ≡ some (holder.get_shm_pool x)) in
        subst P same (
          rw (holder.get_shm_pool-hold p)
            (ground arith, ground (arith, find-insert_ordered p.address p.address p r.address_map)))
    | inr miss ↦
        let (x, y) = c.by_id id h (rw miss at e) in
        (
          x,
          ground (
            arith,
            find-insert_ordered p.address (holder.get_shm_pool h).address p r.address_map,
            y,
          ),
        )
  ]

  added_by_address :
      (r : Repository H) (p : Pool) (a : ℕ) (q : Pool)
      → IsConsistent r
      → find p.id r.id_map ≡ none
      → find p.address r.address_map ≡ none
      → find a (insert_ordered p.address p r.address_map) ≡ some q
      → (h : H) × (find q.id ((p.id, holder.hold p) ∷ r.id_map) ≡ some h)
        × (holder.get_shm_pool h ≡ q)
  unfolding find
  added_by_address r p a q c new_id new e = elim (Bool-cases (p.address == a)) [
    | inl hit ↦
        let law = find-insert_ordered p.address a p r.address_map new in
        let same : p ≡ q = ground (arith, law, e) in
        let P : Pool → Type 0 = λ x.
          (h : H) × (find x.id ((p.id, holder.hold p) ∷ r.id_map) ≡ some h)
          × (holder.get_shm_pool h ≡ x) in
        subst P same (holder.hold p, ground arith, holder.get_shm_pool-hold p)
    | inr miss ↦
        let law = find-insert_ordered p.address a p r.address_map new in
        let (h, f, g) = c.by_address a q (ground (arith, law, e)) in (h, ground (arith, f), g)
  ]

  pub insert-IsConsistent :
      (r : Repository H) (p : Pool)
      → IsValid p
      → Apart p r.address_map
      → IsConsistent r
      → IsConsistent (insert r p).0
  insert-IsConsistent r p v a c = elim (Option-cases (find p.id r.id_map)) [
    | inr (h, old) ↦ rw (insert_cases r p, old) c
    | inl new_id ↦ elim (Option-cases (find p.address r.address_map)) [
      | inr (q, old) ↦ rw (insert_cases r p, new_id, old) c
      | inl new ↦
          rw (insert_cases r p, new_id, new)
            (record {
              laid_out = insert_ordered-Above 0 p r.address_map v (omega arith) a c.laid_out;
              by_id = λ id h e. added_by_id r p id h c new e;
              by_address = λ b q e. added_by_address r p b q c new_id new e;
            })
    ]
  ]

  erased_by_id :
      (r : Repository H) (id : ℕ) (h : H) (j : ℕ) (g : H)
      → IsConsistent r
      → find id r.id_map ≡ some h
      → find j (erase id r.id_map) ≡ some g
      → ((holder.get_shm_pool g).id ≡ j)
        × (find
              (holder.get_shm_pool g).address
              (erase (holder.get_shm_pool h).address r.address_map)
            ≡ some (holder.get_shm_pool g))
  erased_by_id r id h j g c e f =
      let at_j = find-erase id j r.id_map in
      let kept : find j r.id_map ≡ some g = ground (arith, at_j, f) in
      let (x, y) = c.by_id j g kept in
      let (x', y') = c.by_id id h e in
      let q = (holder.get_shm_pool h).address in
      (
        x,
        ground (
          arith,
          find-erase q (holder.get_shm_pool g).address r.address_map,
          at_j,
          f,
          x,
          y,
          x',
          y',
        ),
      )

  erased_by_address :
      (r : Repository H) (id : ℕ) (h : H) (a : ℕ) (p : Pool)
      → IsConsistent r
      → find id r.id_map ≡ some h
      → find a (erase (holder.get_shm_pool h).address r.address_map) ≡ some p
      → (g : H) × (find p.id (erase id r.id_map) ≡ some g) × (holder.get_shm_pool g ≡ p)
  erased_by_address r id h a p c e f =
      let q = (holder.get_shm_pool h).address in
      let at_a = find-erase q a r.address_map in
      let kept : find a r.address_map ≡ some p = ground (arith, at_a, f) in
      let (g, x, y) = c.by_address a p kept in
      let (key, _) = find-address 0 a r.address_map c.laid_out kept in
      (g, ground (arith, find-erase id p.id r.id_map, at_a, f, x, y, key, e), y)

  pub erase_pool-IsConsistent :
      (r : Repository H) (id : ℕ) → IsConsistent r → IsConsistent (erase_pool r id).0
  unfolding erase_pool
  erase_pool-IsConsistent r id c = elim (Option-cases (find id r.id_map)) [
    | inl absent ↦ rw (absent, erase_pool) c
    | inr (h, e) ↦
        rw (e, erase_pool)
          (record {
            laid_out = erase-Above (holder.get_shm_pool h).address 0 r.address_map c.laid_out;
            by_id = λ j g f. erased_by_id r id h j g c e f;
            by_address = λ a p f. erased_by_address r id h a p c e f;
          })
  ]
