-- ===== src/Repository/Lookup.antt =====
-- The two conversions of shm/arena_lend/shm_pool_repository.hpp against each other, and the fancy
-- pointers of detail/shm_pool_offset_ptr_data.hpp over a real repository.
use ipc_shm_arena_lend.Base.{
  ℕ, ◌+◌, ◌<◌, ◌≡◌, refl, sym, ap, ◌∙◌, Option-cases, some, arith, inl, inr, ◌↔◌,
}
use ipc_shm_arena_lend.Base.Dict.{find}
use ipc_shm_arena_lend.Base.Words.{add_offset-nonneg}
use ipc_shm_arena_lend.Pool.{Pool, IsValid, to_address}
use ipc_shm_arena_lend.Pool.Range.{Contains}
use ipc_shm_arena_lend.AddressMap.{pool_like}
use ipc_shm_arena_lend.AddressMap.Layout.{find-address}
use ipc_shm_arena_lend.AddressMap.Lookup.{holder, lookup-holder, holder-find, find-holder}
use ipc_shm_arena_lend.OffsetPtr.RoundTrip.{Knows}
use ipc_shm_arena_lend.Repository.Invariant.{IsConsistent}
use ipc_shm_arena_lend.Repository.{
  Holder, Repository, pool_address, from_address, from_address_ids, api,
}

-- A pool is registered under its ID and holds the address at the offset.
abbrev pub Answers : {H : Type 0} ⦃h : Holder H⦄ → Repository H → ℕ → Pool → ℕ → Type 0
Answers {H} ⦃h⦄ r a p offset =
    (k : H) × (find p.id r.id_map ≡ some k)
    × (h.get_shm_pool k ≡ p)
    × Contains p a
    × (p.address + offset ≡ a)

module _ {H : Type 0} ⦃h : Holder H⦄ (r : Repository H) (c : IsConsistent r) where
  from_address-holder : (a : ℕ) → from_address r a ≡ holder a r.address_map
  unfolding from_address
  from_address-holder a = lookup-holder a r.address_map c.laid_out

  from_address-Answers :
      (a : ℕ) (p : Pool) (offset : ℕ) → from_address r a ≡ some (p, offset) → Answers r a p offset
  from_address-Answers a p offset e =
      let (x, y, z) =
        holder-find a 0 r.address_map p offset c.laid_out (sym (from_address-holder a) ∙ e) in
      let (k, f, g) = c.by_address p.address p x in (k, f, g, y, omega arith)

  Answers-from_address :
      (a : ℕ) (p : Pool) (offset : ℕ) → Answers r a p offset → from_address r a ≡ some (p, offset)
  Answers-from_address a p offset (k, e, f, g, d) =
      let (_, x) = c.by_id p.id k e in
      let at_p : find p.address r.address_map ≡ some p = rw f at x in
      from_address-holder a
      ∙ find-holder a p.address 0 r.address_map p c.laid_out at_p g
      ∙ ap (λ o. some (p, o)) (omega arith)

  -- In a consistent repository `from_address` answers for exactly the addresses that the pools hold,
  -- and then with the pool that is registered under its ID and with the distance from its base.
  from_address_iff :
      (a : ℕ) (p : Pool) (offset : ℕ) → (from_address r a ≡ some (p, offset)) ↔ Answers r a p offset
  from_address_iff a p offset = (from_address-Answers a p offset, Answers-from_address a p offset)

  Answers-IsValid : (a : ℕ) (p : Pool) (offset : ℕ) → Answers r a p offset → IsValid p
  Answers-IsValid a p offset (k, e, f, g, d) =
      let (_, x) = c.by_id p.id k e in
      (find-address 0 p.address r.address_map c.laid_out (rw f at x)).1

  Answers-pool_address :
      (a : ℕ) (p : Pool) (offset : ℕ) → Answers r a p offset → pool_address r p.id offset ≡ a
  unfolding pool_address to_address
  Answers-pool_address a p offset (k, e, f, g, d) =
      let v = Answers-IsValid a p offset (k, e, f, g, d) in
      rw (e, pool_address)
        (rw f (add_offset-nonneg p.address offset (omega arith) (omega arith) ∙ d))

  -- Every address is known to a consistent repository in the sense of the fancy pointers: no pool
  -- holds it, or its ID and offset fit their fields and lead back to it.
  pub api-Knows : (a : ℕ) → Knows (api r) a
  unfolding api from_address_ids
  api-Knows a = elim (Option-cases (from_address r a)) [
    | inl out ↦ inl (rw (out, from_address_ids) refl)
    | inr ((p, offset), e) ↦
        let t = from_address-Answers a p offset e in
        let v = Answers-IsValid a p offset t in
        inr (
          p.id,
          offset,
          rw (e, from_address_ids) refl,
          v.id_pos,
          v.id_bound,
          omega (arith, t.3, t.4),
          Answers-pool_address a p offset t,
        )
  ]

  -- An ID and an offset inside the pool that is registered under it lead to an address that leads
  -- back to them.
  pub from_address_ids-pool_address :
      (id offset : ℕ) (k : H)
      → find id r.id_map ≡ some k
      → offset < (h.get_shm_pool k).size
      → from_address_ids r (pool_address r id offset) ≡ (id, offset)
  unfolding from_address_ids
  from_address_ids-pool_address id offset k e l =
      let p = h.get_shm_pool k in
      let (x, y) = c.by_id id k e in
      let (_, v) = find-address 0 p.address r.address_map c.laid_out y in
      let t : Answers r (p.address + offset) p offset =
        (k, rw x e, refl, (omega arith, omega arith), refl) in
      let there : pool_address r id offset ≡ p.address + offset =
        ap (λ i. pool_address r i offset) (sym x)
        ∙ Answers-pool_address (p.address + offset) p offset t in
      rw (there, from_address_ids)
        (rw (Answers-from_address (p.address + offset) p offset t, from_address_ids)
          (ap (λ i. (i, offset)) x))
