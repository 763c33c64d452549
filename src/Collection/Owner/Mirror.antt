-- ===== src/Collection/Owner/Mirror.antt =====
-- The repository that hears of a collection's pools (owner_shm_pool_listener_for_repository.cpp, by way
-- of a listener of the collection) mirrors them (shm/arena_lend/owner_shm_pool_collection.cpp).
pub mod Create
pub mod Remove
use mathlib.Core.Option
use ipc_shm_arena_lend.Base.{
  ℕ, ◌≡◌, ◌+◌, ◌%◌, ◌^◌, refl, sym, subst, ap, ◌∙◌, Bool, true, false, Option, none, some, List, [],
  ◌∷◌, ◌++◌, arith, if◌then◌else◌, ◌==◌, ltb, ◌&&◌, Option-cases, inl, inr, Bool-cases, String,
}
use ipc_shm_arena_lend.Base.Dict.{Dict, find, is_some, erase, assign, find-assign, find-erase}
use ipc_shm_arena_lend.Pool.{Pool, IsValid}
use ipc_shm_arena_lend.Pool.Divisible.{DivisiblePool, remove_size, new_divisible}
use ipc_shm_arena_lend.AddressMap.{pool_like, divisible_like, insert_ordered, emplace_ordered}
use ipc_shm_arena_lend.AddressMap.Layout.{IsLaidOut, Above, Apart}
use ipc_shm_arena_lend.Repository.{Holder, Repository, insert, erase_pool, erase_locked}
use ipc_shm_arena_lend.Repository.Invariant.{
  IsConsistent, insert_cases, insert-IsConsistent, erase_pool-IsConsistent,
}
use ipc_shm_arena_lend.Collection.{
  Effect, closes, unlinks, notifies_created, notifies_removed, register_shm_pool,
  deregister_shm_pool,
}
use ipc_shm_arena_lend.Collection.Owner.{
  OwnerCollection, CreateOutcome, RemoveOutcome, created, duplicate, create_shm_pool,
  notify_created, notify_removed, remove_shm_pool, remove_range, remove_range_and_pool_if_empty,
  hear, create_shm_object, map_created, register_mapped, register_shm_pool_and_notify,
}
use ipc_shm_arena_lend.Collection.Owner.Remove.{removal_cases}

-- The collection's map without the remaining sizes.
unfoldable pub plain : Dict DivisiblePool → Dict Pool
plain [] = []
plain ((k, p) ∷ m) = (k, p.pool) ∷ plain m

find-plain :
    (k : ℕ) (m : Dict DivisiblePool) → find k (plain m) ≡ Option.map (λ p. p.pool) (find k m)
unfolding find plain
find-plain k [] = refl
find-plain k ((j, p) ∷ m) = ground (arith, find-plain k m)

plain-erase : (k : ℕ) (m : Dict DivisiblePool) → plain (erase k m) ≡ erase k (plain m)
unfolding erase plain
plain-erase k [] = refl
plain-erase k ((j, p) ∷ m) = ground (arith, plain-erase k m)

plain-insert_ordered :
    (k : ℕ) (p : DivisiblePool) (m : Dict DivisiblePool)
    → plain (insert_ordered k p m) ≡ insert_ordered k p.pool (plain m)
unfolding insert_ordered plain
plain-insert_ordered k p [] = refl
plain-insert_ordered k p ((j, q) ∷ m) = ground (arith, plain-insert_ordered k p m)

pub plain-assign :
    (k : ℕ) (p p' : DivisiblePool) (m : Dict DivisiblePool)
    → find k m ≡ some p
    → p'.pool ≡ p.pool
    → plain (assign k p' m) ≡ plain m
unfolding find assign plain
plain-assign k p p' [] h e = refl
plain-assign k p p' ((j, q) ∷ m) h e = ground (arith, plain-assign k p p' m)

pub plain-Above : (lo : ℕ) (m : Dict DivisiblePool) → Above lo (plain m) → Above lo m
unfolding plain
plain-Above lo [] a = tt
plain-Above lo ((j, q) ∷ m) (x, v, l, r) = (x, v, l, plain-Above (j + q.pool.size) m r)

module _ {H : Type 0} ⦃holder : Holder H⦄ where
  unfoldable pub hear_all : ℕ → Repository H → List Effect → Repository H
  unfolding hear
  hear_all listener r [] = r
  hear_all listener r (e ∷ es) = hear_all listener (hear listener r e) es

  -- The repository is consistent and has the pools of the collection.
  abbrev pub Mirrors : OwnerCollection → Repository H → Type 0
  Mirrors c r = IsConsistent r × (r.address_map ≡ plain c.pools)

  pub insert_twice : (r : Repository H) (p : Pool) → (insert (insert r p).0 p).0 ≡ (insert r p).0
  unfolding find
  insert_twice r p = let q = (insert r p).0 in ground (arith, insert_cases r p, insert_cases q p)

  pub erase_pool_twice :
      (r : Repository H) (id : ℕ) → (erase_pool (erase_pool r id).0 id).0 ≡ (erase_pool r id).0
  unfolding erase_pool
  erase_pool_twice r id = elim (Option-cases (find id r.id_map)) [
    | inl e ↦ ground (arith, e)
    | inr (h, e) ↦ ground (arith, e, find-erase id id r.id_map)
  ]

  heard_created :
      (listener l : ℕ) (p : Pool) (r : Repository H) (b : Bool)
      → (l == listener) ≡ b
      → hear listener r (notifies_created l p) ≡ (if b then (insert r p).0 else r)
  unfolding hear
  heard_created listener l p r b e = ap (λ x. if x then (insert r p).0 else r) e

  heard_removed :
      (listener l : ℕ) (p : Pool) (u : Bool) (r : Repository H) (b : Bool)
      → (l == listener) ≡ b
      → hear listener r (notifies_removed l p u) ≡ (if b then (erase_pool r p.id).0 else r)
  unfolding hear
  heard_removed listener l p u r b e = ap (λ x. if x then (erase_pool r p.id).0 else r) e

  pub hear_all-notify_created :
      (listener : ℕ) (ls : Dict (Unit {0})) (p : Pool) (r : Repository H)
      → hear_all listener r (notify_created ls p)
        ≡ (if is_some (find listener ls) then (insert r p).0 else r)
  unfolding hear_all notify_created find
  hear_all-notify_created listener [] p r = refl
  hear_all-notify_created listener ((l, x) ∷ ls) p r = elim (Bool-cases (l == listener)) [
    | inl hit ↦
        ap (λ q. hear_all listener q (notify_created ls p)) (heard_created listener l p r true hit)
        ∙ hear_all-notify_created listener ls p (insert r p).0
        ∙ ground (arith, hit, insert_twice r p)
    | inr miss ↦
        ap (λ q. hear_all listener q (notify_created ls p))
          (heard_created listener l p r false miss)
        ∙ hear_all-notify_created listener ls p r
        ∙ ground (arith, miss)
  ]

  pub hear_all-notify_removed :
      (listener : ℕ) (ls : Dict (Unit {0})) (p : Pool) (b : Bool) (r : Repository H)
      → hear_all listener r (notify_removed ls p b)
        ≡ (if is_some (find listener ls) then (erase_pool r p.id).0 else r)
  unfolding hear_all notify_removed find
  hear_all-notify_removed listener [] p b r = refl
  hear_all-notify_removed listener ((l, x) ∷ ls) p b r = elim (Bool-cases (l == listener)) [
    | inl hit ↦
        ap (λ q. hear_all listener q (notify_removed ls p b))
          (heard_removed listener l p b r true hit)
        ∙ hear_all-notify_removed listener ls p b (erase_pool r p.id).0
        ∙ ground (arith, hit, erase_pool_twice r p.id)
    | inr miss ↦
        ap (λ q. hear_all listener q (notify_removed ls p b))
          (heard_removed listener l p b r false miss)
        ∙ hear_all-notify_removed listener ls p b r
        ∙ ground (arith, miss)
  ]

  pub insert-Mirrors :
      (c : OwnerCollection) (r : Repository H) (p : DivisiblePool)
      → IsValid p.pool
      → Apart p.pool (plain c.pools)
      → find p.pool.id r.id_map ≡ none
      → find p.pool.address c.pools ≡ none
      → Mirrors c r
      → Mirrors (record c { pools = insert_ordered p.pool.address p c.pools }) (insert r p.pool).0
  insert-Mirrors c r p v a new_id new (con, e) = (
    insert-IsConsistent r p.pool v (rw e a) con,
    ground (
      arith,
      insert_cases r p.pool,
      new_id,
      new,
      e,
      find-plain p.pool.address c.pools,
      plain-insert_ordered p.pool.address p c.pools,
    ),
  )

  pub erase-Mirrors :
      (c : OwnerCollection) (r : Repository H) (p : DivisiblePool)
      → find p.pool.address c.pools ≡ some p
      → Mirrors c r
      → Mirrors (record c { pools = erase p.pool.address c.pools }) (erase_pool r p.pool.id).0
  unfolding erase_pool erase_locked
  erase-Mirrors c r p h (con, e) =
      let here : find p.pool.address r.address_map ≡ some p.pool =
        ground (arith, h, e, find-plain p.pool.address c.pools) in
      let (x, f, g) = con.by_address p.pool.address p.pool here in
      (
        erase_pool-IsConsistent r p.pool.id con,
        ground (arith, f, g, e, plain-erase p.pool.address c.pools),
      )

  -- The listener mirrors a collection once it has heard these effects.
  abbrev pub HeardMirrors : ℕ → OwnerCollection → Repository H → List Effect → Type 0
  HeardMirrors listener c r effects = Mirrors c (hear_all listener r effects)
