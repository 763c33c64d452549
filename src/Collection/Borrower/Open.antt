-- ===== src/Collection/Borrower/Open.antt =====
-- Opening and releasing pools in shm/arena_lend/borrower_shm_pool_collection.cpp and .hpp.
use ipc_shm_arena_lend.Base.{
  ℕ, ◌≡◌, refl, subst, ◌∙◌, Bool, true, false, not, none, some, [], ◌∷◌, ◌++◌, String, arith,
  if◌then◌else◌, Option-cases, inl, inr,
}
use ipc_shm_arena_lend.Base.Dict.{Dict, find, is_some}
use ipc_shm_arena_lend.Pool.{Pool}
use ipc_shm_arena_lend.AddressMap.{pool_like, emplace_ordered, insert_ordered}
use ipc_shm_arena_lend.AddressMap.Layout.{erase-insert_ordered, find-insert_ordered}
use ipc_shm_arena_lend.Collection.Resources.{fd_open}
use ipc_shm_arena_lend.Collection.{Protection, opens, maps}
use ipc_shm_arena_lend.Collection.Borrower.{OpenOutcome, open_shm_pool, release_shm_pool}

abbrev pub read_only : Protection
read_only = record { read = true; write = false }

-- The descriptor that `open_shm_pool` opened is open after it returns a pool, and closed after it
-- returns null but for two cases: the mapping failed, or a mapping that could not be registered
-- could not be unmapped.
pub open_shm_pool-fd_open :
    (m : Dict Pool) (id : ℕ) (name : String) (size fd : ℕ) (o : OpenOutcome)
    → o.opened ≡ some fd
    → let (m', result, effects) = open_shm_pool m id name size o in
      fd_open fd false effects ≡ (
        if is_some result
        then true
        else if is_some (o.mapped read_only)
        then not o.unmapped
        else true)
unfolding open_shm_pool fd_open emplace_ordered
open_shm_pool-fd_open m id name size fd o e = elim (Option-cases (o.mapped read_only)) [
  | inl unmapped ↦ ground (arith, e, unmapped)
  | inr (address, mapped) ↦ ground (arith, e, mapped)
]

pub open_shm_pool-some :
    (m : Dict Pool) (id : ℕ) (name : String) (size : ℕ) (o : OpenOutcome) (p : Pool)
    → (open_shm_pool m id name size o).1 ≡ some p
    → (p.id ≡ id)
      × (find p.address m ≡ none)
      × (open_shm_pool m id name size o
          ≡ (insert_ordered p.address p m, some p, opens name p.fd ∷ maps p.fd p.address ∷ []))
unfolding open_shm_pool emplace_ordered
open_shm_pool-some m id name size o p e = elim (Option-cases o.opened) [
  | inl closed ↦ absurd (ground (arith, e, closed))
  | inr (fd, opened) ↦ elim (Option-cases (o.mapped read_only)) [
    | inl unmapped ↦ absurd (ground (arith, e, opened, unmapped))
    | inr (address, mapped) ↦ elim (Option-cases (find address m)) [
      | inr (q, old) ↦ absurd (ground (arith, e, opened, mapped, old))
      | inl new ↦
          let q : Pool = record { id = id; name = name; address = address; size = size; fd = fd } in
          let same : q ≡ p = ground (arith, e, opened, mapped, new) in
          let P : Pool → Type 0 = λ x.
            (x.id ≡ id)
            × (find x.address m ≡ none)
            × (open_shm_pool m id name size o ≡ (
              insert_ordered x.address x m,
              some x,
              opens name x.fd ∷ maps x.fd x.address ∷ [],
            )) in
          subst P same (refl, new, ground (arith, opened, mapped, new))
    ]
  ]
]

pub open_shm_pool-none :
    (m : Dict Pool) (id : ℕ) (name : String) (size : ℕ) (o : OpenOutcome)
    → (open_shm_pool m id name size o).1 ≡ none
    → (open_shm_pool m id name size o).0 ≡ m
unfolding open_shm_pool emplace_ordered
open_shm_pool-none m id name size o e = elim (Option-cases o.opened) [
  | inl closed ↦ ground (arith, closed)
  | inr (fd, opened) ↦ elim (Option-cases (o.mapped read_only)) [
    | inl unmapped ↦ ground (arith, opened, unmapped)
    | inr (address, mapped) ↦ elim (Option-cases (find address m)) [
      | inr (q, old) ↦ ground (arith, opened, mapped, old)
      | inl new ↦ absurd (ground (arith, e, opened, mapped, new))
    ]
  ]
]

-- A pool that `open_shm_pool` returned is in the collection, under its base, and `release_shm_pool`
-- takes it out again: the collection is as before, the descriptor is closed, and the result tells
-- whether the system closed it.
release_shm_pool-open_shm_pool :
    (m : Dict Pool) (id : ℕ) (name : String) (size : ℕ) (o : OpenOutcome) (closed : Bool) (p : Pool)
    → (open_shm_pool m id name size o).1 ≡ some p
    → let (m', result, effects) = open_shm_pool m id name size o in
      (find p.address m' ≡ some p)
      × (p.id ≡ id)
      × ((release_shm_pool m' p true closed).0 ≡ m)
      × ((release_shm_pool m' p true closed).1 ≡ closed)
      × (fd_open p.fd false (effects ++ (release_shm_pool m' p true closed).2) ≡ false)
unfolding release_shm_pool fd_open
release_shm_pool-open_shm_pool m id name size o closed p e =
    let (i, new, run) = open_shm_pool-some m id name size o p e in
    let m' = insert_ordered p.address p m in
    let here : find p.address m' ≡ some p =
      find-insert_ordered p.address p.address p m new ∙ ground arith in
    rw run (
      here,
      i,
      ground (arith, here, erase-insert_ordered p.address p m new),
      ground (arith, here),
      ground (arith, here),
    )
