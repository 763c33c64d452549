-- ===== src/Collection/Owner/Create.antt =====
-- Creation of pools in shm/arena_lend/owner_shm_pool_collection.cpp: resources and registration.
use text.Mathlib.TextPositions.{eq_refl}
use ipc_shm_arena_lend.Base.{
  ℕ, ◌≡◌, refl, Bool, true, false, not, ◌||◌, some, [], ◌∷◌, String, arith, Option-cases, inl, inr,
}
use ipc_shm_arena_lend.Base.Dict.{Dict}
use ipc_shm_arena_lend.Pool.{Pool}
use ipc_shm_arena_lend.AddressMap.{divisible_like, emplace_ordered}
use ipc_shm_arena_lend.Collection.Resources.{fd_open, name_exists}
use ipc_shm_arena_lend.Collection.Owner.{
  OwnerCollection, CreateOutcome, Created, null, created, duplicate, create_shm_pool,
  notify_created,
}

abbrev pub is_created : Created → Bool
is_created null = false
is_created (created p) = true
is_created (duplicate p) = false

fd_open-notify_created :
    (fd : ℕ) (b : Bool) (ls : Dict (Unit {0})) (p : Pool) → fd_open fd b (notify_created ls p) ≡ b
unfolding fd_open notify_created
fd_open-notify_created fd b [] p = refl
fd_open-notify_created fd b ((l, x) ∷ ls) p = fd_open-notify_created fd b ls p

name_exists-notify_created :
    (n : String) (b : Bool) (ls : Dict (Unit {0})) (p : Pool)
    → name_exists n b (notify_created ls p) ≡ b
unfolding name_exists notify_created
name_exists-notify_created n b [] p = refl
name_exists-notify_created n b ((l, x) ∷ ls) p = name_exists-notify_created n b ls p

-- Of the descriptor that `create_shm_pool` opens and the name that it creates, it leaves both behind
-- if it returns a registered pool. Otherwise it leaves no descriptor, `close` giving it up whatever it
-- returns, and leaves the name exactly if `shm_unlink` fails.
pub create_shm_pool-resources :
    (c : OwnerCollection) (id : ℕ) (name : String) (size fd : ℕ) (o : CreateOutcome)
    → o.opened ≡ some fd
    → let (c', result, effects) = create_shm_pool c id name size o in
      (fd_open fd false effects ≡ is_created result)
      × (name_exists name false effects ≡ (is_created result || not o.unlinked))
unfolding create_shm_pool fd_open name_exists emplace_ordered
create_shm_pool-resources c id name size fd o e = elim (Option-cases o.mapped) [
  | inl unmapped ↦ ground (arith, e, eq_refl name)
  | inr (address, mapped) ↦
      let p : Pool = record { id = id; name = name; address = address; size = size; fd = fd } in
      ground (
        arith,
        e,
        mapped,
        eq_refl name,
        fd_open-notify_created fd true c.listeners p,
        name_exists-notify_created name true c.listeners p,
      )
]
