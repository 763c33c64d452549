-- ===== src/Collection/Owner.antt =====
-- shm/arena_lend/owner_shm_pool_collection.hpp and .cpp (class `Owner_shm_pool_collection`) and
-- owner_shm_pool_listener_for_repository.cpp. The pools are `Lockable_shm_pool`s; a listener is the
-- address of its object. Allocation is the memory manager's and is left out.
pub mod Create
pub mod Remove
pub mod Mirror
use ipc_shm_arena_lend.Base.{
  ℕ, ◌%◌, ◌^◌, ◌<◌, Bool, true, false, not, Option, none, some, List, [], ◌∷◌, ◌++◌, if◌then◌else◌,
  String, ◌==◌, ltb, ◌&&◌,
}
use ipc_shm_arena_lend.Base.Dict.{Dict, find, erase, assign, is_some}
use ipc_shm_arena_lend.Pool.{Pool, is_subset}
use ipc_shm_arena_lend.Pool.Divisible.{DivisiblePool, new_divisible, remove_size}
use ipc_shm_arena_lend.AddressMap.{divisible_like, emplace_ordered}
use ipc_shm_arena_lend.Repository.{Holder, Repository, insert, erase_pool}
use ipc_shm_arena_lend.Collection.{
  Effect, opens, maps, closes, unlinks, unmaps, notifies_created, notifies_removed, lookup_shm_pool,
  register_shm_pool, deregister_shm_pool,
}

pub record OwnerCollection : Type 0 where
  pub pools : Dict DivisiblePool
  pub listeners : Dict (Unit {0})

unfoldable pub add_event_listener : OwnerCollection → ℕ → OwnerCollection × Bool
add_event_listener c listener =
    let (ls, added) = emplace_ordered listener tt c.listeners in
    (record c { listeners = ls }, added)

unfoldable pub remove_event_listener : OwnerCollection → ℕ → OwnerCollection × Bool
remove_event_listener c listener =
    (record c { listeners = erase listener c.listeners }, is_some (find listener c.listeners))

-- The loops over the listeners.
unfoldable pub notify_created : Dict (Unit {0}) → Pool → List Effect
notify_created [] p = []
notify_created ((l, _) ∷ ls) p = notifies_created l p ∷ notify_created ls p

unfoldable pub notify_removed : Dict (Unit {0}) → Pool → Bool → List Effect
notify_removed [] p shm_object_removed = []
notify_removed ((l, _) ∷ ls) p shm_object_removed =
    notifies_removed l p shm_object_removed ∷ notify_removed ls p shm_object_removed

-- What the system does in `create_shm_pool`: `shm_open`, the change of permissions, `ftruncate`, the
-- functor that maps the file, and whether the `shm_unlink` of a failure succeeds, of which there is
-- at most one. Its result and that of `close` are only logged or ignored.
pub record CreateOutcome : Type 0 where
  pub opened : Option ℕ
  pub permitted : Bool
  pub truncated : Bool
  pub mapped : Option ℕ
  pub unlinked : Bool

-- `create_shm_object`: the file descriptor, or none for -1.
unfoldable pub create_shm_object : CreateOutcome → String → Option ℕ × List Effect
create_shm_object o name = elim o.opened [
  | none ↦ (none, [])
  | some fd ↦
      if not o.permitted
      then (none, opens name fd ∷ closes fd ∷ unlinks name o.unlinked ∷ [])
      else if not o.truncated
      then (none, opens name fd ∷ closes fd ∷ unlinks name o.unlinked ∷ [])
      else (some fd, opens name fd ∷ [])
]

-- `register_shm_pool_and_notify`
unfoldable pub register_shm_pool_and_notify :
    OwnerCollection → DivisiblePool → OwnerCollection × Bool × List Effect
unfolding register_shm_pool notify_created
register_shm_pool_and_notify c p =
    let (pools, registered) = register_shm_pool c.pools p in
    if registered
    then (record c { pools = pools }, true, notify_created c.listeners p.pool)
    else (c, false, [])

-- How `create_shm_pool` ends: null, a pool, or the assertion on a duplicate address. With NDEBUG the
-- assertion is void, and the code returns the pool that it could not register.
pub data Created : Type 0 where
  null : Created
  created : DivisiblePool → Created
  duplicate : DivisiblePool → Created

-- The part after the mapping; the flag is the result of `shm_unlink`.
unfoldable pub register_mapped :
    OwnerCollection → DivisiblePool → Bool → OwnerCollection × Created × List Effect
unfolding register_shm_pool_and_notify
register_mapped c p unlinked =
    let (c', registered, effects) = register_shm_pool_and_notify c p in
    if registered
    then (c', created p, effects)
    else (c', duplicate p, closes p.pool.fd ∷ unlinks p.pool.name unlinked ∷ [])

unfoldable pub map_created :
    OwnerCollection
    → ℕ
    → String
    → ℕ
    → CreateOutcome
    → Option ℕ × List Effect
    → OwnerCollection × Created × List Effect
unfolding register_mapped new_divisible
map_created c id name size o (none, effects) = (c, null, effects)
map_created c id name size o (some fd, effects) = elim o.mapped [
  | none ↦ (c, null, effects ++ closes fd ∷ unlinks name o.unlinked ∷ [])
  | some address ↦
      let (c', result, more) =
        register_mapped c (new_divisible id name address size fd) o.unlinked in
      (c', result, effects ++ maps fd address ∷ more)
]

unfoldable pub create_shm_pool :
    OwnerCollection → ℕ → String → ℕ → CreateOutcome → OwnerCollection × Created × List Effect
unfolding map_created create_shm_object
create_shm_pool c id name size o = map_created c id name size o (create_shm_object o name)

-- What the system does in `remove_shm_pool`: the functor that unmaps, and `shm_unlink`. The result
-- of `close` is only logged.
pub record RemoveOutcome : Type 0 where
  pub unmapped : Bool
  pub unlinked : Bool

-- The returned value and the out-argument `unmapped_pool`.
unfoldable pub remove_shm_pool :
    OwnerCollection → Pool → RemoveOutcome → OwnerCollection × (Bool × Bool) × List Effect
unfolding deregister_shm_pool notify_removed
remove_shm_pool c p o =
    let (pools, found) = deregister_shm_pool c.pools p in
    if found
    then (
      record c { pools = pools },
      (true, o.unmapped),
      unmaps p.address p.size
          ∷ closes p.fd
          ∷ unlinks p.name o.unlinked
          ∷ notify_removed c.listeners p o.unlinked,
    )
    else (c, (false, false), [])

pub record RemoveResult : Type 0 where
  pub result : Bool
  pub removed_range : Bool
  pub unmapped_pool : Bool

abbrev pub refused : RemoveResult
refused = record { result = false; removed_range = false; unmapped_pool = false }

-- The part of `remove_range_and_pool_if_empty` that holds the pool's lock, and what follows it.
unfoldable pub remove_range :
    OwnerCollection
    → DivisiblePool
    → ℕ
    → RemoveOutcome
    → OwnerCollection × RemoveResult × List Effect
unfolding remove_shm_pool remove_size
remove_range c p size o =
    if ltb p.remaining_size size && p.remaining_size == 0
    then (c, refused, [])
    else let p' = (remove_size p (size % 2 ^ 32)).0 in
      let c' = record c { pools = assign p.pool.address p' c.pools } in
      if ltb 0 p'.remaining_size
      then (c', record { result = true; removed_range = true; unmapped_pool = false }, [])
      else let (c'', (result, unmapped_pool), effects) = remove_shm_pool c' p.pool o in
        (
          c'',
          record { result = result; removed_range = true; unmapped_pool = unmapped_pool },
          effects,
        )

-- `decommit` is none where no functor is given, and otherwise what the functor returns.
unfoldable pub remove_range_and_pool_if_empty :
    OwnerCollection
    → ℕ
    → ℕ
    → Option Bool
    → RemoveOutcome
    → OwnerCollection × RemoveResult × List Effect
unfolding remove_range
remove_range_and_pool_if_empty c address size decommit o =
    if size == 0 then (c, refused, []) else elim (lookup_shm_pool c.pools address) [
      | none ↦ (c, refused, [])
      | some p ↦ elim (is_subset p.pool address size) [
        | none ↦ (c, refused, [])
        | some offset ↦ elim decommit [
          | some false ↦ (c, refused, [])
          | _ ↦ remove_range c p size o
        ]
      ]
    ]

-- `Owner_shm_pool_listener_for_repository`: one line of the trace, as it arrives through the
-- listener at this address, which passes both of its calls on.
unfoldable pub hear : {H : Type 0} ⦃holder : Holder H⦄ → ℕ → Repository H → Effect → Repository H
hear listener r (notifies_created l p) = if l == listener then (insert r p).0 else r
hear listener r (notifies_removed l p b) = if l == listener then (erase_pool r p.id).0 else r
hear listener r e = r
