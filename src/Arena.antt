-- ===== src/Arena.antt =====
-- shm/arena_lend/jemalloc/ipc_arena.hpp and .cpp (class `Ipc_arena`): the arena's own set of pools and
-- its listeners, and owner_shm_pool_listener_for_repository.cpp. Equal pools are equal pointers; every
-- pool has an ID of its own, so the set is keyed by it. A listener is the address of its object. The
-- mutex makes each operation one step. Allocation and the deleters, which call the jemalloc collection, are
-- left out.
pub mod Forward
pub mod Process
use ipc_shm_arena_lend.Base.{
  ℕ, Bool, true, false, Option, none, some, List, [], ◌∷◌, ◌++◌, if◌then◌else◌, ◌==◌,
}
use ipc_shm_arena_lend.Base.Dict.{Dict, find, erase, is_some}
use ipc_shm_arena_lend.Pool.{Pool}
use ipc_shm_arena_lend.AddressMap.{emplace_ordered}
use ipc_shm_arena_lend.Repository.{Holder, Repository, insert, erase_pool}
use ipc_shm_arena_lend.Collection.{Effect, notifies_created, notifies_removed}

pub record Arena : Type 0 where
  pub shm_pools : Dict Pool
  pub listeners : Dict (Unit {0})

-- The calls of an `Owner_shm_pool_listener`.
pub data Notice : Type 0 where
  initial : ℕ → List Pool → Notice
  added : ℕ → Pool → Notice
  removed : ℕ → Pool → Notice

pools_of : Dict Pool → List Pool
pools_of [] = []
pools_of ((k, p) ∷ m) = p ∷ pools_of m

unfoldable pub add_shm_pool_listener : Arena → ℕ → Arena × Bool × List Notice
unfolding pools_of
add_shm_pool_listener a listener =
    let (ls, is_new) = emplace_ordered listener tt a.listeners in
    if is_new
    then (record a { listeners = ls }, true, initial listener (pools_of a.shm_pools) ∷ [])
    else (a, false, [])

unfoldable pub remove_shm_pool_listener : Arena → ℕ → Arena × Bool
remove_shm_pool_listener a listener =
    (record a { listeners = erase listener a.listeners }, is_some (find listener a.listeners))

-- The loops over the listeners.
unfoldable pub tell_added : Dict (Unit {0}) → Pool → List Notice
tell_added [] p = []
tell_added ((l, _) ∷ ls) p = added l p ∷ tell_added ls p

unfoldable pub tell_removed : Dict (Unit {0}) → Pool → List Notice
tell_removed [] p = []
tell_removed ((l, _) ∷ ls) p = removed l p ∷ tell_removed ls p

-- None where the pool is there already: the process aborts.
unfoldable pub handle_created_shm_pool : Arena → Pool → Option (Arena × List Notice)
unfolding tell_added
handle_created_shm_pool a p =
    let (pools, is_new) = emplace_ordered p.id p a.shm_pools in
    if is_new then some (record a { shm_pools = pools }, tell_added a.listeners p) else none

unfoldable pub handle_removed_shm_pool : Arena → Pool → Arena × List Notice
unfolding tell_removed
handle_removed_shm_pool a p =
    if is_some (find p.id a.shm_pools)
    then (record a { shm_pools = erase p.id a.shm_pools }, tell_removed a.listeners p)
    else (a, [])

unfoldable pub lookup_shm_pool_by_id : Arena → ℕ → Option Pool
lookup_shm_pool_by_id a id = find id a.shm_pools

-- `Event_listener_impl`, which the owner collection knows by the address `self`: one line of the
-- collection's trace.
unfoldable pub receive : ℕ → Arena → Effect → Option (Arena × List Notice)
unfolding handle_created_shm_pool handle_removed_shm_pool
receive self a (notifies_created l p) =
    if l == self then handle_created_shm_pool a p else some (a, [])
receive self a (notifies_removed l p b) =
    if l == self then some (handle_removed_shm_pool a p) else some (a, [])
receive self a e = some (a, [])

-- The notices of the destructor.
unfoldable pub tell_removals : Dict (Unit {0}) → Dict Pool → List Notice
unfolding tell_removed
tell_removals ls [] = []
tell_removals ls ((k, p) ∷ m) = tell_removed ls p ++ tell_removals ls m

unfoldable pub destroy : Arena → List Notice
unfolding tell_removals
destroy a = tell_removals a.listeners a.shm_pools

module _ {H : Type 0} ⦃holder : Holder H⦄ where
  -- `notify_initial_shm_pools` of the repository's listener.
  unfoldable pub notify_initial_shm_pools : Repository H → List Pool → Repository H
  notify_initial_shm_pools r [] = r
  notify_initial_shm_pools r (p ∷ ps) = notify_initial_shm_pools (insert r p).0 ps

  -- `Owner_shm_pool_listener_for_repository`, at the address `listener`.
  unfoldable pub notify : ℕ → Repository H → Notice → Repository H
  unfolding notify_initial_shm_pools
  notify listener r (initial l ps) = if l == listener then notify_initial_shm_pools r ps else r
  notify listener r (added l p) = if l == listener then (insert r p).0 else r
  notify listener r (removed l p) = if l == listener then (erase_pool r p.id).0 else r
