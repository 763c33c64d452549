-- ===== src/Arena/Forward.antt =====
-- What reaches a repository through shm/arena_lend/jemalloc/ipc_arena.cpp.
use ipc_shm_arena_lend.Base.{
  ℕ, ◌≡◌, refl, ap, ◌∙◌, Bool, true, false, none, some, List, [], ◌∷◌, arith, if◌then◌else◌, ◌==◌,
  Bool-cases, inl, inr,
}
use ipc_shm_arena_lend.Base.Dict.{Dict, find, erase, is_some, find-erase}
use ipc_shm_arena_lend.Pool.{Pool}
use ipc_shm_arena_lend.AddressMap.{emplace_ordered, insert_ordered}
use ipc_shm_arena_lend.AddressMap.Layout.{find-insert_ordered}
use ipc_shm_arena_lend.Repository.{Holder, Repository, insert, erase_pool}
use ipc_shm_arena_lend.Collection.{
  Effect, opens, maps, unmaps, closes, unlinks, notifies_created, notifies_removed,
}
use ipc_shm_arena_lend.Collection.Owner.{hear}
use ipc_shm_arena_lend.Collection.Owner.Mirror.{insert_twice, erase_pool_twice}
use ipc_shm_arena_lend.Arena.{
  Arena, Notice, added, removed, tell_added, tell_removed, handle_created_shm_pool,
  handle_removed_shm_pool, receive, notify,
}

module _ {H : Type 0} ⦃holder : Holder H⦄ where
  unfoldable pub notify_all : ℕ → Repository H → List Notice → Repository H
  notify_all listener r [] = r
  notify_all listener r (n ∷ ns) = notify_all listener (notify listener r n) ns

  notify_added :
      (listener l : ℕ) (p : Pool) (r : Repository H) (b : Bool)
      → (l == listener) ≡ b
      → notify listener r (added l p) ≡ (if b then (insert r p).0 else r)
  unfolding notify
  notify_added listener l p r b e = ap (λ x. if x then (insert r p).0 else r) e

  notify_removed :
      (listener l : ℕ) (p : Pool) (r : Repository H) (b : Bool)
      → (l == listener) ≡ b
      → notify listener r (removed l p) ≡ (if b then (erase_pool r p.id).0 else r)
  unfolding notify
  notify_removed listener l p r b e = ap (λ x. if x then (erase_pool r p.id).0 else r) e

  notify_all-tell_added :
      (listener : ℕ) (ls : Dict (Unit {0})) (p : Pool) (r : Repository H)
      → notify_all listener r (tell_added ls p)
        ≡ (if is_some (find listener ls) then (insert r p).0 else r)
  unfolding notify_all tell_added find
  notify_all-tell_added listener [] p r = refl
  notify_all-tell_added listener ((l, x) ∷ ls) p r = elim (Bool-cases (l == listener)) [
    | inl hit ↦
        ap (λ q. notify_all listener q (tell_added ls p)) (notify_added listener l p r true hit)
        ∙ notify_all-tell_added listener ls p (insert r p).0
        ∙ ground (arith, hit, insert_twice r p)
    | inr miss ↦
        ap (λ q. notify_all listener q (tell_added ls p)) (notify_added listener l p r false miss)
        ∙ notify_all-tell_added listener ls p r
        ∙ ground (arith, miss)
  ]

  notify_all-tell_removed :
      (listener : ℕ) (ls : Dict (Unit {0})) (p : Pool) (r : Repository H)
      → notify_all listener r (tell_removed ls p)
        ≡ (if is_some (find listener ls) then (erase_pool r p.id).0 else r)
  unfolding notify_all tell_removed find
  notify_all-tell_removed listener [] p r = refl
  notify_all-tell_removed listener ((l, x) ∷ ls) p r = elim (Bool-cases (l == listener)) [
    | inl hit ↦
        ap (λ q. notify_all listener q (tell_removed ls p)) (notify_removed listener l p r true hit)
        ∙ notify_all-tell_removed listener ls p (erase_pool r p.id).0
        ∙ ground (arith, hit, erase_pool_twice r p.id)
    | inr miss ↦
        ap (λ q. notify_all listener q (tell_removed ls p))
          (notify_removed listener l p r false miss)
        ∙ notify_all-tell_removed listener ls p r
        ∙ ground (arith, miss)
  ]

-- A line of the collection's trace tells the arena what it does not know yet: of a pool that it has
-- not, or of the end of a pool that it has.
abbrev pub IsNews : Arena → Effect → Type 0
IsNews a (notifies_created l p) = find p.id a.shm_pools ≡ none
IsNews a (notifies_removed l p b) = is_some (find p.id a.shm_pools) ≡ true
IsNews a e = Unit {0}

-- The IDs that the arena has after a line of the trace.
unfoldable pub known : ℕ → Arena → Effect → ℕ → Bool
known self a (notifies_created l p) id =
    if l == self
    then (if p.id == id then true else is_some (find id a.shm_pools))
    else is_some (find id a.shm_pools)
known self a (notifies_removed l p b) id =
    if l == self
    then (if p.id == id then false else is_some (find id a.shm_pools))
    else is_some (find id a.shm_pools)
known self a e id = is_some (find id a.shm_pools)

module _ {H : Type 0} ⦃holder : Holder H⦄ where
  -- The arena passes news of its collection on: it does not abort, a repository that listens to the
  -- arena hears what it would hear from the collection directly, and the arena's pools follow.
  pub receive-hear :
      (self listener : ℕ) (a : Arena) (r : Repository H) (e : Effect) (id : ℕ)
      → is_some (find listener a.listeners) ≡ true
      → IsNews a e
      → (a' : Arena) × (ns : List Notice) × (receive self a e ≡ some (a', ns))
        × (a'.listeners ≡ a.listeners)
        × (notify_all listener r ns ≡ hear self r e)
        × (is_some (find id a'.shm_pools) ≡ known self a e id)
  unfolding receive hear known notify_all handle_created_shm_pool handle_removed_shm_pool
      emplace_ordered
  receive-hear self listener a r (notifies_created l p) id here new =
      elim (Bool-cases (l == self)) [
        | inl hit ↦
            let a' = record a { shm_pools = insert_ordered p.id p a.shm_pools } in
            (
              a',
              tell_added a.listeners p,
              ground (arith, hit, new),
              refl,
              rw (hit, notify_all-tell_added listener a.listeners p r, here) refl,
              ground (arith, hit, find-insert_ordered p.id id p a.shm_pools new),
            )
        | inr miss ↦ (a, [], ground (arith, miss), refl, ground (arith, miss), ground (arith, miss))
      ]
  receive-hear self listener a r (notifies_removed l p b) id here old =
      elim (Bool-cases (l == self)) [
        | inl hit ↦
            let a' = record a { shm_pools = erase p.id a.shm_pools } in
            (
              a',
              tell_removed a.listeners p,
              ground (arith, hit, old),
              refl,
              rw (hit, notify_all-tell_removed listener a.listeners p r, here) refl,
              ground (arith, hit, find-erase p.id id a.shm_pools),
            )
        | inr miss ↦ (a, [], ground (arith, miss), refl, ground (arith, miss), ground (arith, miss))
      ]
  receive-hear self listener a r (opens n f) id here u = (a, [], refl, refl, refl, refl)
  receive-hear self listener a r (maps f x) id here u = (a, [], refl, refl, refl, refl)
  receive-hear self listener a r (unmaps x s) id here u = (a, [], refl, refl, refl, refl)
  receive-hear self listener a r (closes f) id here u = (a, [], refl, refl, refl, refl)
  receive-hear self listener a r (unlinks n gone) id here u = (a, [], refl, refl, refl, refl)
