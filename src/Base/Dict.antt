-- ===== src/Base/Dict.antt =====
-- `std::unordered_map` and `std::set` as the program uses them: `find`, `emplace`, a write through
-- the iterator that `find` returned, and `erase`. The order of an unordered map is not modelled.
use mathlib.Core.Path.{◌≡◌, refl}
use mathlib.Core.Bool.{Bool, true, false}
use mathlib.Core.Option.{Option, none, some}
use mathlib.Core.List.{List, [], ◌∷◌}
use Prim.Native.Nat.{ℕ}
use native.Mathlib.Omega.{arith}
use ipc_shm_arena_lend.Base.Tests.{◌==◌, if◌then◌else◌}

abbrev pub Dict {ℓ} : Type ℓ → Type ℓ
Dict V = List (ℕ × V)

abbrev pub is_some {ℓ} : {A : Type ℓ} → Option A → Bool
is_some none = false
is_some (some a) = true

module _ {ℓ} {V : Type ℓ} where
  -- `iter->second` of the iterator that `find` returns; `none` is `end()`.
  unfoldable pub find : ℕ → Dict V → Option V
  find k [] = none
  find k ((j, v) ∷ m) = if j == k then some v else find k m

  -- The write `iter->second = v`.
  unfoldable pub assign : ℕ → V → Dict V → Dict V
  assign k v [] = []
  assign k v ((j, w) ∷ m) = if j == k then (j, v) ∷ m else (j, w) ∷ assign k v m

  unfoldable pub erase : ℕ → Dict V → Dict V
  erase k [] = []
  erase k ((j, w) ∷ m) = if j == k then erase k m else (j, w) ∷ erase k m

  -- `emplace`: the new map, and whether the entry was inserted.
  unfoldable pub emplace : ℕ → V → Dict V → Dict V × Bool
  unfolding find
  emplace k v m = elim (find k m) [ none ↦ ((k, v) ∷ m, true) | some w ↦ (m, false) ]

  unfoldable pub size : Dict V → ℕ
  size [] = 0
  size (e ∷ m) = Prim.Native.Nat.suc (size m)

  pub find-assign :
      (k j : ℕ) (v : V) (m : Dict V)
      → find j (assign k v m)
        ≡ (if k == j then (if is_some (find k m) then some v else none) else find j m)
  unfolding find assign
  find-assign k j v [] = ground arith
  find-assign k j v ((i, w) ∷ m) = ground (arith, find-assign k j v m)

  pub find-erase : (k j : ℕ) (m : Dict V) → find j (erase k m) ≡ (if k == j then none else find j m)
  unfolding find erase
  find-erase k j [] = ground arith
  find-erase k j ((i, w) ∷ m) = ground (arith, find-erase k j m)

  pub find-emplace :
      (k j : ℕ) (v : V) (m : Dict V)
      → find j (emplace k v m).0
        ≡ (if k == j then (if is_some (find k m) then find k m else some v) else find j m)
  unfolding find emplace
  find-emplace k j v m = ground arith

  pub emplace-inserts :
      (k : ℕ) (v : V) (m : Dict V)
      → (emplace k v m).1 ≡ (if is_some (find k m) then false else true)
  unfolding emplace
  emplace-inserts k v m = ground arith

  -- Writing what is there already, and writing twice.
  pub assign-find : (k : ℕ) (v : V) (m : Dict V) → find k m ≡ some v → assign k v m ≡ m
  unfolding assign find
  assign-find k v [] h = refl
  assign-find k v ((j, w) ∷ m) h = ground (arith, assign-find k v m)

  pub assign-assign : (k : ℕ) (v w : V) (m : Dict V) → assign k v (assign k w m) ≡ assign k v m
  unfolding assign
  assign-assign k v w [] = refl
  assign-assign k v w ((j, x) ∷ m) = ground (arith, assign-assign k v w m)

  -- Erasing a key that is not there, or that was just inserted, gives the map back.
  pub erase-absent : (k : ℕ) (m : Dict V) → find k m ≡ none → erase k m ≡ m
  unfolding find erase
  erase-absent k [] h = refl
  erase-absent k ((j, w) ∷ m) h = ground (arith, erase-absent k m)

  pub erase-emplace : (k : ℕ) (v : V) (m : Dict V) → find k m ≡ none → erase k (emplace k v m).0 ≡ m
  unfolding emplace erase
  erase-emplace k v m h = rw (h, emplace) (ground (arith, erase-absent k m))
