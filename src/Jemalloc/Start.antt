-- ===== src/Jemalloc/Start.antt =====
-- shm/arena_lend/jemalloc/shm_pool_collection.cpp: the creation of the arenas of a collection by `start`, and
-- their end with the collection, and the first arena, where an allocation without one goes.
use ipc_shm_arena_lend.Base.{
  ℕ, zero, suc, ◌+◌, ◌<◌, ◌≤◌, ◌||◌, ◌∙◌, ◌≡◌, refl, Bool, true, false, Option, none, some, List,
  [], ◌∷◌, if◌then◌else◌, ◌==◌, arith,
}
use ipc_shm_arena_lend.Base.Dict.{Dict, find, is_some}
use ipc_shm_arena_lend.AddressMap.{emplace_ordered, insert_ordered}
use ipc_shm_arena_lend.AddressMap.Layout.{find-insert_ordered}
use ipc_shm_arena_lend.Memory.{
  Call, mallctl, arenas_create, create_arena, destroy_arena, allocate_in_arena, deallocate_in_arena,
}

-- The members of the class beside those of the owner collection.
pub record Arenas : Type 0 where
  pub started : Bool
  pub arenas : Dict (Unit {0})

-- The loop of `start`: the code and the ID that jemalloc answers in each round; the rounds are counted
-- down. The result is none where `start` throws. The hooks are the address of the collection's.
unfoldable pub start_arenas :
    ℕ
    → ℕ
    → ℕ
    → (ℕ → ℕ × ℕ)
    → Dict (Unit {0})
    → List Call
    → Dict (Unit {0}) × List Call × Option Bool
unfolding create_arena
start_arenas hooks zero i answers ids calls = (ids, calls, some true)
start_arenas hooks (suc n) i answers ids calls =
    let (calls', created) = create_arena (some hooks) (answers i).0 (answers i).1 calls in
    elim created [
      | none ↦ (ids, calls', none)
      | some id ↦
          let (ids', inserted) = emplace_ordered id tt ids in
          let rest = start_arenas hooks n (i + 1) answers ids' calls' in
          if inserted then rest else (ids, calls', some false)
    ]

unfoldable pub start : ℕ → Arenas → ℕ → (ℕ → ℕ × ℕ) → List Call → Arenas × List Call × Option Bool
unfolding start_arenas
start hooks a n answers calls =
    if n == 0
    then (a, calls, some false)
    else if a.started
    then (a, calls, some true)
    else (let (ids, calls', result) = start_arenas hooks n 0 answers a.arenas calls in
        (record { started = true; arenas = ids }, calls', result))

-- The destructor. A failure of jemalloc would end the process.
unfoldable pub destroy_arenas : Dict (Unit {0}) → List Call → List Call
unfolding destroy_arena
destroy_arenas [] calls = calls
destroy_arenas ((id, _) ∷ ids) calls = destroy_arenas ids (destroy_arena id 0 calls).0

-- `*m_arenas.begin()`.
unfoldable pub first_arena : Dict (Unit {0}) → Option ℕ
first_arena [] = none
first_arena ((id, _) ∷ ids) = some id

-- `allocate` and `deallocate` without an arena; none where there is no arena, which is an assertion.
unfoldable pub allocate_first : Arenas → ℕ → ℕ → List Call → Option (List Call × ℕ)
unfolding first_arena allocate_in_arena
allocate_first a size address calls = elim (first_arena a.arenas) [
  | none ↦ none
  | some id ↦ some (allocate_in_arena size id address calls)
]

unfoldable pub deallocate_first : Arenas → ℕ → List Call → Option (List Call)
unfolding first_arena deallocate_in_arena
deallocate_first a address calls = elim (first_arena a.arenas) [
  | none ↦ none
  | some id ↦ some (deallocate_in_arena address id calls)
]

-- The IDs that jemalloc answers in the rounds from `i` on.
unfoldable pub answered : ℕ → ℕ → (ℕ → ℕ × ℕ) → ℕ → Bool
answered zero i answers id = false
answered (suc n) i answers id = ((answers i).1 == id) || answered n (i + 1) answers id

-- jemalloc answers each ID once.
abbrev pub IsDistinct : (ℕ → ℕ × ℕ) → Type 0
IsDistinct answers = (i j : ℕ) → (answers i).1 ≡ (answers j).1 → i ≡ j

not-answered :
    (n i j : ℕ) (answers : ℕ → ℕ × ℕ)
    → IsDistinct answers
    → j < i
    → answered n i answers (answers j).1 ≡ false
unfolding answered
not-answered zero i j answers d h = refl
not-answered (suc n) i j answers d h = ground (arith, not-answered n (i + 1) j answers d, d i j)

start_arenas-step :
    (hooks n i : ℕ) (answers : ℕ → ℕ × ℕ) (ids : Dict (Unit {0})) (calls : List Call)
    → (answers i).0 ≡ 0
    → find (answers i).1 ids ≡ none
    → start_arenas hooks (suc n) i answers ids calls
      ≡ start_arenas hooks n
          (i + 1)
          answers
          (insert_ordered (answers i).1 tt ids)
          (mallctl (arenas_create (some hooks)) (answers i).0 (answers i).1 ∷ calls)
unfolding start_arenas emplace_ordered
start_arenas-step hooks n i answers ids calls ok new = ground arith

start_arenas-true :
    (hooks n i : ℕ) (answers : ℕ → ℕ × ℕ) (ids : Dict (Unit {0})) (calls : List Call)
    → ((j : ℕ) → (answers j).0 ≡ 0)
    → IsDistinct answers
    → ((j : ℕ) → i ≤ j → find (answers j).1 ids ≡ none)
    → let (ids', calls', result) = start_arenas hooks n i answers ids calls in
      (result ≡ some true)
      × ((id : ℕ) → is_some (find id ids') ≡ (is_some (find id ids) || answered n i answers id))
unfolding answered
start_arenas-true hooks zero i answers ids calls ok d new =
    unfold start_arenas in (refl, λ id. ground arith)
start_arenas-true hooks (suc n) i answers ids calls ok d new =
    let rest =
      start_arenas-true hooks n (i + 1) answers (insert_ordered (answers i).1 tt ids)
        (mallctl (arenas_create (some hooks)) (answers i).0 (answers i).1 ∷ calls) ok d
        (λ j h.
          ground
            (arith, find-insert_ordered (answers i).1 (answers j).1 tt ids, new i, new j, d i j)) in
    rw (start_arenas-step hooks n i answers ids calls (ok i) (new i (omega arith))) (
      rest.0,
      λ id.
          ground
            (arith, rest.1 id, find-insert_ordered (answers i).1 id tt ids, new i (omega arith)),
    )

start-new :
    (hooks n : ℕ) (answers : ℕ → ℕ × ℕ) (calls : List Call)
    → 0 < n
    → let (ids, calls', result) = start_arenas hooks n 0 answers [] calls in
      start hooks (record { started = false; arenas = [] }) n answers calls
      ≡ (record { started = true; arenas = ids }, calls', result)
unfolding start
start-new hooks n answers calls h = ground arith

start-again :
    (hooks m : ℕ) (a : Arenas) (answers : ℕ → ℕ × ℕ) (calls : List Call)
    → 0 < m
    → a.started ≡ true
    → start hooks a m answers calls ≡ (a, calls, some true)
unfolding start
start-again hooks m a answers calls h s = ground arith

-- `start` of a new collection for at least one arena ends and returns true where jemalloc creates each
-- arena, with an ID that it answers once. The arenas of the collection are then those that were created,
-- and `start` again, for at least one arena, creates none and returns true.
pub start-true :
    (hooks n m : ℕ) (answers : ℕ → ℕ × ℕ) (calls : List Call)
    → ((j : ℕ) → (answers j).0 ≡ 0)
    → IsDistinct answers
    → 0 < n
    → 0 < m
    → let (a, calls', result) =
        start hooks (record { started = false; arenas = [] }) n answers calls in
      (result ≡ some true)
      × ((id : ℕ) → is_some (find id a.arenas) ≡ answered n 0 answers id)
      × (start hooks a m answers calls' ≡ (a, calls', some true))
start-true hooks n m answers calls ok d h k =
    let all = start_arenas-true hooks n 0 answers [] calls ok d (λ j e. unfold find in refl) in
    rw (start-new hooks n answers calls h)
      (all.0, λ id. all.1 id ∙ (unfold find in refl), start-again hooks m _ answers _ k refl)
