-- ===== src/Arena/Process/Start.antt =====
-- The creation and the end of an arena by shm/arena_lend/jemalloc/ipc_arena.cpp, and where `construct_impl` puts an object.
use ipc_shm_arena_lend.Base.{
  ℕ, ◌+◌, ◌%◌, ◌^◌, ◌≡◌, refl, subst, Bool, true, false, inl, inr, [], ◌∷◌, arith, ◌==◌, Bool-cases,
  Option-cases, none, some,
}
use ipc_shm_arena_lend.Base.Dict.{find, erase}
use ipc_shm_arena_lend.AddressMap.{emplace_ordered}
use ipc_shm_arena_lend.Memory.{mallctl, arenas_create, arena_destroy, create_arena, destroy_arena}
use ipc_shm_arena_lend.Jemalloc.Start.{start_arenas, destroy_arenas}
use ipc_shm_arena_lend.Jemalloc.Objects.{Heap, Answers, Constructed, construct}
use ipc_shm_arena_lend.Jemalloc.Objects.Trace.{is_arena_open}
use ipc_shm_arena_lend.Arena.Process.{
  IpcArena, Process, created, fails, create, destroy, construct_impl, get_arena_id,
}
use ipc_shm_arena_lend.Arena.Process.Steps.{is_held}
use ipc_shm_arena_lend.Arena.Process.Invariant.{
  arena_of, IsAlive, failed-IsAlive, added-IsAlive, removed-IsAlive,
}

abbrev pub IsAliveProcess : Process → Type 0
IsAliveProcess p = IsAlive p.arenas p.heap

module _ (p : Process) (address : ℕ) (answers : ℕ → ℕ × ℕ) where
  abbrev pub next_id : ℕ
  next_id = (p.collection_id_counter + 1) % 2 ^ 32

  abbrev pub new_arena : IpcArena
  new_arena = record {
    collection_id = next_id;
    jemalloc = record { started = true; arenas = ((answers 0).1, tt) ∷ [] };
  }

  abbrev pub called : Heap
  called = record p.heap {
    calls = mallctl (arenas_create (some address)) (answers 0).0 (answers 0).1 ∷ p.heap.calls;
  }

  create-wraps :
      (next_id == 0) ≡ true
      → create p address answers ≡ (record p { collection_id_counter = next_id }, fails)
  unfolding create
  create-wraps wraps = ground arith

  pub create-made :
      (next_id == 0) ≡ false
      → ((answers 0).0 == 0) ≡ true
      → create p address answers ≡ (
        record {
          collection_id_counter = next_id;
          arenas = (address, new_arena) ∷ p.arenas;
          heap = called;
        },
        created address,
      )
  unfolding create start_arenas create_arena emplace_ordered find
  create-made id made = ground arith

  pub create-failed :
      (next_id == 0) ≡ false
      → ((answers 0).0 == 0) ≡ false
      → create p address answers
        ≡ (record { collection_id_counter = next_id; arenas = p.arenas; heap = called }, fails)
  unfolding create start_arenas create_arena emplace_ordered find
  create-failed id failed = ground arith

  pub create-IsAlive :
      find address p.arenas ≡ none
      → is_arena_open (answers 0).1 p.heap.calls ≡ false
      → IsAliveProcess p
      → IsAliveProcess (create p address answers).0
  create-IsAlive fresh new v = elim (Bool-cases (next_id == 0)) [
    | inl wraps ↦ rw (create-wraps wraps) v
    | inr id ↦ elim (Bool-cases ((answers 0).0 == 0)) [
      | inl made ↦ rw (create-made id made) (
          let z : 0 ≡ (answers 0).0 = ground arith in
          subst
            (λ ec. IsAlive ((address, new_arena) ∷ p.arenas) (record p.heap {
              calls = mallctl (arenas_create (some address)) ec (answers 0).1 ∷ p.heap.calls;
            }))
            z (added-IsAlive v address new_arena (answers 0).1 fresh new refl (some address)))
      | inr failed ↦
          rw (create-failed id failed)
            (failed-IsAlive v (some address) (answers 0).0 (answers 0).1 failed)
    ]
  ]

module _ (p : Process) (address : ℕ) (a : IpcArena) (i : ℕ) (here : find address p.arenas ≡ some a)
    (only : a.jemalloc.arenas ≡ (i, tt) ∷ []) where
  destroy-one : destroy p address ≡ record p {
    arenas = erase address p.arenas;
    heap = record p.heap { calls = mallctl (arena_destroy i) 0 0 ∷ p.heap.calls };
  }
  unfolding destroy destroy_arenas destroy_arena
  destroy-one = rw (here, destroy) (rw only refl)

  arena_of-here : arena_of p.arenas address ≡ some i
  unfolding arena_of get_arena_id
  arena_of-here = rw (here, arena_of) (rw only refl)

  construct_impl-here :
      (thread : ℕ) (use_cache : Bool) (size : ℕ) (o : Answers)
      → construct_impl p thread address use_cache size o
        ≡ some (
          record p { heap = (construct true p.heap thread address i use_cache size o).0 },
          (construct true p.heap thread address i use_cache size o).1,
        )
  unfolding construct_impl get_arena_id
  construct_impl-here thread use_cache size o = rw (here, construct_impl) (rw (only) refl)

pub destroy-IsAlive :
    (p : Process) (address : ℕ)
    → is_held address p.heap ≡ false
    → IsAliveProcess p
    → IsAliveProcess (destroy p address)
unfolding destroy
destroy-IsAlive p address free v = elim (Option-cases (find address p.arenas)) [
  | inl absent ↦ rw (absent, destroy) v
  | inr (a, here) ↦
      let (i, only) = v.one address a here in
      rw (destroy-one p address a i here only)
        (removed-IsAlive v address i free (arena_of-here p address a i here only))
]

-- What is needed of `construct_impl` where it returns.
pub record Built (p : Process) (thread address : ℕ) (use_cache : Bool) (size : ℕ) (o : Answers)
    (q : Process) (r : Constructed) : Type 0 where
  pub arena : IpcArena
  pub arena_id : ℕ
  pub here : find address p.arenas ≡ some arena
  pub its_arena : arena_of p.arenas address ≡ some arena_id
  pub after :
      q ≡ record p { heap = (construct true p.heap thread address arena_id use_cache size o).0 }
  pub result : r ≡ (construct true p.heap thread address arena_id use_cache size o).1

pub construct_impl-Built :
    (p : Process) (thread address : ℕ) (use_cache : Bool) (size : ℕ) (o : Answers) (q : Process)
    (r : Constructed)
    → IsAliveProcess p
    → construct_impl p thread address use_cache size o ≡ some (q, r)
    → Built p thread address use_cache size o q r
unfolding construct_impl
construct_impl-Built p thread address use_cache size o q r v e =
    elim (Option-cases (find address p.arenas)) [
      | inl absent ↦ ground (arith, absent)
      | inr (a, here) ↦
          let (i, only) = v.one address a here in
          let c = construct_impl-here p address a i here only thread use_cache size o in
          record {
            arena = a;
            arena_id = i;
            here = here;
            its_arena = arena_of-here p address a i here only;
            after = cc (c, e);
            result = cc (c, e);
          }
    ]
