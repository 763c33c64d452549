-- ===== src/Arena/Process/Ids.antt =====
-- shm/arena_lend/jemalloc/ipc_arena.cpp: the collection IDs of the arenas of a process.
use ipc_shm_arena_lend.Base.{
  ℕ, ◌+◌, ◌^◌, ◌≤◌, ◌<◌, ◌≡◌, ◌≢◌, false, inl, inr, arith, ◌==◌, Bool-cases, Option-cases, some,
}
use ipc_shm_arena_lend.Base.Dict.{Dict, find, erase, find-erase}
use ipc_shm_arena_lend.Arena.Process.{IpcArena, Process, create, destroy}
use ipc_shm_arena_lend.Arena.Process.Steps.{
  Step, creates, constructs, releases, removes, exits, flushes, lets_go, Reach, start, later,
}
use ipc_shm_arena_lend.Arena.Process.Start.{
  create-made, create-failed, next_id, construct_impl-Built,
}
use ipc_shm_arena_lend.Arena.Process.Lifetime.{Reach-IsAlive}

record HasIds (counter : ℕ) (m : Dict IpcArena) : Type 0 where
  below : (k : ℕ) (a : IpcArena) → find k m ≡ some a → a.collection_id ≤ counter
  unique :
      (k l : ℕ) (a b : IpcArena)
      → find k m ≡ some a
      → find l m ≡ some b
      → a.collection_id ≡ b.collection_id
      → k ≡ l

create-HasIds :
    (p : Process) (address : ℕ) (answers : ℕ → ℕ × ℕ)
    → p.collection_id_counter + 1 < 2 ^ 32
    → HasIds p.collection_id_counter p.arenas
    → HasIds (create p address answers).0.collection_id_counter (create p address answers).0.arenas
unfolding find
create-HasIds p address answers room v =
    let id : (next_id p address answers == 0) ≡ false = ground arith in
    elim (Bool-cases ((answers 0).0 == 0)) [
      | inl made ↦ rw (create-made p address answers id made) (record {
        below = λ k a e. ground (arith, v.below k a);
        unique = λ k l a b e f h. ground (arith, v.below k a, v.below l b, v.unique k l a b);
      })
      | inr failed ↦
          rw (create-failed p address answers id failed)
            (record { below = λ k a e. ground (arith, v.below k a e); unique = v.unique })
    ]

erase-HasIds :
    (counter address : ℕ) (m : Dict IpcArena) → HasIds counter m → HasIds counter (erase address m)
erase-HasIds counter address m v = record {
  below = λ k a e. v.below k a (ground (arith, find-erase address k m));
  unique = λ k l a b e f h.
      v.unique k l a b (ground (arith, find-erase address k m))
        (ground (arith, find-erase address l m)) h;
}

Step-HasIds :
    {p q : Process}
    → Reach p
    → Step p q
    → HasIds p.collection_id_counter p.arenas
    → HasIds q.collection_id_counter q.arenas
unfolding destroy
Step-HasIds {p} r (creates address answers fresh new room) v =
    create-HasIds p address answers room v
Step-HasIds {p} r (constructs thread address use_cache size o q x new e) v =
    let b = construct_impl-Built p thread address use_cache size o q x (Reach-IsAlive r) e in
    rw b.after v
Step-HasIds r (releases a) v = v
Step-HasIds r (removes thread address) v = v
Step-HasIds r (exits thread) v = v
Step-HasIds r (flushes thread ec) v = v
Step-HasIds {p} r (lets_go address free) v = elim (Option-cases (find address p.arenas)) [
  | inl absent ↦ rw (absent, destroy) v
  | inr (a, here) ↦ rw (here, destroy) (erase-HasIds p.collection_id_counter address p.arenas v)
]

Reach-HasIds : {p : Process} → Reach p → HasIds p.collection_id_counter p.arenas
unfolding find
Reach-HasIds start = record { below = λ k a e. cc; unique = λ k l a b e f h. cc }
Reach-HasIds (later r s) = Step-HasIds r s (Reach-HasIds r)

-- At any time in the history of a process, different arenas have different collection IDs; the counter
-- of the IDs does not reach its end.
pub collection_id-ne :
    {p : Process}
    → Reach p
    → (k l : ℕ) (a b : IpcArena) → find k p.arenas ≡ some a
    → find l p.arenas ≡ some b
    → k ≢ l
    → a.collection_id ≢ b.collection_id
collection_id-ne r k l a b e f other same = other ((Reach-HasIds r).unique k l a b e f same)
