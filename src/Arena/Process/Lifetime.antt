-- ===== src/Arena/Process/Lifetime.antt =====
-- shm/arena_lend/jemalloc/ipc_arena.hpp and .cpp: no object is allocated or deallocated in an arena that is not open, and no
-- arena of jemalloc is left open.
use ipc_shm_arena_lend.Base.{ℕ, ◌≡◌, ◌↔◌, Bool, true, some}
use ipc_shm_arena_lend.Base.Dict.{find}
use ipc_shm_arena_lend.Jemalloc.Objects.{Answers, Constructed, thread_references}
use ipc_shm_arena_lend.Jemalloc.Objects.Trace.{is_arena_open, IsArenaSafe}
use ipc_shm_arena_lend.Jemalloc.Objects.Steps as Objects
use ipc_shm_arena_lend.Jemalloc.Objects.Safety.{Step-IsSound, Reach-IsSound}
use ipc_shm_arena_lend.Jemalloc.Objects.Matching.{Step-IsMatchedHeap, Reach-IsMatchedHeap}
use ipc_shm_arena_lend.Jemalloc.Objects.Upkeep.{
  construct-Keeps, release_object-Keeps, remove_current_thread_cache-Keeps, exit_thread-Keeps,
  flush-Keeps,
}
use ipc_shm_arena_lend.Arena.Process.{Process, construct_impl}
use ipc_shm_arena_lend.Arena.Process.Steps.{
  Step, creates, constructs, releases, removes, exits, flushes, lets_go, Reach, start, later,
}
use ipc_shm_arena_lend.Arena.Process.Invariant.{arena_of, IsAlive-heap}
use ipc_shm_arena_lend.Arena.Process.Start.{
  IsAliveProcess, create-IsAlive, destroy-IsAlive, construct_impl-Built,
}

construct_impl-IsAlive :
    (p : Process) (thread address : ℕ) (use_cache : Bool) (size : ℕ) (o : Answers) (q : Process)
    (r : Constructed)
    → Objects.IsNew p.heap o
    → IsAliveProcess p
    → construct_impl p thread address use_cache size o ≡ some (q, r)
    → IsAliveProcess q
construct_impl-IsAlive p thread address use_cache size o q r new v e =
    let b = construct_impl-Built p thread address use_cache size o q r v e in
    let s = Objects.constructs true thread address b.arena_id use_cache size o new in
    rw b.after (
      IsAlive-heap v (Step-IsSound s v.sound) (Step-IsMatchedHeap s v.matched) (
        construct-Keeps (λ k i. arena_of p.arenas k ≡ some i) true p.heap thread address b.arena_id
          use_cache size o v.matched b.its_arena v.owned))

Step-IsAlive : {p q : Process} → Step p q → IsAliveProcess p → IsAliveProcess q
Step-IsAlive {p} (creates address answers fresh new room) v =
    create-IsAlive p address answers fresh new v
Step-IsAlive {p} (constructs thread address use_cache size o q r new e) v =
    construct_impl-IsAlive p thread address use_cache size o q r new v e
Step-IsAlive {p} (releases a) v =
    let s : Objects.Step p.heap _ = Objects.releases a in
    IsAlive-heap v (Step-IsSound s v.sound) (Step-IsMatchedHeap s v.matched)
      (release_object-Keeps _ v.owned a v.matched.agrees.single)
Step-IsAlive {p} (removes thread address) v =
    let s : Objects.Step p.heap _ = Objects.removes thread address in
    IsAlive-heap v (Step-IsSound s v.sound) (Step-IsMatchedHeap s v.matched)
      (remove_current_thread_cache-Keeps _ v.owned thread address)
Step-IsAlive {p} (exits thread) v =
    let s : Objects.Step p.heap _ = Objects.exits thread in
    IsAlive-heap v (Step-IsSound s v.sound) (Step-IsMatchedHeap s v.matched)
      (exit_thread-Keeps _ v.owned thread)
Step-IsAlive {p} (flushes thread ec) v =
    let s : Objects.Step p.heap _ = Objects.flushes thread ec in
    IsAlive-heap v (Step-IsSound s v.sound) (Step-IsMatchedHeap s v.matched)
      (flush-Keeps _ v.owned thread ec)
Step-IsAlive {p} (lets_go address free) v = destroy-IsAlive p address free v

pub Reach-IsAlive : {p : Process} → Reach p → IsAliveProcess p
unfolding arena_of find is_arena_open thread_references
Reach-IsAlive start = record {
  sound = Reach-IsSound Objects.start;
  matched = Reach-IsMatchedHeap Objects.start;
  owned = record {
    threads = λ c r. elim r [ ];
    objects = λ a d e. cc;
    open_arena = λ k i e. cc;
    safe = tt;
  };
  separate = λ k l i e f. cc;
  held = λ i e. cc;
  one = λ k a e. cc;
}
Reach-IsAlive (later r s) = Step-IsAlive s (Reach-IsAlive r)

-- In every history of a process that creates arenas, constructs and releases objects in them from any
-- thread, and lets go of arenas that nothing refers to, each allocation, deallocation and destruction
-- names an arena of jemalloc that is open at that moment; new addresses and IDs are not in use, and the
-- counter of the collection IDs does not reach its end.
pub Reach-IsArenaSafe : {p : Process} → Reach p → IsArenaSafe p.heap.calls
Reach-IsArenaSafe r = (Reach-IsAlive r).owned.safe

-- In every such history, an arena of jemalloc is open exactly if an arena of the process has it, so none
-- is left open after a creation that failed or after the end of its owner.
pub is_arena_open_iff :
    {p : Process}
    → Reach p
    → (i : ℕ) → (is_arena_open i p.heap.calls ≡ true) ↔ ((k : ℕ) × (arena_of p.arenas k ≡ some i))
is_arena_open_iff r i = let v = Reach-IsAlive r in (v.held i, λ (k, e). v.owned.open_arena k i e)
