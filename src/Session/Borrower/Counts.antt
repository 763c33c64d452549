-- ===== src/Session/Borrower/Counts.antt =====
-- The use counts of session/standalone/shm/arena_lend/borrower_collection.cpp.
use ipc_shm_arena_lend.Base.{
  ℕ, ◌≡◌, ◌+◌, ◌-◌, ◌<◌, ◌%◌, ◌^◌, none, some, arith, if◌then◌else◌, ◌==◌, Option-cases, inl, inr,
  ◌&&◌,
}
use ipc_shm_arena_lend.Base.Dict.{Dict, find, is_some, find-assign, find-erase, find-emplace}
use ipc_shm_arena_lend.Session.Borrower.{
  BorrowerCollection, find_shm_pool, count_up, count_down, register_object, deregister_object,
}

-- The uses of an object, 0 where its pool or its offset is not registered.
unfoldable pub uses : BorrowerCollection → ℕ → ℕ → ℕ
uses c id offset = elim (find id c) [
  | none ↦ 0
  | some d ↦ elim (find offset d.offset_map) [ none ↦ 0 | some n ↦ n ]
]

unfoldable pub count_at : Dict ℕ → ℕ → ℕ
count_at m offset = elim (find offset m) [ none ↦ 0 | some n ↦ n ]

count_at-count_up :
    (m : Dict ℕ) (a b : ℕ)
    → count_at m a + 1 < 2 ^ 32
    → count_at (count_up m a) b ≡ (if a == b then count_at m b + 1 else count_at m b)
unfolding count_at count_up
count_at-count_up m a b h = elim (Option-cases (find a m)) [
  | inl e ↦ ground (arith, e, find-emplace a b 1 m)
  | inr (n, e) ↦ ground (arith, e, find-assign a b ((n + 1) % 2 ^ 32) m)
]

count_at-count_down :
    (m : Dict ℕ) (a b n : ℕ)
    → find a m ≡ some n
    → count_at (count_down m a n) b ≡ (if a == b then count_at m b - 1 else count_at m b)
unfolding count_at count_down
count_at-count_down m a b n e = ground (arith, e, find-assign a b (n - 1) m, find-erase a b m)

-- Below the width of the counter, `register_object` succeeds exactly in a registered pool, and adds
-- one use to the object at that pool and offset, and to no other object.
pub uses-register_object :
    (c : BorrowerCollection) (id offset i o : ℕ)
    → uses c id offset + 1 < 2 ^ 32
    → let (c', registered) = register_object c id offset in
      (registered ≡ is_some (find_shm_pool c id))
      × (uses c' i o
          ≡ (if registered && (id == i) && (offset == o) then uses c i o + 1 else uses c i o))
unfolding uses register_object find_shm_pool count_at
uses-register_object c id offset i o h = elim (Option-cases (find id c)) [
  | inl e ↦ ground (arith, e)
  | inr (d, e) ↦
      let law = count_at-count_up d.offset_map offset o (ground (arith, e)) in
      ground
        (arith, e, law, find-assign id i (record d { offset_map = count_up d.offset_map offset }) c)
]

-- `deregister_object` takes one use off the object at that pool and offset, of which 0 stays 0, and
-- changes the uses of no other object.
pub uses-deregister_object :
    (c : BorrowerCollection) (id offset i o : ℕ)
    → let (c', deregistered) = deregister_object c id offset in
      uses c' i o ≡ (if (id == i) && (offset == o) then uses c i o - 1 else uses c i o)
unfolding uses deregister_object count_at
uses-deregister_object c id offset i o = elim (Option-cases (find id c)) [
  | inl e ↦ ground (arith, e)
  | inr (d, e) ↦ elim (Option-cases (find offset d.offset_map)) [
    | inl f ↦ ground (arith, e, f)
    | inr (n, f) ↦
        let law = count_at-count_down d.offset_map offset o n f in
        ground (
          arith,
          e,
          f,
          law,
          find-assign id i (record d { offset_map = count_down d.offset_map offset n }) c,
        )
  ]
]
