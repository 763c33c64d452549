-- ===== src/Jemalloc/Merge.antt =====
-- Merges of extents in shm/arena_lend/jemalloc/shm_pool_collection.cpp.
use ipc_shm_arena_lend.Base.{
  ℕ, ◌+◌, ◌-◌, ◌%◌, ◌^◌, ◌≤◌, ◌≡◌, ◌↔◌, ◌⊎◌, refl, true, some, arith, Option-cases, inl, inr, ◌&&◌,
}
use ipc_shm_arena_lend.Base.Dict.{Dict, is_some, find}
use ipc_shm_arena_lend.Pool.{Pool, IsValid, is_subset, is_adjacent}
use ipc_shm_arena_lend.Pool.Range.{Contains, is_subset-Contains, is_adjacent_iff}
use ipc_shm_arena_lend.Pool.Divisible.{DivisiblePool}
use ipc_shm_arena_lend.AddressMap.{divisible_like}
use ipc_shm_arena_lend.AddressMap.Layout.{IsLaidOut, find-address}
use ipc_shm_arena_lend.AddressMap.Lookup.{lookup-holder, find-holder}
use ipc_shm_arena_lend.Collection.{lookup_shm_pool}
use ipc_shm_arena_lend.Collection.Owner.Remove.{lookup_shm_pool-find}
use ipc_shm_arena_lend.Jemalloc.{merge_memory_pages}

-- A range starts in a pool and lies in it.
abbrev pub Inside : Pool → ℕ → ℕ → Type 0
Inside p address size = Contains p address × (address + size ≤ p.address + p.size)

-- Where a pool of the map holds an address, the lookup finds it.
pub find-lookup_shm_pool :
    (pools : Dict DivisiblePool) (k address : ℕ) (p : DivisiblePool)
    → IsLaidOut pools
    → find k pools ≡ some p
    → Contains p.pool address
    → lookup_shm_pool pools address ≡ some p
unfolding lookup_shm_pool
find-lookup_shm_pool pools k address p l e h =
    ground (arith, lookup-holder address pools l, find-holder address k 0 pools p l e h)

pub is_subset-Inside :
    (p : Pool) (address size : ℕ)
    → IsValid p
    → (is_some (is_subset p address size) ≡ true) ↔ Inside p address size
is_subset-Inside p address size v = (
  λ h. elim (Option-cases (is_subset p address size)) [
    | inl out ↦ absurd (ground (arith, h, out))
    | inr (o, e) ↦ let (c, k, _) = (is_subset-Contains p address size o v).0 e in (c, k)
  ],
  λ (c, k).
      let e = (is_subset-Contains p address size (address - p.address) v).1 (c, k, omega arith) in
      rw e refl,
)

-- Two ranges of one pool are adjacent exactly if the test says so of their 32-bit sizes.
is_adjacent-Inside :
    (p : Pool) (a size_a b size_b : ℕ)
    → IsValid p
    → Inside p a size_a
    → Inside p b size_b
    → (is_adjacent a (size_a % 2 ^ 32) b (size_b % 2 ^ 32) ≡ true)
      ↔ ((a + size_a ≡ b) ⊎ (b + size_b ≡ a))
is_adjacent-Inside p a size_a b size_b v ha hb =
    let small_a : size_a % 2 ^ 32 ≡ size_a = omega (arith, v.size_bound, v.end_bound) in
    let small_b : size_b % 2 ^ 32 ≡ size_b = omega (arith, v.size_bound, v.end_bound) in
    let law =
      is_adjacent_iff a size_a b size_b (omega (arith, v.size_bound)) (omega (arith, v.size_bound))
        (omega (arith, v.end_bound)) (omega (arith, v.end_bound)) in
    rw (small_a, small_b) law

merge_same :
    (p : DivisiblePool) (a size_a b size_b : ℕ)
    → IsValid p.pool
    → ((is_adjacent a (size_a % 2 ^ 32) b (size_b % 2 ^ 32)
          && is_some (is_subset p.pool a size_a)
          && is_some (is_subset p.pool b size_b))
        ≡ true)
      ↔ (Inside p.pool a size_a × Inside p.pool b size_b × ((a + size_a ≡ b) ⊎ (b + size_b ≡ a)))
merge_same p a size_a b size_b v = (
  λ h.
      let ha = (is_subset-Inside p.pool a size_a v).0 (ground (arith, h)) in
      let hb = (is_subset-Inside p.pool b size_b v).0 (ground (arith, h)) in
      (ha, hb, (is_adjacent-Inside p.pool a size_a b size_b v ha hb).0 (ground (arith, h))),
  λ (ha, hb, adjacent).
      let x = (is_subset-Inside p.pool a size_a v).1 ha in
      let y = (is_subset-Inside p.pool b size_b v).1 hb in
      let z = (is_adjacent-Inside p.pool a size_a b size_b v ha hb).1 adjacent in rw (x, y, z) refl,
)

-- On pools laid out without overlap, a merge is allowed exactly where the two ranges lie in one pool of the
-- collection and one starts where the other ends.
merge_memory_pages_iff :
    (pools : Dict DivisiblePool) (a size_a b size_b : ℕ)
    → IsLaidOut pools
    → (merge_memory_pages pools a size_a b size_b ≡ true) ↔ (
        (p : DivisiblePool) × (find p.pool.address pools ≡ some p)
        × Inside p.pool a size_a
        × Inside p.pool b size_b
        × ((a + size_a ≡ b) ⊎ (b + size_b ≡ a)))
unfolding merge_memory_pages
merge_memory_pages_iff pools a size_a b size_b l = (
  λ h. elim (Option-cases (lookup_shm_pool pools a)) [
    | inl out ↦ absurd (ground (arith, h, out))
    | inr (p, e) ↦ elim (Option-cases (lookup_shm_pool pools b)) [
      | inl out ↦ absurd (ground (arith, h, e, out))
      | inr (q, f) ↦
          let (x, v, _) = lookup_shm_pool-find pools a p l e in
          let (ha, hb, adjacent) = (merge_same p a size_a b size_b v).0 (ground (arith, h, e, f)) in
          (p, x, ha, hb, adjacent)
    ]
  ],
  λ (p, x, ha, hb, adjacent).
      let e = find-lookup_shm_pool pools p.pool.address a p l x ha.0 in
      let f = find-lookup_shm_pool pools p.pool.address b p l x hb.0 in
      let (_, v) = find-address 0 p.pool.address pools l x in
      let z = (merge_same p a size_a b size_b v).1 (ha, hb, adjacent) in ground (arith, e, f, z),
)
