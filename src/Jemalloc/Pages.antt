-- ===== src/Jemalloc/Pages.antt =====
-- Commits, decommits and purges of pages in shm/arena_lend/jemalloc/shm_pool_collection.cpp.
use ipc_shm_arena_lend.Base.{
  ℕ, ◌+◌, ◌-◌, ◌%◌, ◌^◌, ◌≤◌, ◌<◌, ◌≡◌, ◌↔◌, ◌⊎◌, refl, Bool, false, Option, none, some, arith,
  Option-cases, Bool-cases, inl, inr, ◌||◌, subst, ltb,
}
use ipc_shm_arena_lend.Base.Dict.{Dict, find}
use ipc_shm_arena_lend.Base.Words.{sign_extend}
use ipc_shm_arena_lend.Pool.{IsValid, is_subset}
use ipc_shm_arena_lend.Pool.Range.{is_subset-Contains}
use ipc_shm_arena_lend.Pool.Divisible.{DivisiblePool}
use ipc_shm_arena_lend.AddressMap.{divisible_like}
use ipc_shm_arena_lend.AddressMap.Layout.{IsLaidOut}
use ipc_shm_arena_lend.Collection.{lookup_shm_pool}
use ipc_shm_arena_lend.Collection.Owner.Remove.{lookup_shm_pool-find}
use ipc_shm_arena_lend.Jemalloc.{
  compute_pool_and_offset, PageCall, commits, decommits, purges, commit_memory_pages,
  decommit_memory_pages, purge_forced_memory_pages,
}
use ipc_shm_arena_lend.Jemalloc.Merge.{Inside, find-lookup_shm_pool}

-- The extent lies in a pool of the collection, the pages in the extent, and the offset in the file of
-- the pool is that of the pages.
abbrev pub Locates : Dict DivisiblePool → ℕ → ℕ → ℕ → ℕ → DivisiblePool → ℕ → Type 0
Locates pools address size offset length p pool_offset =
    (find p.pool.address pools ≡ some p)
    × Inside p.pool address size
    × (offset + length ≤ size)
    × (p.pool.address + pool_offset ≡ address + offset)

located :
    (p : DivisiblePool) (address size offset length o : ℕ)
    → IsValid p.pool
    → Inside p.pool address size
    → p.pool.address + o ≡ address
    → offset < 2 ^ 64
    → length < 2 ^ 64
    → ((ltb size offset || ltb size length || ltb size ((offset + length) % 2 ^ 64)) ≡ false
        → (offset + length ≤ size))
      × (offset + length ≤ size
          → (ltb size offset || ltb size length || ltb size ((offset + length) % 2 ^ 64)) ≡ false)
      × (offset + length ≤ size → (sign_extend o + offset) % 2 ^ 64 ≡ o + offset)
unfolding sign_extend
located p address size offset length o v h e k n = (
  λ t. ground (arith, t, v.size_bound, v.end_bound),
  λ t. ground (arith, t, v.size_bound, v.end_bound),
  λ t. ground (arith, t, v.size_bound, v.end_bound),
)

-- On pools laid out without overlap, `compute_pool_and_offset` succeeds exactly where the extent lies in a
-- pool of the collection and the pages lie in the extent, also where the sum of offset and length wraps
-- around in 64 bits; it returns that pool and the offset of the pages in the pool's file.
compute_pool_and_offset_iff :
    (pools : Dict DivisiblePool) (address size offset length : ℕ) (p : DivisiblePool) (o : ℕ)
    → IsLaidOut pools
    → offset < 2 ^ 64
    → length < 2 ^ 64
    → (compute_pool_and_offset pools address size offset length ≡ some (p, o))
      ↔ Locates pools address size offset length p o
unfolding compute_pool_and_offset
compute_pool_and_offset_iff pools address size offset length p o l k n = (
  λ h. elim (Option-cases (lookup_shm_pool pools address)) [
    | inl out ↦ absurd (ground (arith, h, out))
    | inr (q, e) ↦ elim (Option-cases (is_subset q.pool address size)) [
      | inl out ↦ absurd (ground (arith, h, e, out))
      | inr (d, f) ↦
          let (x, v, _) = lookup_shm_pool-find pools address q l e in
          let (c, i, g) = (is_subset-Contains q.pool address size d v).0 f in
          let (fits, _, sum) = located q address size offset length d v (c, i) g k n in
          let t = ltb size offset || ltb size length || ltb size ((offset + length) % 2 ^ 64) in
          elim (Bool-cases t) [
            | inl outside ↦ absurd (ground (arith, h, e, f, outside))
            | inr within ↦
                let s = sum (fits within) in
                let same : q ≡ p = ground (arith, h, e, f, within) in
                let end : d + offset ≡ o = ground (arith, h, e, f, within, s) in
                let P : DivisiblePool → Type 0 =
                  λ y. Locates pools address size offset length y o in
                subst P same (x, (c, i), fits within, omega (arith, g, end))
          ]
    ]
  ],
  λ (x, inside, fits, e).
      let found = find-lookup_shm_pool pools p.pool.address address p l x inside.0 in
      let (_, v, _) = lookup_shm_pool-find pools address p l found in
      let d = address - p.pool.address in
      let g : p.pool.address + d ≡ address = omega (arith, inside) in
      let f = (is_subset-Contains p.pool address size d v).1 (inside.0, inside.1, g) in
      let (_, within, sum) = located p address size offset length d v inside g k n in
      let a = within fits in
      let s = sum fits in
      let end : d + offset ≡ o = omega (arith, g, e) in ground (arith, found, f, a, s, end),
)

-- The three operations on pages.
pub data PageOperation : Type 0 where
  commit decommit purge_forced : PageOperation

unfoldable pub operate :
    PageOperation → (PageCall → Bool) → Dict DivisiblePool → ℕ → ℕ → ℕ → ℕ → Bool × Option PageCall
operate commit = commit_memory_pages
operate decommit = decommit_memory_pages
operate purge_forced = purge_forced_memory_pages

-- The pages of a call belong to one pool of the collection; an address and an offset in the file, where
-- the call has both, are those of the same byte.
abbrev pub WithinPool : Dict DivisiblePool → PageCall → Type 0
WithinPool pools (commits address length) =
    (p : DivisiblePool) × (find p.pool.address pools ≡ some p)
    × (p.pool.address ≤ address)
    × (address + length ≤ p.pool.address + p.pool.size)
WithinPool pools (decommits address fd offset length) =
    (p : DivisiblePool) × (find p.pool.address pools ≡ some p)
    × (p.pool.fd ≡ fd)
    × (p.pool.address + offset ≡ address)
    × (offset + length ≤ p.pool.size)
WithinPool pools (purges fd offset length) =
    (p : DivisiblePool) × (find p.pool.address pools ≡ some p)
    × (p.pool.fd ≡ fd)
    × (offset + length ≤ p.pool.size)

-- What is called once the pool and the offset are computed.
call_of : PageOperation → ℕ → ℕ → DivisiblePool → ℕ → PageCall
call_of commit page length p o = commits page length
call_of decommit page length p o = decommits page p.pool.fd o length
call_of purge_forced page length p o = purges p.pool.fd o length

operate-none :
    (op : PageOperation) (pages : PageCall → Bool) (pools : Dict DivisiblePool)
    (address size offset length : ℕ)
    → compute_pool_and_offset pools address size offset length ≡ none
    → operate op pages pools address size offset length ≡ (false, none)
unfolding operate commit_memory_pages decommit_memory_pages purge_forced_memory_pages
operate-none commit pages pools address size offset length h = ground (arith, h)
operate-none decommit pages pools address size offset length h = ground (arith, h)
operate-none purge_forced pages pools address size offset length h = ground (arith, h)

operate-some :
    (op : PageOperation) (pages : PageCall → Bool) (pools : Dict DivisiblePool)
    (address size offset length : ℕ) (p : DivisiblePool) (o : ℕ)
    → compute_pool_and_offset pools address size offset length ≡ some (p, o)
    → let x = call_of op ((address + offset) % 2 ^ 64) length p o in
      operate op pages pools address size offset length ≡ (pages x, some x)
unfolding operate commit_memory_pages decommit_memory_pages purge_forced_memory_pages call_of
operate-some commit pages pools address size offset length p o h = ground (arith, h)
operate-some decommit pages pools address size offset length p o h = ground (arith, h)
operate-some purge_forced pages pools address size offset length p o h = ground (arith, h)

call_of-WithinPool :
    (op : PageOperation) (pools : Dict DivisiblePool) (page length : ℕ) (p : DivisiblePool) (o : ℕ)
    → find p.pool.address pools ≡ some p
    → p.pool.address + o ≡ page
    → o + length ≤ p.pool.size
    → WithinPool pools (call_of op page length p o)
unfolding call_of
call_of-WithinPool commit pools page length p o x e h = (p, x, omega arith, omega arith)
call_of-WithinPool decommit pools page length p o x e h = (p, x, refl, e, h)
call_of-WithinPool purge_forced pools page length p o x e h = (p, x, refl, h)

-- A commit, decommit or purge that calls the page functions does so for pages of one pool of the
-- collection, in memory and in the pool's file, for any extent, offset and length of 64 bits; and its
-- result is that of the call, or a failure where there is none.
pub operate-WithinPool :
    (op : PageOperation) (pages : PageCall → Bool) (pools : Dict DivisiblePool)
    (address size offset length : ℕ)
    → IsLaidOut pools
    → offset < 2 ^ 64
    → length < 2 ^ 64
    → (operate op pages pools address size offset length ≡ (false, none))
      ⊎ ((x : PageCall) × (operate op pages pools address size offset length ≡ (pages x, some x))
          × WithinPool pools x)
operate-WithinPool op pages pools address size offset length l k n =
    elim (Option-cases (compute_pool_and_offset pools address size offset length)) [
      | inl out ↦ inl (operate-none op pages pools address size offset length out)
      | inr ((p, o), e) ↦
          let page = (address + offset) % 2 ^ 64 in
          let (x, inside, fits, at) =
            (compute_pool_and_offset_iff pools address size offset length p o l k n).0 e in
          let (_, v, _) =
            lookup_shm_pool-find pools address p l
              (find-lookup_shm_pool pools p.pool.address address p l x inside.0) in
          inr (
            call_of op page length p o,
            operate-some op pages pools address size offset length p o e,
            call_of-WithinPool op pools page length p o x
                (omega (arith, at, inside, fits, v.end_bound)) (omega (arith, at, inside, fits)),
          )
    ]
