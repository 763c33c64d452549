-- ===== src/Tests/Pointers.antt =====
-- Fancy pointers on concrete input.
use ipc_shm_arena_lend.Base.{
  ◌≡◌, ◌+◌, ◌*◌, ◌-◌, ◌^◌, ◌%◌, refl, true, false, arith, inl, inr, if◌then◌else◌, ◌==◌,
}
use ipc_shm_arena_lend.Base.Words.{add_offset}
use ipc_shm_arena_lend.OffsetPtr.{RepositoryApi, get, of_address}
use ipc_shm_arena_lend.OffsetPtr.Fields.{encode}
use ipc_shm_arena_lend.OffsetPtr.RoundTrip.{IsCanonical, Knows, get-of_address}
use ipc_shm_arena_lend.FancyPtr.{add, subtract, difference, from_same, from_other}
use ipc_shm_arena_lend.FancyPtr as Fancy
use ipc_shm_arena_lend.FancyPtr.Arithmetic.{difference-add}

-- A repository of one pool, of ID 5, at the address 2 ^ 20 and with 2 ^ 12 bytes.
abbrev one_pool : RepositoryApi
one_pool = record {
  to_address = λ id offset. if id == 5 then add_offset 1048576 offset else 0;
  from_address = λ a. if a - 1048576 == 24 then (5, 24) else (0, 0);
}

one_pool-to_address : one_pool.to_address 5 24 ≡ 1048600
unfolding add_offset
one_pool-to_address = refl

get-of_address_example : get true one_pool (of_address true one_pool 9 1048600) ≡ 1048600
get-of_address_example =
    get-of_address one_pool 9 1048600 (inl (omega arith))
      (inr (5, 24, refl, omega arith, omega arith, omega arith, one_pool-to_address))

-- Three elements of 8 bytes.
difference-add_example :
    let q = add false one_pool 8 (encode 5 24) 3 in
    (Fancy.get false one_pool q ≡ Fancy.get false one_pool (encode 5 24) + 3 * 8)
    × (difference false one_pool 8 q (encode 5 24) ≡ 3)
    × (difference false one_pool 8 (encode 5 24) q ≡ (2 ^ 32 - 3) % 2 ^ 32)
    × (subtract false one_pool 8 q 3 ≡ encode 5 24)
difference-add_example =
    difference-add false one_pool 8 5 24 1048576 3 (omega arith) (omega arith) (omega arith)
      (omega arith) (omega arith) (λ o. refl)

leads_to : get false one_pool (encode 5 24) ≡ 1048600
unfolding get encode add_offset
leads_to = refl

leads_to-IsCanonical : IsCanonical (get false one_pool (encode 5 24))
leads_to-IsCanonical = rw leads_to (inl (omega arith))

leads_to-Knows : Knows one_pool (get false one_pool (encode 5 24))
leads_to-Knows =
    rw leads_to (inr (5, 24, refl, omega arith, omega arith, omega arith, one_pool-to_address))
