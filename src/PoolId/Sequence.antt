-- ===== src/PoolId/Sequence.antt =====
-- What processes that call `generate_pool_id` (shm/arena_lend/detail/shm_pool_offset_ptr_data.cpp)
-- obtain, for every interleaving of their critical sections.
use ipc_shm_arena_lend.Base.{
  ℕ, zero, suc, ◌+◌, ◌%◌, ◌-◌, ◌^◌, ◌≤◌, ◌<◌, ◌≡◌, ◌≢◌, refl, Bool, true, false, Option, none, some,
  List, [], ◌∷◌, ◌==◌, if◌then◌else◌, arith, subst, inl, inr, Bool-cases, sym, ap, ◌∙◌,
}
use ipc_shm_arena_lend.PoolId.{
  generate_pool_id, next_id, Fault, mutex_failed, open_failed, create_failed, truncate_failed,
  map_failed, Opened, ready, first, aborted, init_region,
}

-- IDs of 31 bits, 0 excepted.
abbrev pub id_count : ℕ
id_count = 2 ^ 31 - 1

-- The machine: the SHM object, which processes passed `call_once`, and the IDs so far, newest first.
pub record Machine : Type 0 where
  pub region : Option ℕ
  pub initialized : ℕ → Bool
  pub issued : List ℕ

pub data Event : Type 0 where
  opens : ℕ → Option Fault → ℕ → Event
  takes : ℕ → Event

abbrev pub boot : Machine
boot = record { region = none; initialized = λ p. false; issued = [] }

mark : (ℕ → Bool) → ℕ → ℕ → Bool
mark f p q = if p == q then true else f q

opened : Machine → ℕ → Option ℕ × Opened → Machine
opened m p (region, ready) = record m { region = region; initialized = mark m.initialized p }
opened m p (region, first id) = record {
  region = region;
  initialized = mark m.initialized p;
  issued = id ∷ m.issued;
}
opened m p (region, aborted) = record m { region = region }

taken : Machine → Option ℕ → Machine
taken m none = m
taken m (some r) = record m { region = some (next_id r).0; issued = (next_id r).1 ∷ m.issued }

-- One critical section of process `p`.
unfoldable pub step : Machine → Event → Machine
unfolding opened taken mark
step m (opens p fault garbage) =
    if m.initialized p then m else opened m p (init_region fault garbage m.region)
step m (takes p) = if m.initialized p then taken m m.region else m

unfoldable pub run : Machine → List Event → Machine
unfolding step
run m [] = m
run m (e ∷ es) = run (step m e) es

-- Whether the creation of the object fails between `CREATE_ONLY` and the first write. There is no
-- creation where the object is there already.
unfoldable pub fails_half_way : Option Fault → Option ℕ → Bool
fails_half_way (some truncate_failed) none = true
fails_half_way (some map_failed) none = true
fails_half_way fault region = false

unfoldable pub creates_half_way : Machine → Event → Bool
unfolding fails_half_way
creates_half_way m (opens p fault garbage) =
    if m.initialized p then false else fails_half_way fault m.region
creates_half_way m (takes p) = false

-- No creation fails half-way on the run from a machine.
abbrev pub AllClean : Machine → List Event → Type 0
AllClean m [] = Unit {0}
AllClean m (e ∷ es) = (creates_half_way m e ≡ false) × AllClean (step m e) es

-- The IDs in order, newest first: 1, 2, …, 2 ^ 31 - 1, and 1 again.
unfoldable pub ids : ℕ → List ℕ
ids zero = []
ids (suc n) = (n % id_count + 1) ∷ ids n

abbrev pub length : List ℕ → ℕ
length [] = 0
length (x ∷ xs) = suc (length xs)

-- An ID is never 0, fits 31 bits, and follows the previous one, with 1 after the largest.
pub next_id-succ :
    (r : ℕ)
    → r < 2 ^ 32
    → ((next_id r).1 ≡ r % 2 ^ 31 % id_count + 1)
      × ((next_id r).0 < 2 ^ 32)
      × ((next_id r).0 % 2 ^ 31 ≡ (next_id r).1)
unfolding next_id
next_id-succ r h = ground arith

-- The content of the region ends in the last ID.
abbrev pub Agrees : Option ℕ → List ℕ → Type 0
Agrees none xs = xs ≡ []
Agrees (some r) xs = (n : ℕ) × (xs ≡ ids (suc n)) × (r < 2 ^ 32) × (r % 2 ^ 31 ≡ n % id_count + 1)

take-Agrees :
    (r : ℕ) (xs : List ℕ) → Agrees (some r) xs → Agrees (some (next_id r).0) ((next_id r).1 ∷ xs)
unfolding ids
take-Agrees r xs (n, e, b, h) =
    let (s, t, u) = next_id-succ r b in (suc n, ground arith, t, omega arith)

first-Agrees : (xs : List ℕ) → xs ≡ [] → Agrees (some 1) (1 ∷ xs)
unfolding ids
first-Agrees xs h = (0, ground arith, omega arith, omega arith)

opened-Agrees :
    (m : Machine) (p : ℕ) (fault : Option Fault) (garbage : ℕ) (region : Option ℕ)
    → fails_half_way fault region ≡ false
    → Agrees region m.issued
    → let m' = opened m p (init_region fault garbage region) in Agrees m'.region m'.issued
unfolding opened init_region fails_half_way
opened-Agrees m p none garbage none c h = first-Agrees m.issued h
opened-Agrees m p none garbage (some r) c h = h
opened-Agrees m p (some mutex_failed) garbage region c h = h
opened-Agrees m p (some open_failed) garbage region c h = h
opened-Agrees m p (some create_failed) garbage none c h = h
opened-Agrees m p (some create_failed) garbage (some r) c h = h
opened-Agrees m p (some truncate_failed) garbage none c h = absurd (ground (arith, c))
opened-Agrees m p (some truncate_failed) garbage (some r) c h = h
opened-Agrees m p (some map_failed) garbage none c h = absurd (ground (arith, c))
opened-Agrees m p (some map_failed) garbage (some r) c h = h

taken-Agrees :
    (m : Machine) (region : Option ℕ)
    → m.region ≡ region
    → Agrees region m.issued
    → Agrees (taken m region).region (taken m region).issued
unfolding taken
taken-Agrees m none e h = rw e h
taken-Agrees m (some r) e h = take-Agrees r m.issued h

step-Agrees :
    (m : Machine) (e : Event)
    → creates_half_way m e ≡ false
    → Agrees m.region m.issued
    → Agrees (step m e).region (step m e).issued
unfolding step creates_half_way
step-Agrees m (opens p fault garbage) c h = elim (Bool-cases (m.initialized p)) [
  | inl old ↦ rw old h
  | inr new ↦ rw new (opened-Agrees m p fault garbage m.region (ground (arith, c, new)) h)
]
step-Agrees m (takes p) c h = elim (Bool-cases (m.initialized p)) [
  | inl old ↦ rw old (taken-Agrees m m.region refl h)
  | inr new ↦ rw new h
]

run-Agrees :
    (m : Machine) (es : List Event)
    → AllClean m es
    → Agrees m.region m.issued
    → Agrees (run m es).region (run m es).issued
unfolding run
run-Agrees m [] c h = h
run-Agrees m (e ∷ es) c h = run-Agrees (step m e) es c.1 (step-Agrees m e c.0 h)

length-ids : (n : ℕ) → length (ids n) ≡ n
unfolding ids
length-ids zero = refl
length-ids (suc n) = ap suc (length-ids n)

Agrees-ids : (region : Option ℕ) (xs : List ℕ) → Agrees region xs → xs ≡ ids (length xs)
unfolding ids
Agrees-ids none xs e = rw e
Agrees-ids (some r) xs (n, e, _, _) = e ∙ ap ids (sym (ap length e ∙ length-ids (suc n)))

-- From boot, whatever sequence of critical sections the processes of the machine go through, the
-- n-th ID issued on the machine is ((n - 1) mod (2 ^ 31 - 1)) + 1, as long as no creation of the SHM
-- object fails between `CREATE_ONLY` and the first write.
issued-ids :
    (es : List Event) → AllClean boot es → (run boot es).issued ≡ ids (length (run boot es).issued)
issued-ids es c = Agrees-ids _ _ (run-Agrees boot es c refl)

abbrev pub Apart : ℕ → List ℕ → Type 0
Apart x [] = Unit {0}
Apart x (y ∷ ys) = (x ≢ y) × Apart x ys

abbrev pub Distinct : List ℕ → Type 0
Distinct [] = Unit {0}
Distinct (x ∷ xs) = Apart x xs × Distinct xs

abbrev pub take : ℕ → List ℕ → List ℕ
take zero xs = []
take (suc n) [] = []
take (suc n) (x ∷ xs) = x ∷ take n xs

ids-Apart : (k d m : ℕ) → k + d < id_count → Apart ((m + d) % id_count + 1) (take k (ids m))
unfolding ids
ids-Apart zero d m h = tt
ids-Apart (suc k) d zero h = tt
ids-Apart (suc k) d (suc m) h =
    let e : suc m + d ≡ m + suc d = omega arith in
    let P : ℕ → Type 0 = λ t. Apart (t % id_count + 1) (take k (ids m)) in
    (omega arith, subst P (sym e) (ids-Apart k (suc d) m (omega arith)))

ids-Distinct : (k n : ℕ) → k ≤ id_count → Distinct (take k (ids n))
unfolding ids
ids-Distinct zero n h = tt
ids-Distinct (suc k) zero h = tt
ids-Distinct (suc k) (suc n) h =
    let e : n ≡ n + 0 = omega arith in
    let apart : Apart ((n + 0) % id_count + 1) (take k (ids n)) = ids-Apart k 0 n (omega arith) in
    (rw (← e) at apart, ids-Distinct k n (omega arith))

-- At every moment, the last 2 ^ 31 - 1 IDs issued on the machine are pairwise distinct, whatever the
-- interleaving of the processes, as long as no creation of the SHM object fails half-way.
pub issued-Distinct :
    (es : List Event) → AllClean boot es → Distinct (take id_count (run boot es).issued)
issued-Distinct es c =
    rw (issued-ids es c) (ids-Distinct id_count (length (run boot es).issued) (omega arith))

-- A process that calls `generate_pool_id` with nobody in between obtains the successor of the ID in
-- the region, 1 for a new region, and the region then ends in that ID.
pub generate_pool_id-succ :
    (initialized : Bool) (garbage r : ℕ)
    → r < 2 ^ 32
    → let (region, flag, id) = generate_pool_id none garbage initialized (some r) in
      (flag ≡ true)
      × (id ≡ some (r % 2 ^ 31 % id_count + 1))
      × ((r' : ℕ) × (region ≡ some r') × (some (r' % 2 ^ 31) ≡ id))
unfolding generate_pool_id
generate_pool_id-succ true garbage r h =
    let (a, b, c) = next_id-succ r h in (refl, ap some a, ((next_id r).0, refl, ap some c))
generate_pool_id-succ false garbage r h =
    let (a, b, c) = next_id-succ r h in (refl, ap some a, ((next_id r).0, refl, ap some c))
