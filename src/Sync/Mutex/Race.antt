-- ===== src/Sync/Mutex/Race.antt =====
-- `pthread_mutex_init` on two cores at once: no lock guards `mutex_count`, so each access to it
-- is a step.
use pico_ocaml.Prelude.{ℕ, ◌+◌, ◌<◌, ◌≤◌, ◌≡◌, Bool, true, refl, sym, subst, arith, if◌then◌else◌}
use pico_ocaml.Sync.Sdk.{Core, same_core}
use pico_ocaml.Sync.Mutex.{max_mutexes, update}

-- Where a core stands in `pthread_mutex_init`, with its `idx`.
pub data Init : Type 0 where
  outside : Init
  tested : Init  -- `mutex_count` was less than MAX_MUTEXES
  loaded : (idx : ℕ) → Init  -- in `mutex_count++`, before the store
  counted : (idx : ℕ) → Init  -- before the slot is set up
  returned : (idx : ℕ) → Init  -- 0, with `idx` in `*m`
  refused : Init  -- ENOMEM

pub record Table : Type 0 where
  pub count : ℕ
  pub ready : ℕ → Bool
  pub at : Core → Init

abbrev pub put : Core → Init → Table → Table
put c p s = record s { at = λ d. if same_core c d then p else s.at d }

abbrev load_at : Core → Table → Table
load_at c s = put c (Init.loaded s.count) s

abbrev store_at : Core → ℕ → Table → Table
store_at c idx s = put c (Init.counted idx) (record s { count = idx + 1 })

abbrev set_up_at : Core → ℕ → Table → Table
set_up_at c idx s = put c (Init.returned idx) (record s { ready = update s.ready idx true })

-- A step of core `c`.
pub data Inits (s : Table) (c : Core) : Table → Type 0 where
  test_passed :
      {t : Table}
      → s.at c ≡ Init.outside
      → s.count < max_mutexes
      → t ≡ put c Init.tested s
      → Inits s c t
  test_failed :
      {t : Table}
      → s.at c ≡ Init.outside
      → max_mutexes ≤ s.count
      → t ≡ put c Init.refused s
      → Inits s c t
  load : {t : Table} → s.at c ≡ Init.tested → t ≡ load_at c s → Inits s c t
  store : (idx : ℕ) {t : Table} → s.at c ≡ Init.loaded idx → t ≡ store_at c idx s → Inits s c t
  set_up : (idx : ℕ) {t : Table} → s.at c ≡ Init.counted idx → t ≡ set_up_at c idx s → Inits s c t
  leave :
      (idx : ℕ) {t : Table} → s.at c ≡ Init.returned idx → t ≡ put c Init.outside s → Inits s c t

-- The states that `s` leads to, by steps of either core.
pub data Leads (s : Table) : Table → Type 0 where
  here : Leads s s
  later : {t u : Table} (c : Core) → Leads s t → Inits t c u → Leads s u

-- The same with steps of one core only.
data Alone (c : Core) (s : Table) : Table → Type 0 where
  here : Alone c s s
  later : {t u : Table} → Alone c s t → Inits t c u → Alone c s u

-- What holds of a core that is alone, from a count of `n` on.
abbrev Fresh : (n count : ℕ) → Init → Type 0
Fresh n k Init.outside = (n ≤ k) × (k ≤ max_mutexes)
Fresh n k Init.tested = (n ≤ k) × (k < max_mutexes)
Fresh n k (Init.loaded i) = (n ≤ k) × (k < max_mutexes) × (i ≡ k)
Fresh n k (Init.counted i) = (n ≤ i) × (i < max_mutexes) × (i + 1 ≡ k)
Fresh n k (Init.returned i) = (n ≤ i) × (i < max_mutexes) × (i + 1 ≡ k)
Fresh n k Init.refused = (n ≤ k) × (k ≤ max_mutexes)

put_at : (c : Core) (p : Init) (s : Table) → (put c p s).at c ≡ p
put_at Core.core0 p s = refl
put_at Core.core1 p s = refl

-- A step makes the new place fresh if it does so by itself.
moves :
    (n : ℕ) (c : Core) (p : Init) (s t : Table)
    → t ≡ put c p s
    → Fresh n s.count p
    → Fresh n t.count (t.at c)
moves n c p s t q h =
    subst (λ u. Fresh n u.count (u.at c)) (sym q) (subst (Fresh n s.count) (sym (put_at c p s)) h)

Inits-Fresh :
    (n : ℕ) (c : Core) {s t : Table}
    → Inits s c t
    → Fresh n s.count (s.at c)
    → Fresh n t.count (t.at c)
Inits-Fresh n c {s} {t} (test_passed a few q) h =
    moves n c Init.tested s t q (let h' = subst (Fresh n s.count) a h in (h'.0, few))
Inits-Fresh n c {s} {t} (test_failed a all q) h =
    moves n c Init.refused s t q (subst (Fresh n s.count) a h)
Inits-Fresh n c {s} {t} (load a q) h =
    moves n c (Init.loaded s.count) s t q
      (let h' = subst (Fresh n s.count) a h in (h'.0, h'.1, refl))
Inits-Fresh n c {s} {t} (store i a q) h =
    moves n c (Init.counted i) (record s { count = i + 1 }) t q
      (let (low, few, same) = subst (Fresh n s.count) a h in
        (omega (arith, same, low), omega (arith, same, few), refl))
Inits-Fresh n c {s} {t} (set_up i a q) h =
    moves n c (Init.returned i) (record s { ready = update s.ready i true }) t q
      (subst (Fresh n s.count) a h)
Inits-Fresh n c {s} {t} (leave i a q) h = moves n c Init.outside s t q (
    let (low, few, next) = subst (Fresh n s.count) a h in
    (omega (arith, low, next), omega (arith, few, next)))

Alone-Fresh :
    (n : ℕ) (c : Core) {s t : Table}
    → Alone c s t
    → Fresh n s.count (s.at c)
    → Fresh n t.count (t.at c)
Alone-Fresh n c here h = h
Alone-Fresh n c (later r st) h = Inits-Fresh n c st (Alone-Fresh n c r h)

-- While the other core stays out of `pthread_mutex_init`, every index that a core gets, by
-- however many calls, lies in the table and is at least the count from the start and one less
-- than the count at its return, so no two calls get the same.
Alone-fresh :
    (c : Core) {s t : Table} (i : ℕ)
    → Alone c s t
    → s.at c ≡ Init.outside
    → s.count ≤ max_mutexes
    → t.at c ≡ Init.returned i
    → (s.count ≤ i) × (i < max_mutexes) × (i + 1 ≡ t.count)
Alone-fresh c {s} {t} i r out room got =
    subst (Fresh s.count t.count) got
      (Alone-Fresh s.count c r (subst (Fresh s.count s.count) (sym out) (omega arith, room)))

-- Both cores have passed the test.
both_tested : Table → Table
both_tested s = put Core.core1 Init.tested (put Core.core0 Init.tested s)

Leads-both_tested :
    (s : Table)
    → ((c : Core) → s.at c ≡ Init.outside)
    → s.count < max_mutexes
    → Leads s (both_tested s)
unfolding both_tested
Leads-both_tested s out few =
    later Core.core1 (later Core.core0 here (test_passed (out Core.core0) few refl))
      (test_passed (out Core.core1) few refl)

-- Whenever both cores are outside `pthread_mutex_init` and the table has a free slot, one call by
-- each can end in either of these: both have returned 0 with the same index, the one that was
-- next; or one of them has returned 0 with the index after that, which lies past the end of the
-- table when only one slot was free.
pub pthread_mutex_init_race :
    (s : Table)
    → ((c : Core) → s.at c ≡ Init.outside)
    → s.count < max_mutexes
    → ((t : Table) × Leads s t
        × (t.at Core.core0 ≡ Init.returned s.count)
        × (t.at Core.core1 ≡ Init.returned s.count)
        × (t.count ≡ s.count + 1))
      × ((t : Table) × Leads s t
          × (t.at Core.core0 ≡ Init.returned s.count)
          × (t.at Core.core1 ≡ Init.returned (s.count + 1))
          × (t.ready (s.count + 1) ≡ true))
unfolding both_tested
pthread_mutex_init_race s out few =
    ((both, both-Leads, refl, refl, refl), (after, after-Leads, refl, refl, ground arith))
  where
    n : ℕ
    n = s.count

    loaded : Table
    loaded = load_at Core.core0 (both_tested s)

    loaded-Leads : Leads s loaded
    loaded-Leads = later Core.core0 (Leads-both_tested s out few) (load refl refl)

    -- Core 1 loads the count before core 0 stores it.
    shared : Table
    shared = store_at Core.core1 n (store_at Core.core0 n (load_at Core.core1 loaded))

    shared-Leads : Leads s shared
    shared-Leads =
        later Core.core1
          (later Core.core0 (later Core.core1 loaded-Leads (load refl refl)) (store n refl refl))
          (store n refl refl)

    both : Table
    both = set_up_at Core.core1 n (set_up_at Core.core0 n shared)

    both-Leads : Leads s both
    both-Leads =
        later Core.core1 (later Core.core0 shared-Leads (set_up n refl refl)) (set_up n refl refl)

    -- Core 1 loads the count when core 0 has returned.
    first : Table
    first = set_up_at Core.core0 n (store_at Core.core0 n loaded)

    first-Leads : Leads s first
    first-Leads =
        later Core.core0 (later Core.core0 loaded-Leads (store n refl refl)) (set_up n refl refl)

    after : Table
    after = set_up_at Core.core1 (n + 1) (store_at Core.core1 (n + 1) (load_at Core.core1 first))

    after-Leads : Leads s after
    after-Leads =
        later Core.core1
          (later Core.core1 (later Core.core1 first-Leads (load refl refl))
            (store (n + 1) refl refl))
          (set_up (n + 1) refl refl)
