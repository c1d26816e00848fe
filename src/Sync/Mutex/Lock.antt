-- ===== src/Sync/Mutex/Lock.antt =====
-- What locking, trying and unlocking do.
use pico_ocaml.Prelude.{
  ℕ, ◌+◌, ◌<◌, ◌≡◌, refl, sym, ap, ◌∙◌, ◌≢◌, ◌⊎◌, inl, inr, true, Option, none, some, List, [], ◌∷◌,
  arith, dec_lt, ltb, leb, Bool-cases, Option-cases,
}
use pico_ocaml.Prelude.Int.{ℤ, pos, negsuc}
use pico_ocaml.Sync.Sdk.{Core, other, RecursiveMutex}
use pico_ocaml.Sync.Mutex.{
  max_mutexes, Code, Mutexes, index_of, take_slot, ensure_mutex_init, pthread_mutex_init, attempt,
  pthread_mutex_trylock, lock_loop, pthread_mutex_lock, release, pthread_mutex_unlock,
}
use pico_ocaml.Sync.Mutex.Inv.{
  IsSync, attempt-got, attempt-busy, attempt-failed, attempt-IsSync, attempt-ready, attempt-counts,
  release-IsSync,
}

module _ (R : RecursiveMutex) where
  pub ready_of_index :
      (m : ℤ) (s : Mutexes R) (i : ℕ) → index_of R m s ≡ some i → (s.ready i ≡ true) × (m ≡ pos i)
  ready_of_index (pos k) s i e = ground arith
  ready_of_index (negsuc k) s i e = cc

  -- What `ensure_mutex_init` gives: either the slot that `*m` names, with nothing changed, or a
  -- new one, in `*m` from then on, or none because the table is full.
  pub data Ensured (m : ℤ) (s : Mutexes R) (r : Option ℕ × ℤ × Mutexes R) : Type 0 where
    known : (i : ℕ) → index_of R m s ≡ some i → r ≡ (some i, m, s) → Ensured m s r
    taken : s.count < max_mutexes → r ≡ (some s.count, pos s.count, take_slot R s) → Ensured m s r
    table_full : s.count ≡ max_mutexes → r ≡ (none, m, s) → Ensured m s r

  pub ensure_mutex_init-Ensured :
      (m : ℤ) (s : Mutexes R) → IsSync R s → Ensured m s (ensure_mutex_init R m s)
  unfolding ensure_mutex_init
  ensure_mutex_init-Ensured m s v = elim (Option-cases (index_of R m s)) [
    | inr (i, e) ↦ known i e (ground (arith, e))
    | inl e ↦ elim (Bool-cases (leb max_mutexes s.count)) [
      | inl all ↦ table_full (ground (arith, v.bounded)) (ground (arith, e, all))
      | inr room ↦ taken (ground arith) (ground (arith, e, room))
    ]
  ]

  -- Two mutexes that `pthread_mutex_init` sets up one after the other, in a well-formed table with
  -- two slots left, have different indices, both in range and initialised, and held by no core.
  pthread_mutex_init-distinct :
      (m m' : ℤ) {s : Mutexes R}
      → IsSync R s
      → s.count + 1 < max_mutexes
      → let (code, a, s') = pthread_mutex_init R m s in
        let (code', b, s'') = pthread_mutex_init R m' s' in
        (code ≡ Code.success)
        × (code' ≡ Code.success)
        × (a ≢ b)
        × (index_of R a s'' ≡ some s.count)
        × (index_of R b s'' ≡ some (s.count + 1))
        × ((c : Core) → (s''.counts c s.count ≡ 0) × (s''.counts c (s.count + 1) ≡ 0))
  unfolding pthread_mutex_init
  pthread_mutex_init-distinct m m' {s} v room = (
    ground arith,
    ground arith,
    ground arith,
    ground arith,
    ground arith,
    λ c. (
      ground (arith, v.idle c s.count, v.filled s.count),
      ground (arith, v.idle c (s.count + 1), v.filled (s.count + 1)),
    ),
  )

  -- In a well-formed table, `pthread_mutex_trylock` of a mutex that is set up and that the core
  -- holds fewer than 255 times leaves the table well-formed and the index as it was: success, and
  -- one hold more, if the other core does not hold it; EBUSY, and no change of any count, if it
  -- does.
  pub pthread_mutex_trylock_lem :
      (c : Core) (m : ℤ) (i : ℕ) {s : Mutexes R}
      → IsSync R s
      → index_of R m s ≡ some i
      → s.counts c i < 255
      → let (code, m', s') = pthread_mutex_trylock R c m s in
        (m' ≡ m)
        × IsSync R s'
        × (((s.counts (other c) i ≡ 0) × (code ≡ Code.success) × (s'.counts c i ≡ s.counts c i + 1))
            ⊎ ((0 < s.counts (other c) i) × (code ≡ Code.ebusy) × (s'.counts ≡ s.counts)))
  unfolding pthread_mutex_trylock ensure_mutex_init
  pthread_mutex_trylock_lem c m i {s} v e few =
      let ready = (ready_of_index m s i e).0 in
      let kept = attempt-IsSync R c i v ready few in
      elim (dec_lt 0 (s.counts (other c) i)) [
        | yes busy ↦
            let b = attempt-busy R c i v ready busy in
            (
              ground (arith, e),
              ground (arith, e, kept),
              inr (busy, ground (arith, e, b), ground (arith, e, b)),
            )
        | no free ↦
            let got = attempt-got R c i v ready (omega arith) few in
            (
              ground (arith, e),
              ground (arith, e, kept),
              inl (
                omega arith,
                ground (arith, e, got),
                ground (arith, e, attempt-counts R c i v ready few got),
              ),
            )
      ]

  -- The rounds in which a core waits: whatever the other core and the interrupts do, the table
  -- stays well-formed, the mutex stays set up, and this core's holds of it stay as they are.
  abbrev pub Fair : Core → ℕ → List (Mutexes R → Mutexes R) → Type 0
  Fair c i [] = Unit {0}
  Fair c i (round ∷ rounds) =
      ((s : Mutexes R)
        → IsSync R s
        → s.ready i ≡ true
        → IsSync R (round s) × ((round s).ready i ≡ true) × ((round s).counts c i ≡ s.counts c i))
      × Fair c i rounds

  -- The table after all the rounds, if every try before them fails.
  abbrev pub waited : Core → ℕ → List (Mutexes R → Mutexes R) → Mutexes R → Mutexes R
  waited c i [] s = s
  waited c i (round ∷ rounds) s = waited c i rounds (round (attempt R c i s).1)

  -- In a well-formed table, for a mutex that is set up and that the core holds fewer than 255
  -- times: if the rounds of waiting are fair and after them the other core does not hold it, the
  -- loop of `pthread_mutex_lock` has come back by then, the core holds the mutex and the other
  -- does not, and the table is well-formed.
  pub lock_loop-acquires :
      (c : Core) (i : ℕ) (rounds : List (Mutexes R → Mutexes R)) {s : Mutexes R}
      → IsSync R s
      → s.ready i ≡ true
      → s.counts c i < 255
      → Fair c i rounds
      → (waited c i rounds s).counts (other c) i ≡ 0
      → (s' : Mutexes R) × (lock_loop R c i rounds s ≡ some s')
        × IsSync R s'
        × (0 < s'.counts c i)
        × (s'.counts (other c) i ≡ 0)
  unfolding lock_loop
  lock_loop-acquires c i [] {s} v r few f free =
      let got = attempt-got R c i v r free few in
      let kept = attempt-IsSync R c i v r few in
      let mine : 0 < (attempt R c i s).1.counts c i =
        omega (arith, attempt-counts R c i v r few got) in
      ((attempt R c i s).1, ground (arith, got), kept, mine, kept.exclusive c i mine)
  lock_loop-acquires c i (round ∷ rounds) {s} v r few f free =
      elim (Bool-cases (attempt R c i s).0) [
        | inl got ↦
            let kept = attempt-IsSync R c i v r few in
            let mine : 0 < (attempt R c i s).1.counts c i =
              omega (arith, attempt-counts R c i v r few got) in
            ((attempt R c i s).1, ground (arith, got), kept, mine, kept.exclusive c i mine)
        | inr failed ↦
            let (v', r', same) =
              f.0 (attempt R c i s).1 (attempt-IsSync R c i v r few)
                (ap (λ g. g i) (attempt-ready R c i v r few) ∙ r) in
            let few' : (round (attempt R c i s).1).counts c i < 255 =
              omega (arith, same, ap (λ g. g c i) (attempt-failed R c i v r failed)) in
            let (s', e, v'', mine, apart) = lock_loop-acquires c i rounds v' r' few' f.1 free in
            (s', ground (arith, failed, e), v'', mine, apart)
      ]

  pub release-attempt-counts :
      (c : Core) (i : ℕ) (s : Mutexes R)
      → (attempt R c i s).0 ≡ true
      → (d : Core) (j : ℕ) → (release R c i (attempt R c i s).1).counts d j ≡ s.counts d j
  unfolding attempt release
  release-attempt-counts c i s got d j = ground arith

  index_of-attempt :
      (c : Core) (m : ℤ) (i : ℕ) (s : Mutexes R)
      → index_of R m s ≡ some i
      → index_of R m (attempt R c i s).1 ≡ some i
  unfolding attempt
  index_of-attempt c (pos k) i s e = ground arith
  index_of-attempt c (negsuc k) i s e = cc

  -- In a well-formed table, for a mutex that is set up, that the other core does not hold and this
  -- one fewer than 255 times: a lock is got at once, and it and the unlock after it return 0 and
  -- leave every count, of either core and any mutex, and every bit of the masks as it was, in a
  -- well-formed table.
  lock_unlock :
      (c : Core) (m : ℤ) (i : ℕ) {s : Mutexes R}
      → IsSync R s
      → index_of R m s ≡ some i
      → s.counts c i < 255
      → s.counts (other c) i ≡ 0
      → (s' : Mutexes R) × (pthread_mutex_lock R c m [] s ≡ some (Code.success, m, s'))
        × let (code, s'') = pthread_mutex_unlock R c m s' in
          (code ≡ Code.success)
          × ((d : Core) (j : ℕ) → (s''.counts d j ≡ s.counts d j) × (s''.held d j ≡ s.held d j))
          × IsSync R s''
  unfolding pthread_mutex_lock pthread_mutex_unlock lock_loop
  lock_unlock c m i {s} v e few free =
      let ready = (ready_of_index m s i e).0 in
      let got = attempt-got R c i v ready free few in
      let kept = attempt-IsSync R c i v ready few in
      let mine : 0 < (attempt R c i s).1.counts c i =
        omega (arith, attempt-counts R c i v ready few got) in
      let valid =
        release-IsSync R c i kept (ap (λ g. g i) (attempt-ready R c i v ready few) ∙ ready) mine in
      (
        (attempt R c i s).1,
        ground (arith, e, got),
        rw (index_of-attempt c m i s e, pthread_mutex_unlock)
            (
              refl,
              (λ d j. (
                release-attempt-counts c i s got d j,
                valid.noted d j
                    ∙ ap (ltb 0) (release-attempt-counts c i s got d j)
                    ∙ sym (v.noted d j),
              )),
              valid,
            ),
      )
