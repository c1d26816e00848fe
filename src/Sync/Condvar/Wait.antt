-- ===== src/Sync/Condvar/Wait.antt =====
-- `pthread_cond_wait` from its call to its return.
use pico_ocaml.Prelude.{ℕ, ◌<◌, ◌≡◌, refl, inl, inr, true, some, List, [], ◌∷◌, arith, Bool-cases}
use pico_ocaml.Prelude.Int.{ℤ}
use pico_ocaml.Sync.Sdk.{Core, other, RecursiveMutex}
use pico_ocaml.Sync.Mutex.{Code, Mutexes, index_of, release}
use pico_ocaml.Sync.Mutex.Inv.{IsSync, release-IsSync}
use pico_ocaml.Sync.Mutex.Lock.{ready_of_index, Fair, waited, lock_loop-acquires}
use pico_ocaml.Sync.Condvar.{
  cond_index, ensure_condvar_init, register_at, is_woken, unregister_at, State, wait_release, Round,
  poll_loop, reacquire, pthread_cond_wait,
}

module _ (R : RecursiveMutex) (c : Core) (i : ℕ) where
  wait_release-release : (s : Mutexes R) → 0 < s.counts c i → wait_release R c i s ≡ release R c i s
  unfolding wait_release release
  wait_release-release s mine = ground arith

  -- Core `c` is well-behaved without mutex `i`.
  pub record Without (s : Mutexes R) : Type 0 where
    pub sync : IsSync R s
    pub ready : s.ready i ≡ true
    pub free : s.counts c i ≡ 0

  release-Without :
      {s : Mutexes R}
      → IsSync R s
      → s.ready i ≡ true
      → s.counts c i ≡ 1
      → Without (wait_release R c i s)
  unfolding release
  release-Without {s} v r one = rw (wait_release-release s (omega arith)) (record {
    sync = release-IsSync R c i v r (omega arith);
    ready = ground arith;
    free = ground arith;
  })

  -- Rounds that leave a core without the mutex as it is.
  abbrev Keeps : List (Round R) → Type 0
  Keeps [] = Unit {0}
  Keeps (round ∷ rounds) =
      ((s : State R) → Without s.mutexes → Without (round s).mutexes) × Keeps rounds

  -- The state after all the rounds.
  abbrev pub after_rounds : List (Round R) → State R → State R
  after_rounds [] s = s
  after_rounds (round ∷ rounds) s = after_rounds rounds (round s)

  poll_loop-returns :
      (e my_gen : ℕ) (rounds : List (Round R)) (s : State R)
      → Keeps rounds
      → Without s.mutexes
      → is_woken e my_gen (after_rounds rounds s).condvars ≡ true
      → (s' : State R) × (poll_loop R e my_gen rounds s ≡ some s') × Without s'.mutexes
  unfolding poll_loop
  poll_loop-returns e my_gen [] s k w woken =
      (record s { condvars = unregister_at e s.condvars }, rw (woken, poll_loop) refl, w)
  poll_loop-returns e my_gen (round ∷ rounds) s k w woken =
      elim (Bool-cases (is_woken e my_gen s.condvars)) [
        | inl now ↦
            (record s { condvars = unregister_at e s.condvars }, rw (now, poll_loop) refl, w)
        | inr later ↦
            let (s', q, w') = poll_loop-returns e my_gen rounds (round s) k.1 (k.0 s w) woken in
            (s', rw (later, poll_loop) q, w')
      ]

  -- Tries after which the other core does not hold the mutex, wherever they begin.
  abbrev Frees : List (Mutexes R → Mutexes R) → Type 0
  Frees tries = (s : Mutexes R) → Without s → (waited R c i tries s).counts (other c) i ≡ 0

  -- The state in which the wait begins to look at the generation.
  abbrev pub released : ℕ → State R → State R
  released e s = record s {
    mutexes = wait_release R c i s.mutexes;
    condvars = (register_at e s.condvars).1;
  }

  -- A core that holds a mutex once waits with it at a condition variable, both set up. If the rounds
  -- of the wait leave the table well-formed and the core without the mutex, and after them the
  -- generation is another, and if the other core lets go of the mutex while this one tries to take
  -- it again: then `pthread_cond_wait` returns 0, the core holds the mutex and the other does not.
  pub pthread_cond_wait_lem :
      (v m : ℤ) (e : ℕ) (rounds : List (Round R)) (tries : List (Mutexes R → Mutexes R))
      (s : State R)
      → IsSync R s.mutexes
      → cond_index v s.condvars ≡ some e
      → index_of R m s.mutexes ≡ some i
      → s.mutexes.counts c i ≡ 1
      → Keeps rounds
      → is_woken e (register_at e s.condvars).0 (after_rounds rounds (released e s)).condvars ≡ true
      → Fair R c i tries
      → Frees tries
      → (s' : State R) × (pthread_cond_wait R c v m rounds tries s ≡ some (Code.success, v, s'))
        × IsSync R s'.mutexes
        × (0 < s'.mutexes.counts c i)
        × (s'.mutexes.counts (other c) i ≡ 0)
  unfolding pthread_cond_wait ensure_condvar_init reacquire
  pthread_cond_wait_lem v m e rounds tries s sync at_cond at_mutex one keeps woken fair frees =
      let ready = (ready_of_index R m s.mutexes i at_mutex).0 in
      let (s', q, w) =
        poll_loop-returns e (register_at e s.condvars).0 rounds (released e s) keeps
          (release-Without sync ready one) woken in
      let (t, r, sync', mine, apart) =
        lock_loop-acquires R c i tries w.sync w.ready (omega (arith, w.free)) fair
          (frees s'.mutexes w) in
      (record s' { mutexes = t }, ground (arith, at_cond, at_mutex, q, r), sync', mine, apart)
