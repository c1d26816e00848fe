-- ===== src/Sync/Mutex/Static.antt =====
-- Mutexes that are never passed to `pthread_mutex_init`, but have one of the initial values that
-- ocaml_stubs.h and pthread.h give.
use pico_ocaml.Prelude.{◌+◌, ◌<◌, ◌≡◌, true, some, arith}
use pico_ocaml.Prelude.Int.{ℤ, pos, negsuc}
use pico_ocaml.Sync.Sdk.{RecursiveMutex}
use pico_ocaml.Sync.Mutex.{max_mutexes, Mutexes, ensure_mutex_init}
use pico_ocaml.Sync.Mutex.Inv.{IsSync}

-- PTHREAD_MUTEX_INITIALIZER in ocaml_stubs.h, and in pthread.h; each counts where newlib has none.
abbrev pub initializer_stubs : ℤ
initializer_stubs = negsuc 0

abbrev pub initializer_pthread : ℤ
initializer_pthread = pos 0

module _ (R : RecursiveMutex) where
  -- Two mutexes are used for the first time, one after the other, in a well-formed table in which
  -- a mutex has been set up and two slots are left. With the initial value -1 they get two slots
  -- of their own; with 0 neither gets one, and both are from then on the mutex in slot 0.
  pub static_mutexes :
      (s : Mutexes R)
      → IsSync R s
      → 0 < s.count
      → s.count + 1 < max_mutexes
      → (let (i, m, s') = ensure_mutex_init R initializer_stubs s in
          let (j, m', s'') = ensure_mutex_init R initializer_stubs s' in
          (i ≡ some s.count)
          × (j ≡ some (s.count + 1))
          × (m ≡ pos s.count)
          × (m' ≡ pos (s.count + 1)))
        × (let (i, m, s') = ensure_mutex_init R initializer_pthread s in
            let (j, m', s'') = ensure_mutex_init R initializer_pthread s' in
            (i ≡ some 0) × (j ≡ some 0) × (s' ≡ s) × (s'' ≡ s))
  unfolding ensure_mutex_init
  static_mutexes s v used room =
      let zero_ready : s.ready 0 ≡ true = ground (arith, v.filled 0) in
      (
        (ground arith, ground arith, ground arith, ground arith),
        (
          ground (arith, zero_ready),
          ground (arith, zero_ready),
          ground (arith, zero_ready),
          ground (arith, zero_ready),
        ),
      )
