-- ===== src/Runtime/Platform.antt =====
-- ocaml_stubs.c, the runtime's mutexes and condition variables, `caml_plat_…`, over those of
-- `pthread_…`, whose results they drop.
use pico_ocaml.Prelude.{◌<◌, ◌≡◌, ap, ◌∙◌, inl, inr, true, Option, none, some, List, [], arith}
use pico_ocaml.Prelude.Int.{ℤ, pos}
use pico_ocaml.Sync.Sdk.{Core, other, RecursiveMutex}
use pico_ocaml.Sync.Mutex.{
  max_mutexes, Code, Mutexes, index_of, take_slot, attempt, ensure_mutex_init, pthread_mutex_init,
  pthread_mutex_destroy, pthread_mutex_lock, pthread_mutex_trylock, lock_loop,
}
use pico_ocaml.Sync.Mutex.Inv.{
  IsSync, take_slot-IsSync, attempt-got, attempt-ready, attempt-IsSync, attempt-counts,
}
use pico_ocaml.Sync.Mutex.Lock.{pthread_mutex_trylock_lem}
use pico_ocaml.Sync.Condvar.{
  Condvars, State, Round, pthread_cond_init, pthread_cond_destroy, pthread_cond_wait,
  pthread_cond_signal, pthread_cond_broadcast,
}

module _ (R : RecursiveMutex) where
  pub caml_plat_mutex_init : (m : ℤ) → Mutexes R → ℤ × Mutexes R
  caml_plat_mutex_init m s = let (code, v, t) = pthread_mutex_init R m s in (v, t)

  unfoldable caml_plat_mutex_free : (m : ℤ) → Mutexes R → ℤ × Mutexes R
  caml_plat_mutex_free m s = let (code, v, t) = pthread_mutex_destroy R m s in (v, t)

  pub caml_plat_lock_non_blocking_actual :
      Core → (m : ℤ) → List (Mutexes R → Mutexes R) → Mutexes R → Option (ℤ × Mutexes R)
  caml_plat_lock_non_blocking_actual c m rounds s = elim (pthread_mutex_lock R c m rounds s) [
    | none ↦ none
    | some (code, v, t) ↦ some (v, t)
  ]

  unfoldable caml_plat_wait :
      Core
      → (cond mut : ℤ) → List (Round R)
      → List (Mutexes R → Mutexes R)
      → State R
      → Option (ℤ × State R)
  caml_plat_wait c cond mut rounds tries s = elim (pthread_cond_wait R c cond mut rounds tries s) [
    | none ↦ none
    | some (code, v, t) ↦ some (v, t)
  ]

  -- A mutex that the runtime sets up while the table has a free slot excludes: when a core has
  -- locked it, which succeeds at once, a try of the other core is refused with EBUSY.
  plat_mutex_excludes :
      (c : Core) (m : ℤ) {s : Mutexes R}
      → IsSync R s
      → s.count < max_mutexes
      → let (m', s') = caml_plat_mutex_init m s in
        (t : Mutexes R) × (caml_plat_lock_non_blocking_actual c m' [] s' ≡ some (m', t))
        × IsSync R t
        × ((pthread_mutex_trylock R (other c) m' t).0 ≡ Code.ebusy)
  unfolding caml_plat_mutex_init caml_plat_lock_non_blocking_actual pthread_mutex_init
      pthread_mutex_lock lock_loop ensure_mutex_init
  plat_mutex_excludes c m {s} v room =
      let i = s.count in
      let s' = take_slot R s in
      let v' = take_slot-IsSync R v room in
      let few : (take_slot R s).counts c s.count < 255 = omega (arith, fresh c) in
      let got = attempt-got R c i v' ready (fresh (other c)) few in
      let t = (attempt R c i s').1 in
      let sync = attempt-IsSync R c i v' ready few in
      let counts = attempt-counts R c i v' ready few got in
      (
        t,
        ground (arith, room, got),
        sync,
        ap (λ k. (pthread_mutex_trylock R (other c) k t).0) named
            ∙ refused t sync (ground (arith, room, attempt-ready R c i v' ready few, ready))
                (omega (arith, counts, fresh c)),
      )
    where
      other_other :
          (c : Core) (t : Mutexes R)
          → 0 < t.counts c s.count
          → 0 < t.counts (other (other c)) s.count
      other_other Core.core0 t h = h
      other_other Core.core1 t h = h

      refused :
          (t : Mutexes R)
          → IsSync R t
          → t.ready s.count ≡ true
          → 0 < t.counts c s.count
          → (pthread_mutex_trylock R (other c) (pos s.count) t).0 ≡ Code.ebusy
      refused t sync at mine =
          let (same, kept, outcome) =
            pthread_mutex_trylock_lem R (other c) (pos s.count) s.count sync
              (ground (arith, at, room)) (omega (arith, sync.exclusive c s.count mine)) in
          elim outcome [
            | inl free ↦ absurd (omega (arith, free.0, other_other c t mine))
            | inr busy ↦ busy.1
          ]

      named : (caml_plat_mutex_init m s).0 ≡ pos s.count
      named = ground (arith, room)

      ready : (take_slot R s).ready s.count ≡ true
      ready = ground arith

      fresh : (d : Core) → (take_slot R s).counts d s.count ≡ 0
      fresh d = ground (arith, v.idle d s.count, v.filled s.count)

  -- With all the slots taken the runtime cannot tell: `caml_plat_mutex_init` of a mutex that
  -- names no slot changes nothing, and afterwards the lock by either core returns at once,
  -- holding nothing.
  pub plat_mutex_full :
      (m : ℤ) (rounds : List (Mutexes R → Mutexes R)) {s : Mutexes R}
      → s.count ≡ max_mutexes
      → index_of R m s ≡ none
      → (caml_plat_mutex_init m s ≡ (m, s))
        × ((c : Core) → caml_plat_lock_non_blocking_actual c m rounds s ≡ some (m, s))
  unfolding caml_plat_mutex_init caml_plat_lock_non_blocking_actual pthread_mutex_init
      pthread_mutex_lock ensure_mutex_init
  plat_mutex_full m rounds {s} full unnamed =
      (ground (arith, full), λ c. ground (arith, full, unnamed))

unfoldable caml_plat_cond_init : (cond : ℤ) → Condvars → ℤ × Condvars
caml_plat_cond_init cond s = let (code, v, t) = pthread_cond_init cond s in (v, t)

unfoldable caml_plat_cond_free : (cond : ℤ) → Condvars → ℤ × Condvars
caml_plat_cond_free cond s = let (code, v, t) = pthread_cond_destroy cond s in (v, t)

unfoldable caml_plat_broadcast : (cond : ℤ) → Condvars → ℤ × Condvars
caml_plat_broadcast cond s = let (code, v, t) = pthread_cond_broadcast cond s in (v, t)

unfoldable caml_plat_signal : (cond : ℤ) → Condvars → ℤ × Condvars
caml_plat_signal cond s = let (code, v, t) = pthread_cond_signal cond s in (v, t)
