-- ===== src/Sync/Mutex/System.antt =====
-- The two cores at work on the table: set-ups, one at a time, and locks, tries and unlocks by
-- whoever holds the mutex, in any order of their steps.
use pico_ocaml.Prelude.{ℕ, ◌<◌, ◌≡◌, ◌≢◌, true, false, ◌⊎◌, inl, inr, arith}
use pico_ocaml.Sync.Sdk.{Core, other, RecursiveMutex}
use pico_ocaml.Sync.Mutex.Steps.{Place, System, Step, Reach}
use pico_ocaml.Sync.Mutex.Places.{leaving-cases, not_leaving, not_entered}
use pico_ocaml.Sync.Mutex.Invariant.{IsSystem}
use pico_ocaml.Sync.Mutex.Preserved.{
  start-IsSystem, tests-IsSystem, loads-IsSystem, stores-IsSystem, clears-IsSystem,
  readies-IsSystem, enters-IsSystem, notes-IsSystem, exits-IsSystem, strikes-IsSystem,
}

module _ (R : RecursiveMutex) where
  open R use {
    Mutex, init, try_enter, exit, depth, init_free, enter_got, enter_deeper, enter_busy,
    enter_busy_same, enter_other, exit_own, exit_other,
  }

  Step-IsSystem : (c : Core) {s t : System R} → Step R s c t → IsSystem R s → IsSystem R t
  Step-IsSystem c (Step.tests a free few e) v = rw e (tests-IsSystem R c v a free few)
  Step-IsSystem c (Step.loads a e) v = rw e (loads-IsSystem R c v a)
  Step-IsSystem c (Step.stores i a e) v = rw e (stores-IsSystem R c v i a)
  Step-IsSystem c (Step.clears i a e) v = rw e (clears-IsSystem R c v i a)
  Step-IsSystem c (Step.readies i a e) v = rw e (readies-IsSystem R c v i a)
  Step-IsSystem c (Step.enters i a ready few e) v = rw e (enters-IsSystem R c v i a ready few)
  Step-IsSystem c (Step.notes i a e) v = rw e (notes-IsSystem R c v i a)
  Step-IsSystem c (Step.exits i a ready mine e) v = rw e (exits-IsSystem R c v i a ready mine)
  Step-IsSystem c (Step.strikes i a e) v = rw e (strikes-IsSystem R c v i a)

  Reach-IsSystem : {s : System R} → Reach R s → IsSystem R s
  Reach-IsSystem Reach.start = start-IsSystem R
  Reach-IsSystem (Reach.later c r st) = Step-IsSystem c st (Reach-IsSystem r)

  -- In every state that steps of the two cores lead to, with no set-up begun while the other core
  -- is at one, no unlock by a core that does not hold the mutex and no mutex entered more than
  -- 255 times: a core that holds a mutex by its counts, and is not between leaving it and
  -- striking off the hold, is inside the SDK's mutex; and the other is not inside it, nor between
  -- entering it and noting the hold, and by the counts and the mask it does not hold it either,
  -- unless it is between leaving it and striking off the hold.
  pub mutual_exclusion :
      {s : System R}
      → Reach R s
      → (c : Core) (i : ℕ) → 0 < s.table.counts c i
      → s.at c ≢ Place.exited i
      → (0 < depth c (s.table.mtx i))
        × (depth (other c) (s.table.mtx i) ≡ 0)
        × (s.at (other c) ≢ Place.entered i)
        × ((s.at (other c) ≡ Place.exited i)
            ⊎ ((s.table.counts (other c) i ≡ 0) × (s.table.held (other c) i ≡ false)))
  mutual_exclusion {s} r c i mine stays =
      let v = Reach-IsSystem r in
      let ready : s.table.ready i ≡ true = ground (arith, v.idle c i, mine) in
      let own = v.tracked c i ready in
      let others = v.tracked (other c) i ready in
      let inside : 0 < depth c (s.table.mtx i) =
        omega (arith, own, not_leaving (s.at c) i stays, mine) in
      let free = v.exclusive c i ready inside in
      elim (leaving-cases (s.at (other c)) i) [
        | inl leaves ↦ (inside, free, not_entered _ i _ _ others free, inl leaves)
        | inr none ↦
            let idle : s.table.counts (other c) i ≡ 0 = omega (arith, others, none, free) in
            (
              inside,
              free,
              not_entered _ i _ _ others free,
              inr (idle, ground (arith, v.noted (other c) i, idle)),
            )
      ]
