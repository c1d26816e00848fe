-- ===== src/Sync/Mutex/Inv.antt =====
-- What the table of mutexes keeps true: the counts that the code keeps for each core are the depths
-- of the SDK's mutexes, the bit mask agrees with them, and no mutex is held by both cores.
use pico_ocaml.Prelude.{
  ℕ, ◌+◌, ◌-◌, ◌≤◌, ◌<◌, ◌≡◌, refl, true, false, ◌&&◌, arith, ltb, if◌then◌else◌,
}
use pico_ocaml.Sync.Sdk.{Core, other, same_core, RecursiveMutex}
use pico_ocaml.Sync.Mutex.{max_mutexes, Mutexes, no_mutexes, take_slot, attempt, release}

module _ (R : RecursiveMutex) where
  open R use {
    Mutex, init, try_enter, exit, depth, init_free, enter_got, enter_deeper, enter_busy,
    enter_busy_same, enter_other, exit_own, exit_other,
  }

  pub record IsSync (s : Mutexes R) : Type 0 where
    pub tracked : (c : Core) (i : ℕ) → s.ready i ≡ true → s.counts c i ≡ depth c (s.mtx i)
    pub idle : (c : Core) (i : ℕ) → s.ready i ≡ false → s.counts c i ≡ 0
    pub noted : (c : Core) (i : ℕ) → s.held c i ≡ ltb 0 (s.counts c i)
    pub exclusive : (c : Core) (i : ℕ) → 0 < s.counts c i → s.counts (other c) i ≡ 0
    pub filled : (i : ℕ) → s.ready i ≡ ltb i s.count
    pub bounded : s.count ≤ max_mutexes

  pub no_mutexes-IsSync : IsSync (no_mutexes R)
  no_mutexes-IsSync = record {
    tracked = λ c i h. cc;
    idle = λ c i h. refl;
    noted = λ c i. refl;
    exclusive = λ c i h. refl;
    filled = λ i. ground arith;
    bounded = omega arith;
  }

  pub take_slot-IsSync : {s : Mutexes R} → IsSync s → s.count < max_mutexes → IsSync (take_slot R s)
  take_slot-IsSync {s} v room = record {
    tracked = λ c i h. ground (arith, v.tracked c i, v.idle c i, v.filled i, init_free c);
    idle = λ c i h. ground (arith, v.idle c i);
    noted = v.noted;
    exclusive = v.exclusive;
    filled = λ i. ground (arith, v.filled i);
    bounded = omega arith;
  }

  module _ (c : Core) (i : ℕ) {s : Mutexes R} (v : IsSync s) (ready : s.ready i ≡ true) where
    -- A try for a mutex that the other core does not hold succeeds.
    pub attempt-got : s.counts (other c) i ≡ 0 → s.counts c i < 255 → (attempt R c i s).0 ≡ true
    unfolding attempt
    attempt-got free few =
        ground (arith, v.tracked c i, v.tracked (other c) i, enter_got c (s.mtx i))

    -- A try for a mutex that the other core holds fails and changes no count.
    pub attempt-busy :
        0 < s.counts (other c) i
        → ((attempt R c i s).0 ≡ false) × ((attempt R c i s).1.counts ≡ s.counts)
    unfolding attempt
    attempt-busy busy = ground (arith, v.tracked (other c) i, enter_busy c (s.mtx i))

    module _ (few : s.counts c i < 255) where
      enter_tracked :
          (d : Core)
          → s.counts d i + (if same_core c d && (try_enter c (s.mtx i)).0 then 1 else 0)
            ≡ depth d (try_enter c (s.mtx i)).1
      enter_tracked d = ground (
        arith,
        v.tracked d i,
        v.tracked (other c) i,
        v.tracked c i,
        v.exclusive c i,
        v.exclusive (other c) i,
        enter_got c (s.mtx i),
        enter_deeper c (s.mtx i),
        enter_busy c (s.mtx i),
        enter_busy_same c d (s.mtx i),
        enter_other c (s.mtx i),
      )

      attempt-exclusive :
          (d : Core) (j : ℕ)
          → 0 < (attempt R c i s).1.counts d j
          → (attempt R c i s).1.counts (other d) j ≡ 0
      unfolding attempt
      attempt-exclusive d j h =
          ground (arith, v.exclusive d j, v.tracked (other c) i, enter_busy c (s.mtx i))

      pub attempt-IsSync : IsSync (attempt R c i s).1
      unfolding attempt
      attempt-IsSync = record {
        tracked = λ d j h. ground (arith, v.tracked d j, enter_tracked d);
        idle = λ d j h. ground (arith, v.idle d j);
        noted = λ d j. ground (arith, v.noted d j);
        exclusive = attempt-exclusive;
        filled = λ j. ground (arith, v.filled j);
        bounded = ground (arith, v.bounded);
      }

      pub attempt-ready : (attempt R c i s).1.ready ≡ s.ready
      unfolding attempt
      attempt-ready = ground arith

      pub attempt-counts :
          (attempt R c i s).0 ≡ true → (attempt R c i s).1.counts c i ≡ s.counts c i + 1
      unfolding attempt
      attempt-counts got = ground arith

    pub attempt-failed : (attempt R c i s).0 ≡ false → (attempt R c i s).1.counts ≡ s.counts
    unfolding attempt
    attempt-failed failed = ground arith

    module _ (mine : 0 < s.counts c i) where
      exit_tracked :
          (d : Core)
          → (if same_core c d then s.counts d i - 1 else s.counts d i) ≡ depth d (exit (s.mtx i))
      exit_tracked d =
          ground (arith, v.tracked d i, v.tracked c i, exit_own c (s.mtx i), exit_other c (s.mtx i))

      release-exclusive :
          (d : Core) (j : ℕ)
          → 0 < (release R c i s).counts d j
          → (release R c i s).counts (other d) j ≡ 0
      unfolding release
      release-exclusive d j h = ground (arith, v.exclusive d j)

      release-noted :
          (d : Core) (j : ℕ) → (release R c i s).held d j ≡ ltb 0 ((release R c i s).counts d j)
      unfolding release
      release-noted d j = ground (arith, v.noted d j)

      pub release-IsSync : IsSync (release R c i s)
      unfolding release
      release-IsSync = record {
        tracked = λ d j h. ground (arith, v.tracked d j, exit_tracked d);
        idle = λ d j h. ground (arith, v.idle d j);
        noted = release-noted;
        exclusive = release-exclusive;
        filled = λ j. ground (arith, v.filled j);
        bounded = ground (arith, v.bounded);
      }
