-- ===== src/Threads/Cleanup.antt =====
-- `core1_wrapper`, the loop that releases the mutexes that a thread on core 1 still holds when its
-- function returns.
use pico_ocaml.Prelude.{
  ℕ, zero, suc, ◌-◌, ◌<◌, ◌≡◌, refl, sym, ap, subst, ◌∙◌, inl, inr, true, false, ◌&&◌, arith, ltb,
  ◌==◌, if◌then◌else◌, Bool-cases,
}
use pico_ocaml.Sync.Sdk.{Core, other, same_core, RecursiveMutex}
use pico_ocaml.Sync.Mutex.{max_mutexes, update, update_at, Mutexes}
use pico_ocaml.Sync.Mutex.Inv.{IsSync}

module _ (R : RecursiveMutex) where
  open R use {exit, depth, exit_own, exit_other}

  -- The body of `while (held_counts[1][i] > 0)`.
  exit_once : ℕ → Mutexes R → Mutexes R
  exit_once i s = record s {
    mtx = update s.mtx i (exit (s.mtx i));
    counts = update_at s.counts Core.core1 i (s.counts Core.core1 i - 1);
  }

  -- The loop itself, which takes as many rounds as there are holds.
  exit_all : (holds : ℕ) → ℕ → Mutexes R → Mutexes R
  exit_all zero i s = s
  exit_all (suc holds) i s = exit_all holds i (exit_once i s)

  -- The loop over the mutexes, up to number `n`.
  release_below : (n : ℕ) → Mutexes R → Mutexes R
  release_below zero s = s
  release_below (suc n) s = let s' = release_below n s in exit_all (s'.counts Core.core1 n) n s'

  pub clean_up : Mutexes R → Mutexes R
  clean_up s = record (release_below max_mutexes s) {
    held = λ c i. if same_core Core.core1 c then false else s.held c i;
  }

  -- What the loops keep true, and what they have done for the mutexes below `n`.
  record Cleaned (n : ℕ) (s s' : Mutexes R) : Type 0 where
    ready : s'.ready ≡ s.ready
    count : s'.count ≡ s.count
    mine :
        (c : Core) (i : ℕ)
        → s'.counts c i ≡ (if same_core Core.core1 c && ltb i n then 0 else s.counts c i)
    tracked : (c : Core) (i : ℕ) → s.ready i ≡ true → s'.counts c i ≡ depth c (s'.mtx i)

  -- The same for the rounds at one mutex.
  record Exited (i : ℕ) (s s' : Mutexes R) : Type 0 where
    ready : s'.ready ≡ s.ready
    count : s'.count ≡ s.count
    counts :
        (c : Core) (j : ℕ)
        → s'.counts c j ≡ (if same_core Core.core1 c && i == j then 0 else s.counts c j)
    tracked : (c : Core) (j : ℕ) → s.ready j ≡ true → s'.counts c j ≡ depth c (s'.mtx j)

  exit_once-tracked :
      (i : ℕ) (s : Mutexes R)
      → ((c : Core) (j : ℕ) → s.ready j ≡ true → s.counts c j ≡ depth c (s.mtx j))
      → 0 < s.counts Core.core1 i
      → s.ready i ≡ true
      → (c : Core) (j : ℕ) → s.ready j ≡ true
      → (exit_once i s).counts c j ≡ depth c ((exit_once i s).mtx j)
  unfolding exit_once
  exit_once-tracked i s t some_hold ready c j r =
      ground (
        arith,
        t c j,
        t Core.core1 i,
        exit_own Core.core1 (s.mtx i),
        exit_other Core.core1 (s.mtx i),
      )

  exit_all-Exited :
      (holds i : ℕ) (s : Mutexes R)
      → s.counts Core.core1 i ≡ holds
      → s.ready i ≡ true
      → ((c : Core) (j : ℕ) → s.ready j ≡ true → s.counts c j ≡ depth c (s.mtx j))
      → Exited i s (exit_all holds i s)
  unfolding exit_all exit_once
  exit_all-Exited zero i s e ready t = record {
    ready = refl;
    count = refl;
    counts = λ c j. ground (arith, e);
    tracked = t;
  }
  exit_all-Exited (suc holds) i s e ready t =
      let x =
        exit_all-Exited holds i (exit_once i s) (ground (arith, e)) ready
          (exit_once-tracked i s t (ground (arith, e)) ready) in
      record {
        ready = x.ready;
        count = x.count;
        counts = λ c j. ground (arith, x.counts c j);
        tracked = x.tracked;
      }

  exit_all-idle :
      (i : ℕ) (s : Mutexes R) → s.counts Core.core1 i ≡ 0 → exit_all (s.counts Core.core1 i) i s ≡ s
  unfolding exit_all
  exit_all-idle i s e = rw e refl

  release_below-Cleaned : (n : ℕ) {s : Mutexes R} → IsSync R s → Cleaned n s (release_below n s)
  unfolding release_below
  release_below-Cleaned zero {s} v = record {
    ready = refl;
    count = refl;
    mine = λ c i. ground arith;
    tracked = v.tracked;
  }
  release_below-Cleaned (suc n) {s} v =
      let p = release_below-Cleaned n v in
      let s' = release_below n s in
      elim (Bool-cases (s.ready n)) [
        | inl ready ↦
            let x =
              exit_all-Exited (s'.counts Core.core1 n) n s' refl (ap (λ g. g n) p.ready ∙ ready)
                (λ c j r. p.tracked c j (sym (ap (λ g. g j) p.ready) ∙ r)) in
            record {
              ready = x.ready ∙ p.ready;
              count = x.count ∙ p.count;
              mine = λ c i. ground (arith, x.counts c i, p.mine c i);
              tracked = λ c i r. x.tracked c i (ap (λ g. g i) p.ready ∙ r);
            }
        | inr unready ↦
            let same =
              exit_all-idle n s'
                (ground (arith, p.mine Core.core1 n, v.idle Core.core1 n unready)) in
            subst (Cleaned (suc n) s) (sym same) (record {
              ready = p.ready;
              count = p.count;
              mine = λ c i. ground (arith, p.mine c i, v.idle Core.core1 n unready);
              tracked = p.tracked;
            })
      ]

  -- When a thread's function returns, whatever mutexes it holds: the loops take every hold of core
  -- 1 back, in the code's counts, in its mask and in the SDK's mutexes, leave the holds of core 0 as
  -- they are, and the table stays well-formed with the same mutexes.
  pub clean_up_lem :
      {s : Mutexes R}
      → IsSync R s
      → let s' = clean_up s in
        IsSync R s'
        × (s'.ready ≡ s.ready)
        × ((i : ℕ) → (s'.counts Core.core1 i ≡ 0) × (s'.held Core.core1 i ≡ false))
        × ((i : ℕ)
            → (s'.counts Core.core0 i ≡ s.counts Core.core0 i)
              × (s'.held Core.core0 i ≡ s.held Core.core0 i))
  unfolding clean_up
  clean_up_lem {s} v =
      let p = release_below-Cleaned max_mutexes v in
      let none_left : (i : ℕ) → (clean_up s).counts Core.core1 i ≡ 0 =
        λ i. ground (arith, p.mine Core.core1 i, v.idle Core.core1 i, v.filled i, v.bounded) in
      (
        record {
          tracked = λ c i r. p.tracked c i (sym (ap (λ g. g i) p.ready) ∙ r);
          idle = λ c i r. ground (arith, p.mine c i, v.idle c i, ap (λ g. g i) p.ready);
          noted = λ c i. ground (arith, p.mine c i, v.noted c i, none_left i);
          exclusive = λ c i h. ground (arith, p.mine c i, p.mine (other c) i, v.exclusive c i);
          filled = λ i. ground (arith, v.filled i, ap (λ g. g i) p.ready, p.count);
          bounded = ground (arith, p.count, v.bounded);
        },
        p.ready,
        (λ i. (none_left i, refl)),
        (λ i. (ground (arith, p.mine Core.core0 i), refl)),
      )
