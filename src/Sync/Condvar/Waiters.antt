-- ===== src/Sync/Condvar/Waiters.antt =====
-- Many threads at one condition variable, each step one locked section or one look at the
-- generation, in any order: no wake-up is lost, and none comes from nothing.
use pico_ocaml.Prelude.{
  ℕ, zero, suc, ◌+◌, ◌%◌, ◌^◌, ◌≤◌, ◌<◌, ◌≡◌, refl, sym, subst, ◌↔◌, inl, inr, true, arith, ltb,
  ◌==◌, if◌then◌else◌, Bool-cases,
}
use pico_ocaml.Sync.Mutex.{update}
use pico_ocaml.Sync.Condvar.{
  Condvars, no_condvars, signal_at, broadcast_at, register_at, is_woken, unregister_at,
}

-- A thread, with the generation that it noted; `since` is history, the number of generations that
-- had passed when it did.
pub data Thread : Type 0 where
  away : Thread
  waiting : (my_gen since : ℕ) → Thread

abbrev weight : Thread → ℕ
weight away = 0
weight (waiting g k) = 1

-- how many of the first `n` threads wait
pub crowd : ℕ → (ℕ → Thread) → ℕ
crowd zero f = 0
crowd (suc n) f = crowd n f + weight (f n)

crowd-update_above :
    (n i : ℕ) (f : ℕ → Thread) (p : Thread) → n ≤ i → crowd n (update f i p) ≡ crowd n f
unfolding crowd
crowd-update_above zero i f p h = refl
crowd-update_above (suc n) i f p h = ground (arith, crowd-update_above n i f p)

crowd-update :
    (n i : ℕ) (f : ℕ → Thread) (p : Thread)
    → i < n
    → crowd n (update f i p) + weight (f i) ≡ crowd n f + weight p
unfolding crowd
crowd-update zero i f p h = absurd (omega arith)
crowd-update (suc n) i f p h = elim (Bool-cases (i == n)) [
  | inl last ↦ ground (arith, crowd-update_above n i f p)
  | inr below ↦ ground (arith, crowd-update n i f p)
]

crowd-le : (n : ℕ) (f : ℕ → Thread) → crowd n f ≤ n
unfolding crowd
crowd-le zero f = omega arith
crowd-le (suc n) f = ground (arith, crowd-le n f)

crowd_pos : (n i : ℕ) (f : ℕ → Thread) (g k : ℕ) → i < n → f i ≡ waiting g k → 0 < crowd n f
unfolding crowd
crowd_pos zero i f g k h e = absurd (omega arith)
crowd_pos (suc n) i f g k h e = ground (arith, crowd_pos n i f g k)

-- `passed` is history: how many times the generation was moved on.
pub record System : Type 0 where
  pub table : Condvars
  pub threads : ℕ → Thread
  pub passed : ℕ

-- Entry `e`, and `n` threads that may wait at it.
module _ (e n : ℕ) where
  pub data Step (s : System) : System → Type 0 where
    registers :
        (i : ℕ) {t : System}
        → i < n
        → s.threads i ≡ away
        → t ≡ record s {
          table = (register_at e s.table).1;
          threads = update s.threads i (waiting (register_at e s.table).0 s.passed);
        }
        → Step s t
    wakes :
        (i g k : ℕ) {t : System}
        → i < n
        → s.threads i ≡ waiting g k
        → is_woken e g s.table ≡ true
        → t ≡ record s { table = unregister_at e s.table; threads = update s.threads i away }
        → Step s t
    signals :
        {t : System}
        → t ≡ record s {
          table = signal_at e s.table;
          passed = if ltb 0 (s.table.waiters e) then s.passed + 1 else s.passed;
        }
        → Step s t
    broadcasts :
        {t : System}
        → t ≡ record s { table = broadcast_at e s.table; passed = s.passed + 1 }
        → Step s t

  abbrev pub start : System
  start = record { table = no_condvars; threads = λ i. away; passed = 0 }

  pub data Reach : System → Type 0 where
    here : Reach start
    later : {s t : System} → Reach s → Step s t → Reach t

  abbrev Noted : System → Thread → Type 0
  Noted s away = Unit {0}
  Noted s (waiting g k) = (g ≡ k % 2 ^ 32) × (k ≤ s.passed)

  pub record Inv (s : System) : Type 0 where
    pub counted : s.table.waiters e ≡ crowd n s.threads
    pub moved : s.table.generation e ≡ s.passed % 2 ^ 32
    pub noted : (i : ℕ) → Noted s (s.threads i)

  crowd_none : (m : ℕ) → crowd m (λ i. away) ≡ 0
  unfolding crowd
  crowd_none zero = refl
  crowd_none (suc m) = omega (arith, crowd_none m)

  Inv-start : Inv start
  Inv-start = record { counted = sym (crowd_none n); moved = refl; noted = λ i. tt }

  module _ (few : n < 2 ^ 31) where
    Step-Inv : {s t : System} → Step s t → Inv s → Inv t
    unfolding register_at unregister_at signal_at broadcast_at
    Step-Inv {s} (registers i lt a q) v = rw q (record {
      counted = ground (
        arith,
        v.counted,
        crowd-update n i s.threads (waiting (s.table.generation e) s.passed),
        crowd-le n s.threads,
      );
      moved = v.moved;
      noted = λ j. ground (arith, v.noted j, v.moved);
    })
    Step-Inv {s} (wakes i g k lt w woken q) v = rw q (record {
      counted = ground (arith, v.counted, crowd-update n i s.threads away, crowd-le n s.threads);
      moved = v.moved;
      noted = λ j. ground (arith, v.noted j);
    })
    Step-Inv {s} (signals q) v = rw q (record {
      counted = ground (arith, v.counted);
      moved = ground (arith, v.moved, v.counted, crowd-le n s.threads);
      noted = λ j. ground (arith, v.noted j);
    })
    Step-Inv {s} (broadcasts q) v = rw q (record {
      counted = v.counted;
      moved = ground (arith, v.moved);
      noted = λ j. ground (arith, v.noted j);
    })

    pub Reach-Inv : {s : System} → Reach s → Inv s
    Reach-Inv here = Inv-start
    Reach-Inv (later r st) = Step-Inv st (Reach-Inv r)

    -- With fewer than 2 ^ 31 threads, in every reachable state the counter of waiters is the number
    -- of threads that wait.
    pub waiters_counted : {s : System} → Reach s → s.table.waiters e ≡ crowd n s.threads
    waiters_counted r = (Reach-Inv r).counted

    -- With fewer than 2 ^ 31 threads, a thread that waits in a reachable state finds the generation
    -- changed exactly if a generation has passed since it noted its own: it is not woken before,
    -- and it stays woken until 2 ^ 32 generations have passed.
    pub woken_iff_passed :
        {s : System}
        → Reach s
        → (i g k : ℕ) → s.threads i ≡ waiting g k
        → s.passed < k + 2 ^ 32
        → (is_woken e g s.table ≡ true) ↔ (k < s.passed)
    unfolding is_woken
    woken_iff_passed {s} r i g k w few_passed =
        (λ woken. ground (arith, facts, v.moved), λ passed. ground (arith, facts, v.moved))
      where
        v : Inv s
        v = Reach-Inv r

        facts : Noted s (waiting g k)
        facts = subst (Noted s) w (v.noted i)

    -- No wake-up is lost, with fewer than 2 ^ 31 threads: when `pthread_cond_signal` runs in a
    -- reachable state, or a broadcast does, every thread that waits then finds the generation
    -- changed at its next look, if fewer than 2 ^ 32 - 1 generations have passed since it noted its
    -- own.
    pub no_lost_wakeup :
        {s : System}
        → Reach s
        → (i g k : ℕ) → i < n
        → s.threads i ≡ waiting g k
        → s.passed + 1 < k + 2 ^ 32
        → (is_woken e g (signal_at e s.table) ≡ true)
          × (is_woken e g (broadcast_at e s.table) ≡ true)
    unfolding is_woken signal_at broadcast_at
    no_lost_wakeup {s} r i g k lt w few_passed = (
      ground (
        arith,
        facts,
        v.moved,
        v.counted,
        crowd_pos n i s.threads g k lt w,
        crowd-le n s.threads,
      ),
      ground (arith, facts, v.moved),
    )
      where
        v : Inv s
        v = Reach-Inv r

        facts : Noted s (waiting g k)
        facts = subst (Noted s) w (v.noted i)
