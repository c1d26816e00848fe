-- ===== src/Threads/Launch/Join.antt =====
-- When `pthread_join` comes back.
use pico_ocaml.Prelude.{ℕ, ◌+◌, ◌%◌, ◌≤◌, ◌≡◌, refl, true, false, arith}
use pico_ocaml.Threads.Launch.{
  Core0, Core1, Threads, boot, Main, create_odd, create_first, create_next, waited, launch,
  launched, join, joined, start, unfinish, call, finish, Step, main, wrapper, Leads, here, later,
}

-- Core 1 may call a function, or calls one.
abbrev pub IsBusy : Core1 → Type 0
IsBusy Core1.calling = Unit {0}
IsBusy (Core1.running f) = Unit {0}
IsBusy _ = ⊥

abbrev Honest : Threads → Type 0
Honest s = IsBusy s.core1 → s.finished ≡ false

Step-Honest : {s t : Threads} → Step s t → Honest s → Honest t
Step-Honest (main (create_odd a b q)) h = rw q h
Step-Honest (main (create_first f a b c q)) h = rw q h
Step-Honest (main (create_next f a b c q)) h = rw q h
Step-Honest (main (waited a b q)) h = rw q h
Step-Honest (main (launch a q)) h = rw q (λ b. absurd b)
Step-Honest (main (launched a b q)) h = rw q h
Step-Honest (main (join a q)) h = rw q h
Step-Honest (main (joined a b q)) h = rw q h
Step-Honest (wrapper (start a q)) h = rw q (λ b. absurd b)
Step-Honest (wrapper (unfinish a q)) h = rw q (λ b. refl)
Step-Honest {s} (wrapper (call a q)) h = rw q (λ b. h (rw a tt))
Step-Honest (wrapper (finish f a q)) h = rw q (λ b. absurd b)

Leads-Honest : {s t : Threads} → Leads s t → Honest s → Honest t
Leads-Honest here h = h
Leads-Honest (later r st) h = Step-Honest st (Leads-Honest r h)

-- In every reachable state in which `core1_finished` is set, so that `pthread_join` comes back and
-- `pthread_create` goes on to reset core 1, core 1 neither runs a thread's function or the
-- clean-up after it nor is about to read which function to call.
pub finished_not-IsBusy : {s : Threads} → Leads boot s → s.finished ≡ true → ¬ (IsBusy s.core1)
finished_not-IsBusy r e busy = ground (arith, e, Leads-Honest r (λ b. absurd b) busy)

-- When core 0 is idle, core 1 has finished a thread, and an even number of calls of `pthread_create`,
-- at least two, has been made: two more calls, of which the second launches a thread `f`, and a
-- `pthread_join` after them can all come back before core 1 calls `f`. Core 1 sets `core1_started`
-- before it clears `core1_finished`.
pub join_before_call :
    (f : ℕ) (s : Threads)
    → s.core0 ≡ Core0.idle
    → s.core1 ≡ Core1.asleep
    → s.finished ≡ true
    → 2 ≤ s.count
    → s.count % 2 ≡ 0
    → (joins returns : Threads) × Leads s joins
      × Main joins returns
      × (joins.core0 ≡ Core0.joining)
      × (returns.core0 ≡ Core0.idle)
      × (returns.entry ≡ f)
      × (returns.core1 ≡ Core1.marking)
join_before_call f s i a e two even = (
  record after { core0 = Core0.joining },
  record after { core0 = Core0.idle },
  later
      (later
        (later
          (later
            (later
              (later (later here (main (create_odd i (omega arith) refl)))
                (main (create_next f i (omega arith) (omega arith) refl)))
              (main (waited refl e refl)))
            (main (launch refl refl)))
          (wrapper (start refl refl)))
        (main (launched refl refl refl)))
      (main (join refl refl)),
  joined refl e refl,
  refl,
  refl,
  refl,
  refl,
)
  where
    after : Threads
    after = record s {
      count = s.count + 1 + 1;
      entry = f;
      started = true;
      core0 = Core0.idle;
      core1 = Core1.marking;
    }
