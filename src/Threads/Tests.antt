-- ===== src/Threads/Tests.antt =====
-- The theorems on threads, after one thread of core 1 and with a mutex that core 1 holds.
use pico_ocaml.Prelude.{ℕ, ◌≡◌, refl, true, false, arith}
use pico_ocaml.Sync.Sdk.Owned.{sdk}
use pico_ocaml.Sync.Mutex.{Mutexes, no_mutexes, take_slot, attempt}
use pico_ocaml.Sync.Mutex.Inv.{IsSync, no_mutexes-IsSync, take_slot-IsSync, attempt-IsSync}
use pico_ocaml.Threads.Launch.{
  Core0, Core1, Threads, boot, Main, create_odd, create_first, launch, launched, start, unfinish,
  call, finish, main, wrapper, Leads, here, later,
}
use pico_ocaml.Threads.Launch.Join.{join_before_call}
use pico_ocaml.Threads.Cleanup.{clean_up, clean_up_lem}
use pico_ocaml.Sync.Sdk.{Core}

-- The second call of `pthread_create` launches thread 7, which runs and finishes.
abbrev finished_once : Threads
finished_once = record {
  count = 2;
  entry = 7;
  started = true;
  finished = true;
  core0 = Core0.idle;
  core1 = Core1.asleep;
}

finished_once-Leads : Leads boot finished_once
finished_once-Leads =
    later
      (later
        (later
          (later
            (later
              (later
                (later (later here (main (create_odd refl refl refl)))
                  (main (create_first 7 refl refl (omega arith) refl)))
                (main (launch refl refl)))
              (wrapper (start refl refl)))
            (main (launched refl refl refl)))
          (wrapper (unfinish refl refl)))
        (wrapper (call refl refl)))
      (wrapper (finish 7 refl refl))

join_before_call_example :
    (joins returns : Threads) × Leads finished_once joins
    × Main joins returns
    × (joins.core0 ≡ Core0.joining)
    × (returns.core0 ≡ Core0.idle)
    × (returns.entry ≡ 9)
    × (returns.core1 ≡ Core1.marking)
join_before_call_example =
    join_before_call 9 finished_once refl refl refl (omega arith) (omega arith)

-- Core 1 holds mutex 0 when its thread's function returns.
abbrev left_held : Mutexes sdk
left_held = (attempt sdk Core.core1 0 (take_slot sdk (no_mutexes sdk))).1

left_held-IsSync : IsSync sdk left_held
left_held-IsSync =
    attempt-IsSync sdk Core.core1 0 (take_slot-IsSync sdk (no_mutexes-IsSync sdk) (omega arith))
      refl (omega arith)

clean_up_lem_example :
    let s' = clean_up sdk left_held in
    IsSync sdk s'
    × (s'.ready ≡ left_held.ready)
    × ((i : ℕ) → (s'.counts Core.core1 i ≡ 0) × (s'.held Core.core1 i ≡ false))
    × ((i : ℕ)
        → (s'.counts Core.core0 i ≡ left_held.counts Core.core0 i)
          × (s'.held Core.core0 i ≡ left_held.held Core.core0 i))
clean_up_lem_example = clean_up_lem sdk left_held-IsSync
