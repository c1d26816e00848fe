-- ===== src/Sync/Condvar/Tests.antt =====
-- The theorems on condition variables at two threads that wait.
use pico_ocaml.Prelude.{◌<◌, ◌≡◌, refl, ap, ◌∙◌, true, some, [], ◌∷◌, arith}
use pico_ocaml.Prelude.Int.{pos}
use pico_ocaml.Sync.Sdk.{Core}
use pico_ocaml.Sync.Sdk.Owned.{sdk}
use pico_ocaml.Sync.Mutex.Inv.{IsSync, no_mutexes-IsSync, take_slot-IsSync, attempt-IsSync}
use pico_ocaml.Sync.Mutex.Lock.{waited}
use pico_ocaml.Sync.Condvar.Wait.{Without, after_rounds, released, pthread_cond_wait_lem}
use pico_ocaml.Threads.Cleanup.{clean_up, clean_up_lem}
use pico_ocaml.Sync.Mutex.{update, Code, Mutexes, index_of, no_mutexes, take_slot, attempt}
use pico_ocaml.Sync.Condvar.{
  State, Round, take_entry, pthread_cond_wait, no_condvars, register_at, is_woken, signal_at,
  broadcast_at,
}
use pico_ocaml.Sync.Condvar.Waiters.{
  waiting, away, System, Reach, here, later, registers, no_lost_wakeup,
}

abbrev one_waits : System
one_waits = record {
  table = (register_at 0 no_condvars).1;
  threads = update (λ i. away) 0 (waiting (register_at 0 no_condvars).0 0);
  passed = 0;
}

abbrev two_wait : System
two_wait = record {
  table = (register_at 0 one_waits.table).1;
  threads = update one_waits.threads 1 (waiting (register_at 0 one_waits.table).0 0);
  passed = 0;
}

two_wait-Reach : Reach 0 3 two_wait
two_wait-Reach =
    later (later here (registers 0 (omega arith) refl refl)) (registers 1 (omega arith) refl refl)

noted_zero : two_wait.threads 1 ≡ waiting 0 0
unfolding register_at
noted_zero = refl

no_lost_wakeup_example :
    (is_woken 0 0 (signal_at 0 two_wait.table) ≡ true)
    × (is_woken 0 0 (broadcast_at 0 two_wait.table) ≡ true)
no_lost_wakeup_example =
    no_lost_wakeup 0 3 (omega arith) two_wait-Reach 1 0 0 (omega arith) noted_zero (omega arith)

-- Core 0 holds mutex 0 and waits with it at entry 0; core 1 signals. Then core 1 may hold the mutex
-- when core 0 tries to take it again, until its thread ends.
abbrev held_waiting : State sdk
held_waiting = record {
  mutexes = (attempt sdk Core.core0 0 (take_slot sdk (no_mutexes sdk))).1;
  condvars = take_entry no_condvars;
}

held_waiting-IsSync : IsSync sdk held_waiting.mutexes
held_waiting-IsSync =
    attempt-IsSync sdk Core.core0 0 (take_slot-IsSync sdk (no_mutexes-IsSync sdk) (omega arith))
      refl (omega arith)

abbrev signals_once : Round sdk
signals_once s = record s { condvars = signal_at 0 s.condvars }

held_waiting_lem :
    (index_of sdk (pos 0) held_waiting.mutexes ≡ some 0)
    × (held_waiting.mutexes.counts Core.core0 0 ≡ 1)
    × (is_woken 0
          (register_at 0 held_waiting.condvars).0
          (after_rounds sdk Core.core0 0
            (signals_once ∷ [])
            (released sdk Core.core0 0 0 held_waiting)).condvars
        ≡ true)
unfolding attempt is_woken register_at signal_at
held_waiting_lem = (refl, refl, refl)

thread_ends :
    (s : Mutexes sdk)
    → IsSync sdk s
    → s.ready 0 ≡ true
    → IsSync sdk (clean_up sdk s)
      × ((clean_up sdk s).ready 0 ≡ true)
      × ((clean_up sdk s).counts Core.core0 0 ≡ s.counts Core.core0 0)
thread_ends s v r =
    let (v', ready, gone, same) = clean_up_lem sdk v in (v', ap (λ g. g 0) ready ∙ r, (same 0).0)

frees_mutex :
    (s : Mutexes sdk)
    → Without sdk Core.core0 0 s
    → (waited sdk Core.core0 0 (clean_up sdk ∷ []) s).counts Core.core1 0 ≡ 0
frees_mutex s w =
    let (v', ready, gone, same) =
      clean_up_lem sdk (attempt-IsSync sdk Core.core0 0 w.sync w.ready (omega (arith, w.free))) in
    (gone 0).0

pthread_cond_wait_lem_example :
    (s' : State sdk) × (pthread_cond_wait sdk Core.core0
        (pos 0)
        (pos 0)
        (signals_once ∷ [])
        (clean_up sdk ∷ [])
        held_waiting
      ≡ some (Code.success, pos 0, s'))
    × IsSync sdk s'.mutexes
    × (0 < s'.mutexes.counts Core.core0 0)
    × (s'.mutexes.counts Core.core1 0 ≡ 0)
pthread_cond_wait_lem_example =
    pthread_cond_wait_lem sdk Core.core0 0 (pos 0) (pos 0) 0 (signals_once ∷ []) (clean_up sdk ∷ [])
      held_waiting held_waiting-IsSync refl held_waiting_lem.0 held_waiting_lem.1 ((λ s w. w), tt)
      held_waiting_lem.2 (thread_ends, tt) frees_mutex
