-- ===== src/Sync/Mutex/Tests.antt =====
-- The theorems on the table of mutexes, with one mutex set up.
use pico_ocaml.Prelude.{◌+◌, ◌≡◌, ◌<◌, ◌≢◌, ◌⊎◌, refl, true, false, some, arith, ltb}
use pico_ocaml.Prelude.Int.{pos}
use pico_ocaml.Sync.Sdk.{Core}
use pico_ocaml.Sync.Sdk.Owned.{sdk, depth_sdk}
use pico_ocaml.Sync.Mutex.{Mutexes, no_mutexes, take_slot, ensure_mutex_init, attempt}
use pico_ocaml.Sync.Mutex.Static.{initializer_stubs, initializer_pthread, static_mutexes}
use pico_ocaml.Sync.Mutex.Inv.{IsSync, no_mutexes-IsSync, take_slot-IsSync, attempt-IsSync}
use pico_ocaml.Sync.Mutex.Race.{Init, Table, Leads, pthread_mutex_init_race}
use pico_ocaml.Sync.Mutex.Steps.{
  Place, System, Step, Reach, start, later, move, load_count, store_count, clear_at, ready_at,
  enter_at, note_at, at_start,
}
use pico_ocaml.Sync.Mutex.System.{mutual_exclusion}

-- Mutex 0 is set up; core 0 holds it once in `one_held`.
abbrev one_mutex : Mutexes sdk
one_mutex = take_slot sdk (no_mutexes sdk)

one_mutex-IsSync : IsSync sdk one_mutex
one_mutex-IsSync = take_slot-IsSync sdk (no_mutexes-IsSync sdk) (omega arith)

abbrev one_held : Mutexes sdk
one_held = (attempt sdk Core.core0 0 one_mutex).1

one_held-IsSync : IsSync sdk one_held
one_held-IsSync = attempt-IsSync sdk Core.core0 0 one_mutex-IsSync refl (omega arith)

held_busy : (one_held.counts Core.core0 0 ≡ 1) × (one_held.counts Core.core1 0 ≡ 0)
unfolding attempt
held_busy = (refl, refl)

-- Core 0 sets up mutex 0 and locks it, and core 1 has tried it in vain.
abbrev slot_ready : System sdk
slot_ready = ready_at sdk Core.core0 0 (
    clear_at sdk Core.core0 0 (
      store_count sdk Core.core0 0
        (load_count sdk Core.core0 (move sdk Core.core0 Place.tested (at_start sdk)))))

slot_ready-Reach : Reach sdk slot_ready
slot_ready-Reach =
    later Core.core0
      (later Core.core0
        (later Core.core0
          (later Core.core0 (later Core.core0 start (Step.tests refl refl (omega arith) refl))
            (Step.loads refl refl))
          (Step.stores 0 refl refl))
        (Step.clears 0 refl refl))
      (Step.readies 0 refl refl)

abbrev locked_once : System sdk
locked_once =
    enter_at sdk Core.core1 0 (note_at sdk Core.core0 0 (enter_at sdk Core.core0 0 slot_ready))

locked_once-Reach : Reach sdk locked_once
locked_once-Reach =
    later Core.core1
      (later Core.core0
        (later Core.core0 slot_ready-Reach (Step.enters 0 refl refl (omega arith) refl))
        (Step.notes 0 refl refl))
      (Step.enters 0 refl refl (omega arith) refl)

mutual_exclusion_example :
    (0 < depth_sdk Core.core0 (locked_once.table.mtx 0))
    × (depth_sdk Core.core1 (locked_once.table.mtx 0) ≡ 0)
    × (locked_once.at Core.core1 ≢ Place.entered 0)
    × ((locked_once.at Core.core1 ≡ Place.exited 0)
        ⊎ ((locked_once.table.counts Core.core1 0 ≡ 0)
            × (locked_once.table.held Core.core1 0 ≡ false)))
mutual_exclusion_example =
    mutual_exclusion sdk locked_once-Reach Core.core0 0 (omega arith) (λ e. cc (e))

-- Both cores are outside, and one slot of the table is free.
abbrev last_slot : Table
last_slot = record { count = 63; ready = λ i. ltb i 63; at = λ c. Init.outside }

pthread_mutex_init_race_example :
    ((t : Table) × Leads last_slot t
      × (t.at Core.core0 ≡ Init.returned 63)
      × (t.at Core.core1 ≡ Init.returned 63)
      × (t.count ≡ 63 + 1))
    × ((t : Table) × Leads last_slot t
        × (t.at Core.core0 ≡ Init.returned 63)
        × (t.at Core.core1 ≡ Init.returned (63 + 1))
        × (t.ready (63 + 1) ≡ true))
pthread_mutex_init_race_example = pthread_mutex_init_race last_slot (λ c. refl) (omega arith)

static_mutexes_example :
    (let (i, m, s') = ensure_mutex_init sdk initializer_stubs one_mutex in
      let (j, m', s'') = ensure_mutex_init sdk initializer_stubs s' in
      (i ≡ some 1) × (j ≡ some (1 + 1)) × (m ≡ pos 1) × (m' ≡ pos (1 + 1)))
    × (let (i, m, s') = ensure_mutex_init sdk initializer_pthread one_mutex in
        let (j, m', s'') = ensure_mutex_init sdk initializer_pthread s' in
        (i ≡ some 0) × (j ≡ some 0) × (s' ≡ one_mutex) × (s'' ≡ one_mutex))
static_mutexes_example = static_mutexes sdk one_mutex one_mutex-IsSync (omega arith) (omega arith)
