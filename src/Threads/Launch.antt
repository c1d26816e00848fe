-- ===== src/Threads/Launch.antt =====
-- ocaml_stubs.c, `pthread_create`, `core1_wrapper` and `pthread_join`: core 0 creates and joins
-- threads, core 1 runs one at a time; each access to a shared variable is a step, in any order.
pub mod Join
use pico_ocaml.Prelude.{ℕ, ◌+◌, ◌%◌, ◌<◌, ◌≤◌, ◌≡◌, Bool, true, false, suc}

-- Where core 0 stands in `pthread_create` or `pthread_join`.
pub data Core0 : Type 0 where
  idle : Core0
  waiting : Core0  -- `while (!core1_finished)` of `pthread_create`
  launching : Core0  -- before the reset, if any, and the launch
  spinning : Core0  -- `while (!core1_started)`
  joining : Core0  -- `while (!core1_finished)` of `pthread_join`

-- Where core 1 stands in `core1_wrapper`.
pub data Core1 : Type 0 where
  off : Core1
  entered : Core1  -- before `core1_started = 1`
  marking : Core1  -- before `core1_finished = 0`
  calling : Core1  -- before it reads `core1_entry_func` and `core1_entry_arg`
  running : (entry : ℕ) → Core1  -- in the thread's function, or the clean-up after it
  asleep : Core1  -- `while(1) __wfi()`, after `core1_finished = 1`

-- `pthread_create_count`; `core1_entry_func` with its argument, as a number that stands for the
-- two; `core1_started`; `core1_finished`.
pub record Threads : Type 0 where
  pub count : ℕ
  pub entry : ℕ
  pub started : Bool
  pub finished : Bool
  pub core0 : Core0
  pub core1 : Core1

abbrev pub boot : Threads
boot = record {
  count = 0;
  entry = 0;
  started = false;
  finished = false;
  core0 = Core0.idle;
  core1 = Core1.off;
}

-- What an even call does first. The count is an `int` that does not overflow.
abbrev set_entry : ℕ → Threads → Threads
set_entry f s = record s { count = s.count + 1; entry = f; started = false }

-- A step of core 0.
pub data Main (s : Threads) : Threads → Type 0 where
  create_odd :
      {t : Threads}
      → s.core0 ≡ Core0.idle
      → (s.count + 1) % 2 ≡ 1
      → t ≡ record s { count = s.count + 1 }
      → Main s t
  create_first :
      (f : ℕ) {t : Threads}
      → s.core0 ≡ Core0.idle
      → (s.count + 1) % 2 ≡ 0
      → s.count + 1 ≤ 2
      → t ≡ record (set_entry f s) { core0 = Core0.launching }
      → Main s t
  create_next :
      (f : ℕ) {t : Threads}
      → s.core0 ≡ Core0.idle
      → (s.count + 1) % 2 ≡ 0
      → 2 < s.count + 1
      → t ≡ record (set_entry f s) { core0 = Core0.waiting }
      → Main s t
  waited :
      {t : Threads}
      → s.core0 ≡ Core0.waiting
      → s.finished ≡ true
      → t ≡ record s { core0 = Core0.launching }
      → Main s t
  launch :
      {t : Threads}
      → s.core0 ≡ Core0.launching
      → t ≡ record s { core0 = Core0.spinning; core1 = Core1.entered }
      → Main s t
  launched :
      {t : Threads}
      → s.core0 ≡ Core0.spinning
      → s.started ≡ true
      → t ≡ record s { core0 = Core0.idle }
      → Main s t
  join : {t : Threads} → s.core0 ≡ Core0.idle → t ≡ record s { core0 = Core0.joining } → Main s t
  joined :
      {t : Threads}
      → s.core0 ≡ Core0.joining
      → s.finished ≡ true
      → t ≡ record s { core0 = Core0.idle }
      → Main s t

-- A step of core 1.
pub data Wrapper (s : Threads) : Threads → Type 0 where
  start :
      {t : Threads}
      → s.core1 ≡ Core1.entered
      → t ≡ record s { started = true; core1 = Core1.marking }
      → Wrapper s t
  unfinish :
      {t : Threads}
      → s.core1 ≡ Core1.marking
      → t ≡ record s { finished = false; core1 = Core1.calling }
      → Wrapper s t
  call :
      {t : Threads}
      → s.core1 ≡ Core1.calling
      → t ≡ record s { core1 = Core1.running s.entry }
      → Wrapper s t
  finish :
      {t : Threads} (f : ℕ)
      → s.core1 ≡ Core1.running f
      → t ≡ record s { finished = true; core1 = Core1.asleep }
      → Wrapper s t

pub data Step (s t : Threads) : Type 0 where
  main : Main s t → Step s t
  wrapper : Wrapper s t → Step s t

-- The states that `s` leads to.
pub data Leads (s : Threads) : Threads → Type 0 where
  here : Leads s s
  later : {t u : Threads} → Leads s t → Step t u → Leads s u
