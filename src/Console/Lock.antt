-- ===== src/Console/Lock.antt =====
-- ocaml_stubs.c, `raw_lock`, `raw_unlock` and `raw_puts` on two cores: each test of the lock and
-- each character is a step, in any order.
pub mod Whole
use pico_ocaml.Prelude.{ℕ, ◌≡◌, Bool, true, false, List, [], ◌∷◌, ◌++◌, if◌then◌else◌}
use pico_ocaml.Sync.Sdk.{Core, same_core}

-- Where a core stands in `raw_puts`, with its text up to the NUL.
pub data Printer : Type 0 where
  idle : Printer
  locking : (text : List ℕ) → Printer  -- `while (__atomic_test_and_set(&raw_output_lock, …))`
  printing : (text rest : List ℕ) → Printer  -- `while (*s) raw_putchar(*s++)`, before `rest`

-- `raw_output_lock`, and what the console has received. `texts` is history: those that were put out
-- by calls that have come back, oldest first.
pub record Console : Type 0 where
  pub lock : Bool
  pub printer : Core → Printer
  pub out : List ℕ
  pub texts : List (List ℕ)

abbrev pub silent : Console
silent = record { lock = false; printer = λ c. Printer.idle; out = []; texts = [] }

-- Core `c` moves on.
abbrev pub move : Core → Printer → Console → Console
move c p s = record s { printer = λ d. if same_core c d then p else s.printer d }

pub data Step (s : Console) : Console → Type 0 where
  call :
      (c : Core) (text : List ℕ) {t : Console}
      → s.printer c ≡ Printer.idle
      → t ≡ move c (Printer.locking text) s
      → Step s t
  acquire :
      (c : Core) (text : List ℕ) {t : Console}
      → s.printer c ≡ Printer.locking text
      → s.lock ≡ false
      → t ≡ move c (Printer.printing text text) (record s { lock = true })
      → Step s t
  spin :
      (c : Core) (text : List ℕ) {t : Console}
      → s.printer c ≡ Printer.locking text
      → s.lock ≡ true
      → t ≡ record s { lock = true }
      → Step s t
  put :
      (c : Core) (text rest : List ℕ) (x : ℕ) {t : Console}
      → s.printer c ≡ Printer.printing text (x ∷ rest)
      → t ≡ move c (Printer.printing text rest) (record s { out = s.out ++ (x ∷ []) })
      → Step s t
  unlock :
      (c : Core) (text : List ℕ) {t : Console}
      → s.printer c ≡ Printer.printing text []
      → t ≡ move c Printer.idle (record s { lock = false; texts = s.texts ++ (text ∷ []) })
      → Step s t

pub data Reach : Console → Type 0 where
  here : Reach silent
  later : {s t : Console} → Reach s → Step s t → Reach t
