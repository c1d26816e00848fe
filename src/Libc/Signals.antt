-- ===== src/Libc/Signals.antt =====
-- ocaml_stubs.c, signals and resource usage. Memory behind a pointer is a list of words, `none`
-- for NULL.
use pico_ocaml.Prelude.{ℕ, Option, none, some, List, length, replicate}
use pico_ocaml.Prelude.Int.{ℤ, pos}

abbrev Block : Type 0
Block = Option (List ℕ)

-- The code, and `*usage` afterwards.
unfoldable getrusage : (who : ℤ) → (usage : Block) → ℤ × Block
getrusage who none = (pos 0, none)
getrusage who (some u) = (pos 0, some (replicate (length u) 0))

-- The code, and `*oact` afterwards.
unfoldable sigaction : (sig : ℤ) → (act oact : Block) → ℤ × Block
sigaction sig act oact = (pos 0, oact)

unfoldable sigaltstack : (ss old_ss : Block) → ℤ × Block
sigaltstack ss old_ss = (pos 0, old_ss)

unfoldable pthread_sigmask : (how : ℤ) → (set oldset : Block) → ℤ × Block
pthread_sigmask how set oldset = (pos 0, oldset)
