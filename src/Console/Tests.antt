-- ===== src/Console/Tests.antt =====
-- Texts that the console puts out, and its theorems at concrete numbers.
use pico_ocaml.Prelude.{ℕ, ◌^◌, ◌≡◌, refl, ◌≢◌, ◌↔◌, true, false, some, List, [], ◌∷◌, ◌++◌, arith}
use pico_ocaml.Sync.Sdk.{Core}
use pico_ocaml.Console.Lock.{Console, Printer, silent, move, Reach, here, later, call, acquire, put}
use pico_ocaml.Console.Lock.Whole.{is_printing, concat, raw_puts_whole}
use pico_ocaml.Console.{raw_putint}
use pico_ocaml.Console.RoundTrip.{read_int, read_int-raw_putint}

read_int-raw_putint_example :
    (read_int (raw_putint 4294960000) ≡ some 4294960000) ↔ (4294960000 ≢ 2 ^ 31)
read_int-raw_putint_example = read_int-raw_putint 4294960000 (omega arith)

-- Core 0 has put out the first of two characters, and core 1 waits.
abbrev half_out : Console
half_out =
    move Core.core0 (Printer.printing (65 ∷ 66 ∷ []) (66 ∷ []))
      (record (move Core.core1 (Printer.locking (67 ∷ [])) (
        move Core.core0 (Printer.printing (65 ∷ 66 ∷ []) (65 ∷ 66 ∷ []))
          (record (move Core.core0 (Printer.locking (65 ∷ 66 ∷ [])) silent) { lock = true }))) {
            out = 65 ∷ [];
          })

half_out-Reach : Reach half_out
half_out-Reach =
    later
      (later
        (later (later here (call Core.core0 (65 ∷ 66 ∷ []) refl refl))
          (acquire Core.core0 (65 ∷ 66 ∷ []) refl refl refl))
        (call Core.core1 (67 ∷ []) refl refl))
      (put Core.core0 (65 ∷ 66 ∷ []) (66 ∷ []) 65 refl refl)

raw_puts_whole_example :
    (is_printing (half_out.printer Core.core1) ≡ false)
    × ((front : List ℕ) × (65 ∷ 66 ∷ [] ≡ front ++ (66 ∷ []))
        × (half_out.out ≡ concat half_out.texts ++ front))
raw_puts_whole_example = raw_puts_whole Core.core0 (65 ∷ 66 ∷ []) (66 ∷ []) half_out-Reach refl
