-- ===== src/Board/Clock.antt =====
-- How long `ocaml_time_ms` tells the time.
use pico_ocaml.Prelude.{ℕ, ◌+◌, ◌-◌, ◌/◌, ◌%◌, ◌^◌, ◌≤◌, ◌<◌, ◌≡◌, ◌↔◌, arith}
use pico_ocaml.Prelude.Value.{int_val}
use pico_ocaml.Board.{ocaml_time_ms}

-- Whatever value it is called with, `ocaml_time_ms` returns the milliseconds since the start, the
-- microseconds of the SDK's clock divided by 1000, if these fit 30 bits, and later a number that
-- is not theirs, as long as the clock has not run for 2 ^ 32 - 2 ^ 30 milliseconds: it is right
-- for the first twelve days.
pub ocaml_time_ms-val_int :
    (us unit : ℕ)
    → us / 1000 < 2 ^ 32 - 2 ^ 30
    → (int_val (ocaml_time_ms us unit) ≡ us / 1000) ↔ (us / 1000 < 2 ^ 30)
unfolding ocaml_time_ms
ocaml_time_ms-val_int us unit h = (λ e. ground arith, λ c. ground arith)

-- The difference of two readings, as OCaml subtracts them, in 31 bits.
abbrev elapsed : (before after : ℕ) → ℕ
elapsed before after = (after + 2 ^ 32 - before) / 2 % 2 ^ 31

-- Two readings of `ocaml_time_ms`, subtracted in OCaml, give the milliseconds that have passed
-- between them modulo 2 ^ 31, even when the reading itself has wrapped in between.
elapsed-ocaml_time_ms :
    (us us' unit : ℕ)
    → us ≤ us'
    → elapsed (ocaml_time_ms us unit) (ocaml_time_ms us' unit) ≡ (us' / 1000 - us / 1000) % 2 ^ 31
unfolding ocaml_time_ms
elapsed-ocaml_time_ms us us' unit h = omega arith
