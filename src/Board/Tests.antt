-- ===== src/Board/Tests.antt =====
-- The theorem on PWM for a motor at 20 kHz.
use pico_ocaml.Prelude.{ℕ, ◌/◌, ◌%◌, ◌≤◌, ◌≡◌, some, arith}
use pico_ocaml.Prelude.Value.{val_int, val_unit}
use pico_ocaml.Board.{PwmPins, wrap_for, ocaml_pwm_init}
use pico_ocaml.Board.Pwm.{IsShare, init_calls, ocaml_pwm_init_lem}

abbrev pins : PwmPins
pins = record { slice_of = λ pin. pin / 2 % 8; channel_of = λ pin. pin % 2 }

ocaml_pwm_init_lem_example :
    (level : ℕ) × (ocaml_pwm_init pins (val_int 15) (val_int 20000) (val_int 32768)
      ≡ some (val_unit, init_calls pins 15 20000 32768 level))
    × IsShare (wrap_for 20000) 32768 level
    × (level ≤ wrap_for 20000)
    × (wrap_for 20000 ≤ 65535)
    × ((◌≡◌ {A = ℕ} 32768 65535) → level ≡ wrap_for 20000)
ocaml_pwm_init_lem_example =
    ocaml_pwm_init_lem pins 15 20000 32768 (omega arith) (omega arith) (omega arith) (omega arith)
