-- ===== src/Board.antt =====
-- pico_main.c, the functions that OCaml calls for the board: LED, pins, delays, the clock and PWM.
-- A function's result is the OCaml value that it returns with the calls of the SDK that it makes,
-- in order, each with the arguments that it receives.
pub mod Pwm
pub mod Clock
pub mod Main
mod Tests
use pico_ocaml.Prelude.{
  ℕ, ◌+◌, ◌-◌, ◌*◌, ◌/◌, ◌%◌, ◌^◌, Bool, true, not, Option, none, some, List, [], ◌∷◌, ltb, ◌==◌,
  if◌then◌else◌,
}
use pico_ocaml.Prelude.Value.{Value, val_int, int_val, val_unit, val_bool}

-- What the SDK is asked to do. A number is the bit pattern of the parameter's type.
pub data SdkCall : Type 0 where
  cyw43_init : SdkCall
  led_put : Bool → SdkCall
  sleep_ms sleep_us : ℕ → SdkCall
  gpio_init gpio_set_dir_out gpio_set_function_pwm : (pin : ℕ) → SdkCall
  gpio_put : (pin : ℕ) → Bool → SdkCall
  pwm_set_wrap : (slice wrap : ℕ) → SdkCall
  pwm_set_chan_level : (slice chan level : ℕ) → SdkCall
  pwm_set_enabled : (slice : ℕ) → Bool → SdkCall

abbrev pub Does : Type 0
Does = Value × List SdkCall

-- `Bool_val(v)`: `Int_val(v)`, taken for a truth value
abbrev bool_val : Value → Bool
bool_val v = not (int_val v == 0)

-- `result` is what `cyw43_arch_init` returns, 0 if all went well.
unfoldable ocaml_cyw43_init : (result : ℕ) → Value → Does
ocaml_cyw43_init result unit = (val_bool (not (result == 0)), SdkCall.cyw43_init ∷ [])

unfoldable ocaml_cyw43_led_set : Value → Does
ocaml_cyw43_led_set on = (val_unit, SdkCall.led_put (bool_val on) ∷ [])

unfoldable pub ocaml_sleep_ms : Value → Does
ocaml_sleep_ms ms = (val_unit, SdkCall.sleep_ms (int_val ms) ∷ [])

-- `us` is what `time_us_64` returns; `(long)` keeps 32 bits of the milliseconds.
unfoldable pub ocaml_time_ms : (us : ℕ) → Value → Value
ocaml_time_ms us unit = val_int (us / 1000 % 2 ^ 32)

unfoldable pub ocaml_gpio_init : Value → Does
ocaml_gpio_init pin = (val_unit, SdkCall.gpio_init (int_val pin) ∷ [])

unfoldable pub ocaml_gpio_set_dir_out : Value → Does
ocaml_gpio_set_dir_out pin = (val_unit, SdkCall.gpio_set_dir_out (int_val pin) ∷ [])

unfoldable pub ocaml_gpio_put : (pin on : Value) → Does
ocaml_gpio_put pin on = (val_unit, SdkCall.gpio_put (int_val pin) (bool_val on) ∷ [])

-- The parameter of `sleep_us` is a `uint64_t`: a negative `long` is extended with its sign.
unfoldable pub ocaml_sleep_us : Value → Does
ocaml_sleep_us us =
    let n = int_val us in
    (val_unit, SdkCall.sleep_us (if ltb n (2 ^ 31) then n else 2 ^ 64 - 2 ^ 32 + n) ∷ [])

-- `pwm_gpio_to_slice_num` and `pwm_gpio_to_channel`
pub record PwmPins : Type 0 where
  pub slice_of : ℕ → ℕ
  pub channel_of : ℕ → ℕ

-- `125000000 / freq`, and no more than 65535
abbrev pub wrap_for : (freq : ℕ) → ℕ
wrap_for freq = let wrap = 125000000 / freq in if ltb 65535 wrap then 65535 else wrap

-- `(wrap * duty) / 65535` in `uint32_t`
abbrev pub level_for : (wrap duty : ℕ) → ℕ
level_for wrap duty = wrap * duty % 2 ^ 32 / 65535

-- `none` is a division by zero. Wrap and level are `uint16_t` parameters.
pub ocaml_pwm_init : PwmPins → (v_pin v_freq v_duty : Value) → Option Does
ocaml_pwm_init pins v_pin v_freq v_duty =
    let pin = int_val v_pin in
    let freq = int_val v_freq in
    let duty = int_val v_duty in
    let slice = pins.slice_of pin in
    let wrap = wrap_for freq in
    if freq == 0
    then none
    else some (
      val_unit,
      SdkCall.gpio_set_function_pwm pin
          ∷ SdkCall.pwm_set_wrap slice (wrap % 2 ^ 16)
          ∷ SdkCall.pwm_set_chan_level slice (pins.channel_of pin) (level_for wrap duty % 2 ^ 16)
          ∷ SdkCall.pwm_set_enabled slice true
          ∷ [],
    )

pub ocaml_pwm_set_duty : PwmPins → (v_pin v_duty : Value) → Does
ocaml_pwm_set_duty pins v_pin v_duty =
    let pin = int_val v_pin in
    let duty = int_val v_duty in
    (
      val_unit,
      SdkCall.pwm_set_chan_level (pins.slice_of pin) (pins.channel_of pin) (duty % 2 ^ 16) ∷ [],
    )
