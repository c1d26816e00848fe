-- ===== src/Lcd.antt =====
-- lcd.ml: a driver of an HD44780 display in its 4-bit mode, over the pins and delays of
-- pico_main.c. A function is the list of the calls of the SDK that it makes, in order. An `int`
-- of OCaml is not negative here.
pub mod Bus
pub mod Receives
pub mod Places
mod Tests
use Prim.Native.Nat.{bit_or}
use pico_ocaml.Prelude.{
  ℕ, ◌+◌, ◌*◌, ◌/◌, ◌%◌, Bool, true, false, List, [], ◌∷◌, ◌++◌, ltb, leb, ◌==◌, if◌then◌else◌,
}
use pico_ocaml.Prelude.Value.{val_int, val_bool}
use pico_ocaml.Board.{
  SdkCall, ocaml_gpio_init, ocaml_gpio_set_dir_out, ocaml_gpio_put, ocaml_sleep_us, ocaml_sleep_ms,
}

-- `Lcd.t`
pub record Lcd : Type 0 where
  pub rs : ℕ
  pub en : ℕ
  pub d4 : ℕ
  pub d5 : ℕ
  pub d6 : ℕ
  pub d7 : ℕ
  pub columns : ℕ

abbrev pub Calls : Type 0
Calls = List SdkCall

unfoldable pub gpio_put : ℕ → Bool → Calls
unfolding ocaml_gpio_put
gpio_put pin on = (ocaml_gpio_put (val_int pin) (val_bool on)).1

gpio_init : ℕ → Calls
unfolding ocaml_gpio_init
gpio_init pin = (ocaml_gpio_init (val_int pin)).1

gpio_set_dir_out : ℕ → Calls
unfolding ocaml_gpio_set_dir_out
gpio_set_dir_out pin = (ocaml_gpio_set_dir_out (val_int pin)).1

unfoldable pub sleep_us : ℕ → Calls
unfolding ocaml_sleep_us
sleep_us n = (ocaml_sleep_us (val_int n)).1

unfoldable pub sleep_ms : ℕ → Calls
unfolding ocaml_sleep_ms
sleep_ms n = (ocaml_sleep_ms (val_int n)).1

pub pulse_enable : Lcd → Calls
pulse_enable t =
    gpio_put t.en false
    ++ (sleep_us 1 ++ (gpio_put t.en true ++ (sleep_us 1 ++ (gpio_put t.en false ++ sleep_us 100))))

-- `n land 2 ^ k <> 0`
abbrev pub has_bit : ℕ → (two_to_k : ℕ) → Bool
has_bit n p = (n / p % 2) == 1

pub write_4bits : Lcd → ℕ → Calls
write_4bits t nibble =
    gpio_put t.d7 (has_bit nibble 8)
    ++ (gpio_put t.d6 (has_bit nibble 4)
        ++ (gpio_put t.d5 (has_bit nibble 2)
            ++ (gpio_put t.d4 (has_bit nibble 1) ++ pulse_enable t)))

unfoldable pub write_8bits : Lcd → ℕ → Calls
write_8bits t value = write_4bits t (value / 16) ++ write_4bits t value

unfoldable pub write_command : Lcd → ℕ → Calls
write_command t cmd =
    gpio_put t.rs false ++ (write_8bits t cmd ++ (if leb cmd 3 then sleep_ms 5 else []))

unfoldable pub write_data : Lcd → ℕ → Calls
write_data t d = gpio_put t.rs true ++ write_8bits t d

init_pin : ℕ → Calls
init_pin pin = gpio_init pin ++ (gpio_set_dir_out pin ++ gpio_put pin false)

-- The calls of `init`; `t` is what it returns.
unfoldable init : Lcd → (lines : ℕ) → Calls
unfolding init_pin write_4bits
init t lines =
    init_pin t.rs
    ++ (init_pin t.en
        ++ (init_pin t.d4
            ++ (init_pin t.d5
                ++ (init_pin t.d6
                    ++ (init_pin t.d7
                        ++ (sleep_ms 20
                            ++ (write_4bits t 3
                                ++ (sleep_ms 5
                                    ++ (write_4bits t 3
                                        ++ (sleep_ms 1
                                            ++ (write_4bits t 3
                                                ++ (sleep_ms 1
                                                    ++ (write_4bits t 2
                                                        ++ (sleep_ms 1
                                                            ++ (write_command t
                                                            (if ltb 1 lines then 0x28 else 0x20)
                                                            ++ (write_command t 8
                                                            ++ (write_command t 1
                                                            ++ (sleep_ms 5
                                                            ++ (write_command t 2
                                                            ++ (sleep_ms 5
                                                            ++ (write_command t 6
                                                            ++ write_command t
                                                            12)))))))))))))))))))))

unfoldable clear : Lcd → Calls
clear t = write_command t 1 ++ (sleep_ms 5 ++ (write_command t 2 ++ sleep_ms 5))

-- The address in the display's memory of a column and a row: `col land 0x3f`, and so on.
unfoldable pub address_of : Lcd → (col row : ℕ) → ℕ
address_of t col row =
    let addr = col % 64 in
    let addr' = if has_bit row 1 then addr + 64 else addr in
    if has_bit row 2 then addr' + t.columns else addr'

unfoldable pub move_to : Lcd → (col row : ℕ) → Calls
move_to t col row = write_command t (bit_or 128 (address_of t col row))

-- a string as the list of its bytes
unfoldable pub print_string : Lcd → List ℕ → Calls
print_string t [] = []
print_string t (c ∷ s) = write_data t c ++ print_string t s
