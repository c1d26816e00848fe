-- ===== src/Clock.antt =====
-- clock.ml: a clock on an LCD that NTP sets. An `int` of OCaml has 31 bits; here it is not
-- negative, but for a difference of two readings of the clock, which is a pattern of 31 bits.
pub mod Time
pub mod Face
pub mod Ntp
mod Tests
use pico_ocaml.Prelude.{
  ℕ, ◌+◌, ◌-◌, ◌*◌, ◌/◌, ◌%◌, ◌^◌, Bool, true, false, ◌&&◌, ◌||◌, Option, none, some, zero, suc,
  List, [], ◌∷◌, ◌++◌, get_elem?, ltb, ◌==◌, if◌then◌else◌,
}
use pico_ocaml.Lcd.{Lcd, Calls, write_command, write_data, move_to, sleep_us}

abbrev utc_offset_hours : ℕ
utc_offset_hours = 1

-- Hours, minutes and seconds, from bytes 40 to 43 of the answer of an NTP server.
pub time_of : (b0 b1 b2 b3 : ℕ) → ℕ × ℕ × ℕ
time_of b0 b1 b2 b3 =
    let raw = b0 * 15616 + b1 * 65536 + b2 * 256 + b3 in
    let secs_of_day = raw % 86400 in
    let secs_wrapped = (secs_of_day + utc_offset_hours * 3600) % 86400 in
    (secs_wrapped / 3600, secs_wrapped % 3600 / 60, secs_wrapped % 60)

-- What is stored in `base_secs`.
pub base_of : ℕ × ℕ × ℕ → ℕ
base_of (h, m, s) = h * 3600 + m * 60 + s

-- `time_ms () - sm`, in 31 bits; both are numbers of at most 31 bits.
pub gap : (now sm : ℕ) → ℕ
gap now sm = (now + 2 ^ 31 - sm) % 2 ^ 31

-- `(bs + elapsed) mod 86400`, for a gap that is not negative
pub day_secs_at : (bs now sm : ℕ) → ℕ
unfolding gap
day_secs_at bs now sm = (bs + gap now sm / 1000) % 86400

abbrev min_bright : ℕ
min_bright = 7935

abbrev max_bright : ℕ
max_bright = 65535

pub backlight_of_time : (day_secs : ℕ) → ℕ
backlight_of_time day_secs =
    if ltb day_secs 21600
    then min_bright
    else if ltb day_secs 25200
    then min_bright + (day_secs - 21600) * 16
    else if ltb day_secs 75600
    then max_bright
    else if ltb day_secs 79200
    then max_bright - (day_secs - 75600) * 16
    else min_bright

-- The eight custom characters.
pub bitmaps : List ℕ
bitmaps =
    0x1F ∷ 0x1F ∷ 0x00 ∷ 0x00 ∷ 0x00 ∷ 0x00 ∷ 0x00 ∷ 0x00 ∷ 0x1F ∷ 0x1F ∷ 0x18 ∷ 0x18 ∷ 0x18 ∷ 0x18
    ∷ 0x18 ∷ 0x18 ∷ 0x18 ∷ 0x18 ∷ 0x18 ∷ 0x18 ∷ 0x18 ∷ 0x18 ∷ 0x18 ∷ 0x18 ∷ 0x18 ∷ 0x18 ∷ 0x18
    ∷ 0x18 ∷ 0x18 ∷ 0x18 ∷ 0x1F ∷ 0x1F ∷ 0x00 ∷ 0x00 ∷ 0x00 ∷ 0x00 ∷ 0x00 ∷ 0x00 ∷ 0x1F ∷ 0x1F
    ∷ 0x03 ∷ 0x03 ∷ 0x03 ∷ 0x03 ∷ 0x03 ∷ 0x03 ∷ 0x1F ∷ 0x1F ∷ 0x03 ∷ 0x03 ∷ 0x03 ∷ 0x03 ∷ 0x03
    ∷ 0x03 ∷ 0x03 ∷ 0x03 ∷ 0x1F ∷ 0x1F ∷ 0x03 ∷ 0x03 ∷ 0x03 ∷ 0x03 ∷ 0x03 ∷ 0x03 ∷ []

-- Ten digits of four rows with three characters: 0 to 7 are custom ones, 8 is a blank.
pub digits : List ℕ
digits =
    1 ∷ 0 ∷ 7 ∷ 2 ∷ 8 ∷ 6 ∷ 2 ∷ 8 ∷ 6 ∷ 3 ∷ 4 ∷ 5 ∷ 8 ∷ 8 ∷ 7 ∷ 8 ∷ 8 ∷ 6 ∷ 8 ∷ 8 ∷ 6 ∷ 8 ∷ 8 ∷ 6
    ∷ 1 ∷ 0 ∷ 7 ∷ 8 ∷ 8 ∷ 6 ∷ 1 ∷ 0 ∷ 0 ∷ 3 ∷ 4 ∷ 4 ∷ 1 ∷ 0 ∷ 7 ∷ 8 ∷ 8 ∷ 6 ∷ 8 ∷ 0 ∷ 7 ∷ 3 ∷ 4 ∷ 5
    ∷ 2 ∷ 8 ∷ 6 ∷ 3 ∷ 4 ∷ 5 ∷ 8 ∷ 8 ∷ 6 ∷ 8 ∷ 8 ∷ 6 ∷ 1 ∷ 0 ∷ 0 ∷ 3 ∷ 4 ∷ 4 ∷ 8 ∷ 8 ∷ 6 ∷ 3 ∷ 4 ∷ 5
    ∷ 1 ∷ 0 ∷ 7 ∷ 2 ∷ 8 ∷ 8 ∷ 1 ∷ 0 ∷ 7 ∷ 3 ∷ 4 ∷ 5 ∷ 1 ∷ 0 ∷ 7 ∷ 8 ∷ 8 ∷ 6 ∷ 8 ∷ 8 ∷ 6 ∷ 8 ∷ 8 ∷ 6
    ∷ 1 ∷ 0 ∷ 7 ∷ 3 ∷ 4 ∷ 5 ∷ 2 ∷ 8 ∷ 6 ∷ 3 ∷ 4 ∷ 5 ∷ 1 ∷ 0 ∷ 7 ∷ 3 ∷ 4 ∷ 5 ∷ 8 ∷ 8 ∷ 6 ∷ 3 ∷ 4 ∷ 5
    ∷ []

-- A run that makes calls, or is ended by an index outside an array.
infixl 5 ◌⨟◌
abbrev pub ◌⨟◌ : Option Calls → Option Calls → Option Calls
none ⨟ _ = none
some cs ⨟ none = none
some cs ⨟ some ds = some (cs ++ ds)

-- `for x = from to from + rounds - 1 do body x done`
pub for_from : (from rounds : ℕ) → (ℕ → Option Calls) → Option Calls
for_from from zero body = some []
for_from from (suc rounds) body = body from ⨟ for_from (from + 1) rounds body

-- One element of an array written to the display.
abbrev with_elem : List ℕ → ℕ → (ℕ → Calls) → Option Calls
with_elem xs i f = elim (get_elem? xs i) [ none ↦ none | some x ↦ some (f x) ]

-- `0x40 lor (i lsl 3)` is a sum, since `i` is less than eight.
pub load_custom_chars : Lcd → Option Calls
load_custom_chars lcd =
    for_from 0 8 (λ i.
      some (write_command lcd (64 + i * 8) ++ sleep_us 40)
      ⨟ for_from 0 8 (λ j. with_elem bitmaps (i * 8 + j) (λ x. write_data lcd x ++ sleep_us 40)))
    ⨟ some (move_to lcd 0 0)

-- A character of a digit.
abbrev pub segment : Lcd → ℕ → Calls
segment lcd seg = write_data lcd (if seg == 8 then 32 else seg)

pub display_digit : Lcd → (col digit : ℕ) → Option Calls
display_digit lcd col digit = for_from 0 4 λ row.
    some (move_to lcd col row)
    ⨟ for_from 0 3 (λ c. with_elem digits (digit * 12 + row * 3 + c) (segment lcd))

pub display_colon : Lcd → (col : ℕ) → (visible : Bool) → Option Calls
display_colon lcd col visible = for_from 0 4 λ row.
    some (
      move_to lcd col row
      ++ write_data lcd (if visible && (row == 1 || row == 2) then 0xA5 else 32))

-- What one round of `display_loop` writes to the display.
pub display_round : Lcd → (colon : Bool) → (day_secs : ℕ) → Option Calls
display_round lcd colon day_secs =
    let hours = day_secs / 3600 in
    let minutes = day_secs % 3600 / 60 in
    let seconds = day_secs % 60 in
    display_digit lcd 2 (hours / 10)
    ⨟ display_digit lcd 6 (hours % 10)
    ⨟ display_colon lcd 9 colon
    ⨟ display_digit lcd 10 (minutes / 10)
    ⨟ display_digit lcd 14 (minutes % 10)
    ⨟ some (
        move_to lcd 18 3
        ++ (write_data lcd (48 + seconds / 10) ++ write_data lcd (48 + seconds % 10)))
