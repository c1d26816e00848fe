-- ===== src/Lcd/Tests.antt =====
-- The theorems on the display with the pins that clock.ml wires.
use pico_ocaml.Prelude.{ℕ, ◌≡◌, refl, true, false, Bool, List, [], ◌∷◌, ◌++◌, map, arith}
use pico_ocaml.Lcd.{Lcd, print_string}
use pico_ocaml.Lcd.Bus.{Bus, watch, IsWired}
use pico_ocaml.Lcd.Receives.{received, print_string-received}

abbrev lcd : Lcd
lcd = record { rs = 16; en = 17; d4 = 18; d5 = 19; d6 = 20; d7 = 21; columns = 20 }

abbrev quiet : Bus
quiet = record { rs = false; en = false; d4 = false; d5 = true; d6 = false; d7 = false; seen = [] }

lcd-IsWired : IsWired lcd
lcd-IsWired = record {
  rs_small = omega arith;
  en_small = omega arith;
  d4_small = omega arith;
  d5_small = omega arith;
  d6_small = omega arith;
  d7_small = omega arith;
  rs_en = omega arith;
  rs_d4 = omega arith;
  rs_d5 = omega arith;
  rs_d6 = omega arith;
  rs_d7 = omega arith;
  en_d4 = omega arith;
  en_d5 = omega arith;
  en_d6 = omega arith;
  en_d7 = omega arith;
  d4_d5 = omega arith;
  d4_d6 = omega arith;
  d4_d7 = omega arith;
  d5_d6 = omega arith;
  d5_d7 = omega arith;
  d6_d7 = omega arith;
}

-- "OK"
abbrev text : List ℕ
text = 79 ∷ 75 ∷ []

print_string-received_example :
    (l : List (Bool × ℕ)) × ((watch lcd (print_string lcd text) quiet).seen ≡ [] ++ l)
    × (received l ≡ map (λ c. (true, c)) text)
    × ((watch lcd (print_string lcd text) quiet).en ≡ false)
print_string-received_example =
    print_string-received lcd text quiet lcd-IsWired refl (omega arith, (omega arith, tt))
