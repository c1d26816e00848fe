-- ===== src/Clock/Face.antt =====
-- That the clock never indexes its tables outside, whatever the time.
use pico_ocaml.Prelude.{
  ℕ, zero, suc, ◌+◌, ◌*◌, ◌/◌, ◌%◌, ◌≤◌, ◌<◌, ◌≡◌, refl, Bool, Option, none, some, List, [], length,
  get_elem?, get_elem?-some, arith,
}
use pico_ocaml.Lcd.{Lcd, Calls, move_to}
use pico_ocaml.Clock.{
  bitmaps, digits, ◌⨟◌, for_from, load_custom_chars, segment, display_digit, display_colon,
  display_round,
}

-- A run that is not ended by an index.
abbrev pub Ends : Option Calls → Type 0
Ends o = (cs : Calls) × (o ≡ some cs)

⨟-Ends : (a b : Option Calls) → Ends a → Ends b → Ends (a ⨟ b)
⨟-Ends none b (cs, e) f = cc
⨟-Ends (some cs) none e (ds, f) = cc
⨟-Ends (some cs) (some ds) e f = (_, refl)

for_from-Ends :
    (from rounds : ℕ) (body : ℕ → Option Calls)
    → ((i : ℕ) → from ≤ i → i < from + rounds → Ends (body i))
    → Ends (for_from from rounds body)
unfolding for_from
for_from-Ends from zero body h = ([], refl)
for_from-Ends from (suc rounds) body h =
    ⨟-Ends (body from) (for_from (from + 1) rounds body) (h from (omega arith) (omega arith))
      (for_from-Ends (from + 1) rounds body (λ i lo hi. h i (omega arith) (omega arith)))

elem-Ends :
    (xs : List ℕ) (i : ℕ) (f : ℕ → Calls)
    → i < length xs
    → Ends (elim (get_elem? xs i) [ none ↦ none | some x ↦ some (f x) ])
elem-Ends xs i f h = let (x, e) = get_elem?-some xs i h in (f x, rw e refl)

length-digits : length digits ≡ 120
unfolding digits
length-digits = refl

length-bitmaps : length bitmaps ≡ 64
unfolding bitmaps
length-bitmaps = refl

display_digit-Ends : (lcd : Lcd) (col digit : ℕ) → digit < 10 → Ends (display_digit lcd col digit)
unfolding display_digit
display_digit-Ends lcd col digit h = for_from-Ends 0 4 _ λ row lo hi.
    ⨟-Ends (some (move_to lcd col row)) _ (_, refl)
      (for_from-Ends 0 3 _ (λ c lo' hi'.
        elem-Ends digits (digit * 12 + row * 3 + c) (segment lcd) (omega (arith, length-digits))))

display_colon-Ends : (lcd : Lcd) (col : ℕ) (visible : Bool) → Ends (display_colon lcd col visible)
unfolding display_colon
display_colon-Ends lcd col visible = for_from-Ends 0 4 _ (λ row lo hi. (_, refl))

-- At every second of the day, with the colon shown or not, a round of the display loop runs to
-- its end: the digits of the time and the table of their parts are never indexed outside. So does
-- the loading of the characters.
pub display_round-Ends :
    (lcd : Lcd) (colon : Bool) (day_secs : ℕ)
    → day_secs < 86400
    → Ends (display_round lcd colon day_secs) × Ends (load_custom_chars lcd)
unfolding display_round load_custom_chars
display_round-Ends lcd colon d h = (
  ⨟-Ends _ _
      (⨟-Ends _ _
        (⨟-Ends _ _
          (⨟-Ends _ _
            (⨟-Ends _ _ (display_digit-Ends lcd 2 (d / 3600 / 10) (omega arith))
              (display_digit-Ends lcd 6 (d / 3600 % 10) (omega arith)))
            (display_colon-Ends lcd 9 colon))
          (display_digit-Ends lcd 10 (d % 3600 / 60 / 10) (omega arith)))
        (display_digit-Ends lcd 14 (d % 3600 / 60 % 10) (omega arith)))
      (_, refl),
  ⨟-Ends _ _
      (for_from-Ends 0 8 _ (λ i lo hi.
        ⨟-Ends _ _ (_, refl)
          (for_from-Ends 0 8 _
            (λ j lo' hi'. elem-Ends bitmaps (i * 8 + j) _ (omega (arith, length-bitmaps))))))
      (_, refl),
)
