-- ===== src/Console/RoundTrip.antt =====
-- The text that `raw_putint` puts out, read back.
use pico_ocaml.Prelude.{
  ℕ, ◌+◌, ◌-◌, ◌*◌, ◌^◌, ◌≤◌, ◌<◌, ◌≡◌, refl, sym, ap, subst, ◌∙◌, ◌≢◌, ◌↔◌, Option, none, some,
  List, [], ◌∷◌, arith, dec_lt, ℕ_discrete, ltb, ◌==◌, if◌then◌else◌, length,
}
use pico_ocaml.Console.{
  digit_loop, backwards, put_positive, int_bits, negate, raw_putint, pico_print_int,
}
use pico_ocaml.Console.Digits.{
  value_of, AllDigits, digit_loop-value, digit_loop-AllDigits, length-digit_loop, length-backwards,
  backwards-AllDigits,
}

-- Decimal digits read from the left.
read_digits : List ℕ → ℕ → ℕ
read_digits [] acc = acc
read_digits (c ∷ cs) acc = read_digits cs (acc * 10 + (c - b'0'))

-- A decimal number read as the bit pattern of an `int`: a sign, if any, and at least one digit.
pub read_int : List ℕ → Option ℕ
read_int [] = none
read_int (c ∷ cs) =
    if c == b'-'
    then elim cs [ [] ↦ none | d ∷ ds ↦ some (negate (read_digits (d ∷ ds) 0)) ]
    else some (read_digits (c ∷ cs) 0)

read_digits-backwards :
    (buf out : List ℕ) → read_digits (backwards buf out) 0 ≡ read_digits out (value_of buf)
unfolding backwards read_digits
read_digits-backwards [] out = refl
read_digits-backwards (c ∷ buf) out =
    read_digits-backwards buf (c ∷ out) ∙ ap (read_digits out) (omega arith)

-- What `put_positive` gives for a number that is not negative: its digits, at least one.
record Decimal (n : ℕ) (text : List ℕ) : Type 0 where
  value : read_digits text 0 ≡ n
  digits : AllDigits text
  some_digit : 0 < length text
  short : length text ≤ 10

digits_pos : (buf : List ℕ) (n : ℕ) → value_of buf ≡ n → n ≢ 0 → 0 < length buf
digits_pos [] n e ne = absurd (ne (sym e))
digits_pos (c ∷ buf) n e ne = omega arith

zero_text : (n : ℕ) → n ≡ 0 → Decimal n (b'0' ∷ [])
unfolding read_digits
zero_text n z = record {
  value = omega arith;
  digits = omega arith;
  some_digit = omega arith;
  short = omega arith;
}

digits_text : (n : ℕ) → n < 2 ^ 31 → n ≢ 0 → Decimal n (backwards (digit_loop int_bits n) [])
digits_text n h ne = record {
  value = read_digits-backwards (digit_loop int_bits n) [] ∙ unfold read_digits in value;
  digits = backwards-AllDigits (digit_loop int_bits n) [] (digit_loop-AllDigits int_bits n) tt;
  some_digit = omega (arith, size, digits_pos (digit_loop int_bits n) n value ne);
  short = omega (arith, size, length-digit_loop int_bits n 10 (omega arith));
}
  where
    value : value_of (digit_loop int_bits n) ≡ n
    value = digit_loop-value int_bits n (omega arith)

    size : length (backwards (digit_loop int_bits n) []) ≡ length (digit_loop int_bits n) + 0
    size = length-backwards (digit_loop int_bits n) []

put_positive-Decimal : (n : ℕ) → n < 2 ^ 31 → Decimal n (put_positive n)
unfolding put_positive
put_positive-Decimal n h = elim (ℕ_discrete n 0) [
  | yes z ↦ subst (Decimal n) (ground arith) (zero_text n z)
  | no p ↦ subst (Decimal n) (ground arith) (digits_text n h p)
]

read_int-unsigned : (n : ℕ) (text : List ℕ) → Decimal n text → read_int text ≡ some n
unfolding read_int
read_int-unsigned n [] d = absurd (omega (arith, d.some_digit))
read_int-unsigned n (c ∷ cs) d = ground (arith, d.digits.0, d.value)

read_int-signed :
    (n : ℕ) (text : List ℕ) → Decimal n text → read_int (b'-' ∷ text) ≡ some (negate n)
unfolding read_int
read_int-signed n [] d = absurd (omega (arith, d.some_digit))
read_int-signed n (c ∷ cs) d = ground (arith, d.value)

put_positive-negative : (n : ℕ) → 2 ^ 31 ≤ n → put_positive n ≡ []
unfolding put_positive
put_positive-negative n h = ground arith

read_int_sign_only : read_int (b'-' ∷ []) ≡ none
unfolding read_int
read_int_sign_only = refl

raw_putint_least : (n : ℕ) → n ≡ 2 ^ 31 → raw_putint n ≡ b'-' ∷ []
unfolding raw_putint
raw_putint_least n e = ground (arith, put_positive-negative (negate n))

printed_back : (n : ℕ) → n < 2 ^ 32 → n ≢ 2 ^ 31 → read_int (raw_putint n) ≡ some n
unfolding raw_putint
printed_back n h ne = elim (dec_lt n (2 ^ 31)) [
  | yes small ↦ ground (arith, read_int-unsigned n (put_positive n) (put_positive-Decimal n small))
  | no big ↦ ground (
    arith,
    read_int-signed (negate n) (put_positive (negate n))
        (put_positive-Decimal (negate n) (omega arith)),
  )
]

-- Of every `int` but the least, `raw_putint` puts out a text that reads back as that number; of
-- the least, -2 ^ 31, it puts out a text that is no number, since `-n` wraps round to `n`.
pub read_int-raw_putint : (n : ℕ) → n < 2 ^ 32 → (read_int (raw_putint n) ≡ some n) ↔ (n ≢ 2 ^ 31)
read_int-raw_putint n h = (
  λ back least. ground (arith, back, raw_putint_least n least, read_int_sign_only),
  λ ne. printed_back n h ne,
)

-- `raw_putint` collects at most ten digits, in a buffer of twelve bytes, and puts out at most
-- eleven characters.
length-raw_putint :
    (n : ℕ)
    → n < 2 ^ 32
    → (length (digit_loop int_bits (if ltb n (2 ^ 31) then n else negate n)) ≤ 10)
      × (length (raw_putint n) ≤ 11)
unfolding raw_putint
length-raw_putint n h = (
  length-digit_loop int_bits (if ltb n (2 ^ 31) then n else negate n) 10 (ground arith),
  elim (dec_lt n (2 ^ 31)) [
    | yes small ↦ ground (arith, (put_positive-Decimal n small).short)
    | no big ↦ elim (ℕ_discrete n (2 ^ 31)) [
      | yes least ↦ ground (arith, raw_putint_least n least)
      | no ne ↦ ground (arith, (put_positive-Decimal (negate n) (omega arith)).short)
    ]
  ],
)

-- `pico_print_int` puts out what `raw_putint` does.
pico_print_int-raw_putint : (n : ℕ) → pico_print_int n ≡ raw_putint n
unfolding pico_print_int raw_putint
pico_print_int-raw_putint n = ground arith
