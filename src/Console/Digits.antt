-- ===== src/Console/Digits.antt =====
-- The digits that the loops of `raw_putint` and `pico_print_int` leave in their buffer.
use pico_ocaml.Prelude.{
  ℕ, zero, suc, ◌+◌, ◌-◌, ◌*◌, ◌/◌, ◌^◌, ◌≤◌, ◌<◌, ◌≡◌, List, [], ◌∷◌, arith, length,
}
use native.Mathlib.Nat.{pow-suc}
use pico_ocaml.Console.{digit_loop, backwards}

-- the number that a buffer of digits stands for, last digit first
abbrev pub value_of : List ℕ → ℕ
value_of [] = 0
value_of (c ∷ cs) = (c - b'0') + 10 * value_of cs

-- every entry is a decimal digit
abbrev pub AllDigits : List ℕ → Type 0
AllDigits [] = Unit {0}
AllDigits (c ∷ cs) = (b'0' ≤ c) × (c ≤ b'9') × AllDigits cs

pub digit_loop-value : (fuel n : ℕ) → n < 2 ^ fuel → value_of (digit_loop fuel n) ≡ n
unfolding digit_loop
digit_loop-value zero n h = omega arith
digit_loop-value (suc fuel) n h = ground (arith, pow-suc 2 fuel, digit_loop-value fuel (n / 10))

pub digit_loop-AllDigits : (fuel n : ℕ) → AllDigits (digit_loop fuel n)
unfolding digit_loop
digit_loop-AllDigits zero n = tt
digit_loop-AllDigits (suc fuel) n = ground (arith, digit_loop-AllDigits fuel (n / 10))

-- A number below 10 ^ k leaves at most k digits.
pub length-digit_loop : (fuel n k : ℕ) → n < 10 ^ k → length (digit_loop fuel n) ≤ k
unfolding digit_loop
length-digit_loop zero n k h = omega arith
length-digit_loop (suc fuel) n zero h = ground arith
length-digit_loop (suc fuel) n (suc k) h =
    ground (arith, pow-suc 10 k, length-digit_loop fuel (n / 10) k)

pub length-backwards : (buf out : List ℕ) → length (backwards buf out) ≡ length buf + length out
unfolding backwards
length-backwards [] out = omega arith
length-backwards (c ∷ buf) out = omega (arith, length-backwards buf (c ∷ out))

pub backwards-AllDigits :
    (buf out : List ℕ) → AllDigits buf → AllDigits out → AllDigits (backwards buf out)
unfolding backwards
backwards-AllDigits [] out b o = o
backwards-AllDigits (c ∷ buf) out b o = backwards-AllDigits buf (c ∷ out) b.2 (b.0, b.1, o)
