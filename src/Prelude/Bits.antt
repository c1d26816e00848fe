-- ===== src/Prelude/Bits.antt =====
-- Masks of ones and their complements as remainders and multiples.
use Prim.Native.Nat.{
  ℕ, zero, suc, ◌+◌, ◌-◌, ◌*◌, ◌/◌, ◌%◌, ◌^◌, ◌≤◌, ◌<◌, min, bit_and, digits, bit_and-bitwise,
}
use mathlib.Core.Path.{◌≡◌, refl, sym, ap, ◌∙◌}
use native.Mathlib.Omega.{arith}
use native.Mathlib.Nat.{
  div-div-eq-div-mul, pow-suc, pow-succ', mod-lt, div-add-mod, mod-eq_of_lt, add-mul-mod_self_left,
  div-lt_iff_lt-mul,
}

abbrev lowest_digits : (fuel : ℕ) → ℕ → ℕ → ℕ
lowest_digits fuel x y = digits (λ d. zero) min fuel x y

-- Fuel for the first number is enough, and more does not matter.
enough_fuel : (j k x y : ℕ) → x ≤ j → x ≤ k → lowest_digits j x y ≡ lowest_digits k x y
enough_fuel zero zero x y hj hk = refl
enough_fuel (suc j) zero zero y hj hk = refl
enough_fuel zero (suc k) zero y hj hk = refl
enough_fuel (suc j) zero (suc x) y hj hk = absurd (omega arith)
enough_fuel zero (suc k) (suc x) y hj hk = absurd (omega arith)
enough_fuel (suc j) (suc k) zero y hj hk = refl
enough_fuel (suc j) (suc k) (suc x) y hj hk =
    omega (arith, enough_fuel j k (suc x / 2) (y / 2) (omega arith) (omega arith))

none-bit_and : (y : ℕ) → bit_and 0 y ≡ 0
none-bit_and y = bit_and-bitwise 0 y

-- The lowest binary digit apart.
bit_and-halves : (x y : ℕ) → bit_and x y ≡ bit_and (x / 2) (y / 2) * 2 + min (x % 2) (y % 2)
bit_and-halves zero y = omega (arith, none-bit_and y, none-bit_and (y / 2))
bit_and-halves (suc x) y = omega (
  arith,
  bit_and-bitwise (suc x) y,
  bit_and-bitwise (suc x / 2) (y / 2),
  enough_fuel x (suc x / 2) (suc x / 2) (y / 2) (omega arith) (omega arith),
)

pub pow_pos : (k : ℕ) → 0 < 2 ^ k
pow_pos zero = omega arith
pow_pos (suc k) = omega (arith, pow_pos k, pow-suc 2 k)

mod-double : (x p : ℕ) → 0 < p → x % (p * 2) ≡ x / 2 % p * 2 + x % 2
mod-double x p h =
    ap (λ y. y % (p * 2)) split
    ∙ add-mul-mod_self_left (x / 2 % p * 2 + x % 2) (p * 2) (x / 2 / p)
    ∙ mod-eq_of_lt (omega (arith, mod-lt (x / 2) h))
  where
    split : x ≡ x / 2 % p * 2 + x % 2 + p * 2 * (x / 2 / p)
    split = omega (arith, div-add-mod (x / 2) p, doubled (x / 2 / p))
      where
        doubled : (q : ℕ) → p * 2 * q ≡ p * q * 2
        doubled q = omega arith

bit_and-none_fuel : (fuel x : ℕ) → x ≤ fuel → bit_and x 0 ≡ 0
bit_and-none_fuel fuel zero h = none-bit_and 0
bit_and-none_fuel zero (suc x) h = absurd (omega arith)
bit_and-none_fuel (suc fuel) (suc x) h =
    omega (arith, bit_and-halves (suc x) 0, bit_and-none_fuel fuel (suc x / 2) (omega arith))

-- A mask of `k` ones keeps the remainder by 2 ^ k.
pub bit_and-ones : (k x : ℕ) → bit_and x (2 ^ k - 1) ≡ x % 2 ^ k
bit_and-ones zero x = omega (arith, bit_and-none_fuel x x (omega arith))
bit_and-ones (suc k) x =
    ap (bit_and x) ones
    ∙ bit_and-halves x (2 ^ k * 2 - 1)
    ∙ omega (arith, ap (bit_and (x / 2)) half, odd, bit_and-ones k (x / 2))
    ∙ sym (mod-double x (2 ^ k) (pow_pos k))
    ∙ ap (λ p. x % p) (sym (pow-suc 2 k))
  where
    ones : 2 ^ suc k - 1 ≡ 2 ^ k * 2 - 1
    ones = ap (λ p. p - 1) (pow-suc 2 k)

    half : (2 ^ k * 2 - 1) / 2 ≡ 2 ^ k - 1
    half = omega (arith, pow_pos k)

    odd : (2 ^ k * 2 - 1) % 2 ≡ 1
    odd = omega (arith, pow_pos k)

-- `k` zeros at the end of a mask.
pub bit_and-shifted : (k x y : ℕ) → bit_and x (y * 2 ^ k) ≡ bit_and (x / 2 ^ k) y * 2 ^ k
bit_and-shifted zero x y = ap (bit_and x) once ∙ ap (λ z. bit_and z y) undivided ∙ sym unscaled
  where
    once : y * 2 ^ 0 ≡ y
    once = omega arith

    undivided : x ≡ x / 2 ^ 0
    undivided = omega arith

    unscaled : bit_and (x / 2 ^ 0) y * 2 ^ 0 ≡ bit_and (x / 2 ^ 0) y
    unscaled = omega arith
bit_and-shifted (suc k) x y =
    ap (bit_and x) even
    ∙ bit_and-halves x (y * 2 ^ k * 2)
    ∙ halved
    ∙ ap (λ z. z * 2) (bit_and-shifted k (x / 2) y)
    ∙ ap (λ z. bit_and z y * 2 ^ k * 2) divided
    ∙ scaled (bit_and (x / 2 ^ suc k) y)
  where
    even : y * 2 ^ suc k ≡ y * 2 ^ k * 2
    even = ap (λ p. y * p) (pow-suc 2 k) ∙ omega arith

    halved :
        bit_and (x / 2) (y * 2 ^ k * 2 / 2) * 2 + min (x % 2) (y * 2 ^ k * 2 % 2)
        ≡ bit_and (x / 2) (y * 2 ^ k) * 2
    halved = omega (arith, ap (bit_and (x / 2)) whole)
      where
        whole : y * 2 ^ k * 2 / 2 ≡ y * 2 ^ k
        whole = omega arith

    divided : x / 2 / 2 ^ k ≡ x / 2 ^ suc k
    divided = div-div-eq-div-mul x 2 (2 ^ k) ∙ ap (λ p. x / p) (sym (pow-succ' 2 k))

    scaled : (z : ℕ) → z * 2 ^ k * 2 ≡ z * 2 ^ suc k
    scaled z = omega arith ∙ ap (λ p. z * p) (sym (pow-suc 2 k))

pow_add : (j d : ℕ) → 2 ^ (j + d) ≡ 2 ^ d * 2 ^ j
pow_add j zero = ap (λ n. 2 ^ n) same ∙ once (2 ^ j)
  where
    same : j + 0 ≡ j
    same = omega arith

    once : (x : ℕ) → x ≡ 1 * x
    once x = omega arith
pow_add j (suc d) =
    ap (λ n. 2 ^ n) next
    ∙ pow-suc 2 (j + d)
    ∙ ap (λ p. p * 2) (pow_add j d)
    ∙ regroup (2 ^ d) (2 ^ j)
    ∙ ap (λ p. p * 2 ^ j) (sym (pow-suc 2 d))
  where
    next : j + suc d ≡ suc (j + d)
    next = omega arith

    regroup : (x y : ℕ) → x * y * 2 ≡ x * 2 * y
    regroup x y = omega arith

-- The complement of a mask of `j` ones, among `w` bits, rounds down to a multiple of 2 ^ j.
pub bit_and-complement :
    (w j x : ℕ) → j ≤ w → x < 2 ^ w → bit_and x (2 ^ w - 1 - (2 ^ j - 1)) ≡ x / 2 ^ j * 2 ^ j
bit_and-complement w j x hj hx =
    ap (bit_and x) high
    ∙ bit_and-shifted j x (2 ^ (w - j) - 1)
    ∙ ap (λ z. z * 2 ^ j) (bit_and-ones (w - j) (x / 2 ^ j) ∙ mod-eq_of_lt small)
  where
    whole : 2 ^ w ≡ 2 ^ (w - j) * 2 ^ j
    whole = ap (λ n. 2 ^ n) parts ∙ pow_add j (w - j)
      where
        parts : w ≡ j + (w - j)
        parts = omega arith

    high : 2 ^ w - 1 - (2 ^ j - 1) ≡ (2 ^ (w - j) - 1) * 2 ^ j
    high =
        ap (λ p. p - 1 - (2 ^ j - 1)) whole
        ∙ less_one (2 ^ (w - j)) (2 ^ j) (pow_pos (w - j)) (pow_pos j)
      where
        less_one : (x y : ℕ) → 0 < x → 0 < y → x * y - 1 - (y - 1) ≡ (x - 1) * y
        less_one zero y hx hy = absurd (omega arith)
        less_one (suc x) y hx hy = grind arith

    small : x / 2 ^ j < 2 ^ (w - j)
    small = (div-lt_iff_lt-mul (pow_pos j)).1 (omega (arith, whole))
