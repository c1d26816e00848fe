-- ===== src/Heap/Align.antt =====
-- `posix_memalign`: the pointer that it returns lies in the block that it asked malloc for.
use pico_ocaml.Prelude.{
  ℕ, ◌+◌, ◌-◌, ◌*◌, ◌/◌, ◌%◌, ◌^◌, ◌≤◌, ◌<◌, ◌≡◌, zero, suc, refl, sym, ap, subst, ◌∙◌, some, arith,
}
use Prim.Native.Nat.{bit_and}
use native.Mathlib.Nat.{div-add-mod, mod-lt, pow-suc, pow-le-pow_right}
use native.Mathlib.Decide.{dec_le}
use pico_ocaml.Prelude.Bits.{bit_and-complement, pow_pos}
use pico_ocaml.Heap.{pointer_size, at_least_pointer, request, round_up, posix_memalign}

align_down_bounds : (x a : ℕ) → 0 < a → (x / a * a ≤ x) × (x < x / a * a + a)
align_down_bounds x a h =
    (omega (arith, div-add-mod x a, mod-lt x h), omega (arith, div-add-mod x a, mod-lt x h))

at_least_pointer_pos : (alignment : ℕ) → 0 < at_least_pointer alignment
at_least_pointer_pos alignment = ground arith

-- The least alignment of a pointer is the second power of two.
at_least_pointer_power :
    (alignment k : ℕ) → alignment ≡ 2 ^ k → (j : ℕ) × (at_least_pointer alignment ≡ 2 ^ j)
at_least_pointer_power alignment zero h = (2, ground (arith, h))
at_least_pointer_power alignment (suc zero) h = (2, ground (arith, h))
at_least_pointer_power alignment (suc (suc k)) h =
    (suc (suc k), ground (arith, h, pow_pos k, pow-suc 2 k, pow-suc 2 (suc k)))

-- The masking in 32 bits of a power of two rounds down.
align_down :
    (a j x : ℕ) → a ≡ 2 ^ j → a < 2 ^ 32 → x < 2 ^ 32 → bit_and x (2 ^ 32 - 1 - (a - 1)) ≡ x / a * a
align_down a j x power small hx =
    subst (λ b. bit_and x (2 ^ 32 - 1 - (b - 1)) ≡ x / b * b) (sym power)
      (bit_and-complement 32 j x (below (dec_le j 32)) hx)
  where
    longer : 33 ≤ j → 2 ^ 33 ≤ 2 ^ j
    longer h = pow-le-pow_right (omega arith) h

    below : Dec (j ≤ 32) → j ≤ 32
    below (yes h) = h
    below (no h) = absurd (omega (arith, power, small, longer (omega arith)))

-- `(length + 7) & ~7`
round_up-bit_and : (n : ℕ) → bit_and ((n + 7) % 2 ^ 32) (2 ^ 32 - 1 - 7) ≡ round_up n
round_up-bit_and n = bit_and-complement 32 3 ((n + 7) % 2 ^ 32) (omega arith) (omega arith)

-- For an alignment that is a power of two, a request that fits in 32 bits, and a block of that size
-- from malloc that lies in the address space: `posix_memalign` returns 0 and a multiple of the
-- alignment (of four, if it is less), with room for a pointer in front of it and for `size` bytes
-- behind it, all inside the block.
pub posix_memalign_lem :
    (alignment size raw k : ℕ)
    → alignment ≡ 2 ^ k
    → size + at_least_pointer alignment + pointer_size < 2 ^ 32
    → raw + request alignment size < 2 ^ 32
    → (p : ℕ) × (posix_memalign alignment (some raw) ≡ (0, some p))
      × ((m : ℕ) × (p ≡ m * at_least_pointer alignment))
      × (raw + pointer_size ≤ p)
      × (p + size ≤ raw + request alignment size)
unfolding posix_memalign request
posix_memalign_lem alignment size raw k power small inside = (
  x / a * a,
  λ i. (0, some (fits i)),
  (x / a, refl),
  omega (arith, bounds, at_least_pointer_pos alignment),
  omega (arith, bounds, at_least_pointer_pos alignment, whole),
)
  where
    a : ℕ
    a = at_least_pointer alignment

    x : ℕ
    x = raw + pointer_size + a - 1

    fits : bit_and ((raw + pointer_size + a - 1) % 2 ^ 32) (2 ^ 32 - 1 - (a - 1)) ≡ x / a * a
    fits =
        ap (λ y. bit_and y (2 ^ 32 - 1 - (a - 1))) whole_sum
        ∙ align_down a aligned.0 x aligned.1 (omega arith) (omega arith)
      where
        whole_sum : (raw + pointer_size + a - 1) % 2 ^ 32 ≡ x
        whole_sum = omega arith

        aligned : (j : ℕ) × (a ≡ 2 ^ j)
        aligned = at_least_pointer_power alignment k power

    whole : request alignment size ≡ size + a + pointer_size
    whole = omega arith

    bounds : (x / a * a ≤ x) × (x < x / a * a + a)
    bounds = align_down_bounds x a (at_least_pointer_pos alignment)
