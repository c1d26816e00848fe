-- ===== src/Console.antt =====
-- Decimal and hexadecimal output of ocaml_stubs.c and pico_main.c: `raw_putint`, its copy without
-- the lock, `raw_puthex_unsafe`, `pico_print_int` and `pico_print_string`. A function's result is
-- what it puts out, as ASCII codes; the delays are left out.
pub mod Digits
pub mod RoundTrip
pub mod Lock
pub mod Tests
use pico_ocaml.Prelude.{
  ℕ, zero, suc, ◌+◌, ◌-◌, ◌*◌, ◌/◌, ◌%◌, ◌^◌, Bool, true, false, Option, none, some, List, [], ◌∷◌,
  ◌++◌, take, length, ltb, leb, ◌==◌, if◌then◌else◌, get_or,
}
use pico_ocaml.Prelude.Int.{ℤ, pos, negsuc, of_word}

-- `while (n > 0) { buf[i++] = '0' + (n % 10); n /= 10; }`: the buffer, last digit first. A number
-- takes at most as many rounds as it has binary digits, which is what the fuel is.
pub digit_loop : (fuel : ℕ) → ℕ → List ℕ
digit_loop zero n = []
digit_loop (suc fuel) n =
    let rest = digit_loop fuel (n / 10) in if ltb 0 n then (b'0' + n % 10) ∷ rest else []

abbrev pub int_bits : ℕ
int_bits = 32

-- `while (i > 0) putchar(buf[--i]);` puts the buffer out backwards.
pub backwards : List ℕ → List ℕ → List ℕ
backwards [] out = out
backwards (c ∷ buf) out = backwards buf (c ∷ out)

-- The digits of the number that is left after the sign: `n` is the bit pattern of an `int`, whose
-- loop does not run if it is negative.
pub put_positive : ℕ → List ℕ
put_positive n =
    if n == 0
    then b'0' ∷ []
    else if ltb n (2 ^ 31)
    then backwards (digit_loop int_bits n) []
    else []

-- `n = -n` on the bit pattern of an `int`, which wraps for the least.
abbrev pub negate : ℕ → ℕ
negate n = (2 ^ 32 - n) % 2 ^ 32

-- `raw_putint` of the `int` with bit pattern `n`.
pub raw_putint : ℕ → List ℕ
raw_putint n = if ltb n (2 ^ 31) then put_positive n else b'-' ∷ put_positive (negate n)

unfoldable raw_putint_unsafe : ℕ → List ℕ
raw_putint_unsafe n = if ltb n (2 ^ 31) then put_positive n else b'-' ∷ put_positive (negate n)

-- `pico_print_int` collects the same text in `buf` before it puts it out.
pub pico_print_int : ℕ → List ℕ
pico_print_int n =
    let sign = (if ltb n (2 ^ 31) then [] else b'-' ∷ []) in
    sign ++ put_positive (if ltb n (2 ^ 31) then n else negate n)

abbrev hex_digits : List ℕ
hex_digits =
    b'0' ∷ b'1' ∷ b'2' ∷ b'3' ∷ b'4' ∷ b'5' ∷ b'6' ∷ b'7' ∷ b'8' ∷ b'9' ∷ b'a' ∷ b'b' ∷ b'c' ∷ b'd'
    ∷ b'e' ∷ b'f' ∷ []

-- `hex[(n >> i) & 0xf]` for i = 4 * (places - 1), down to 0
hex_loop : (places : ℕ) → ℕ → List ℕ
hex_loop zero n = []
hex_loop (suc places) n = get_or hex_digits (n / 16 ^ places % 16) 0 ∷ hex_loop places n

unfoldable raw_puthex_unsafe : ℕ → List ℕ
unfolding hex_loop
raw_puthex_unsafe n = b'0' ∷ b'x' ∷ hex_loop 8 n

-- `while (*p) putchar_raw(*p++);`: up to the first NUL.
put_until_nul : List ℕ → List ℕ
put_until_nul [] = []
put_until_nul (c ∷ cs) = if c == 0 then [] else c ∷ put_until_nul cs

-- `while (*s) { putchar_raw(*s++); … }`
unfoldable raw_puts_unsafe : List ℕ → List ℕ
unfolding put_until_nul
raw_puts_unsafe s = put_until_nul s

-- `print_buf` holds 128 bytes.
pico_print_string : List ℕ → List ℕ
unfolding put_until_nul
pico_print_string s =
    let len = if ltb 127 (length s) then 127 else length s in put_until_nul (take len s ++ (0 ∷ []))

unfoldable pico_print : List ℕ → List ℕ
unfolding pico_print_string
pico_print s = pico_print_string s ++ (13 ∷ 10 ∷ [])
