-- ===== src/Netif.antt =====
-- netif.ml, the text of an address; the rest of it names functions of Net/Stubs. An `int` of
-- OCaml has 31 bits: a value without its lowest bit.
mod Tests
use pico_ocaml.Prelude.{
  ℕ, ◌+◌, ◌-◌, ◌*◌, ◌/◌, ◌%◌, ◌^◌, ◌<◌, ◌≡◌, ◌↔◌, refl, sym, ap, ◌∙◌, List, [], ◌∷◌, ◌++◌, ltb,
  arith, if◌then◌else◌,
}
use pico_ocaml.Prelude.Value.{Value, val_int}
use pico_ocaml.Net.Stubs.Values.{address}

-- `string_of_int`, of a number of at most three digits
pub string_of_int : ℕ → List ℕ
string_of_int n =
    if ltb n 10
    then (48 + n) ∷ []
    else if ltb n 100
    then (48 + n / 10) ∷ (48 + n % 10) ∷ []
    else (48 + n / 100) ∷ (48 + n / 10 % 10) ∷ (48 + n % 10) ∷ []

-- `(ip lsr k) land 0xff`
abbrev octet : (ip : Value) → (two_to_k : ℕ) → ℕ
octet ip p = ip / 2 / p % 256

-- four numbers with dots between them
pub dotted : (b0 b1 b2 b3 : ℕ) → List ℕ
unfolding string_of_int
dotted b0 b1 b2 b3 =
    string_of_int b0
    ++ (b'.' ∷ (string_of_int b1 ++ (b'.' ∷ (string_of_int b2 ++ (b'.' ∷ string_of_int b3)))))

pub ip_to_string : (ip : Value) → List ℕ
ip_to_string ip = dotted (octet ip 1) (octet ip (2 ^ 8)) (octet ip (2 ^ 16)) (octet ip (2 ^ 24))

-- A text read back as a number.
number : List ℕ → ℕ
number (x ∷ []) = x - 48
number (x ∷ y ∷ []) = (x - 48) * 10 + (y - 48)
number (x ∷ y ∷ z ∷ []) = ((x - 48) * 10 + (y - 48)) * 10 + (z - 48)
number _ = 0

number-string_of_int : (n : ℕ) → n < 1000 → number (string_of_int n) ≡ n
unfolding number string_of_int
number-string_of_int n h = ground arith

drop_common : (xs ys zs : List ℕ) → xs ++ ys ≡ xs ++ zs → ys ≡ zs
drop_common [] ys zs e = e
drop_common (x ∷ xs) ys zs e = drop_common xs ys zs (ground (arith, e))

dotted-last :
    (b0 b1 b2 b3 b3' : ℕ)
    → dotted b0 b1 b2 b3 ≡ dotted b0 b1 b2 b3'
    → string_of_int b3 ≡ string_of_int b3'
unfolding dotted
dotted-last b0 b1 b2 b3 b3' e =
    let e1 = drop_common (string_of_int b0) _ _ e in
    let e2 = drop_common (b'.' ∷ string_of_int b1) _ _ e1 in
    let e3 = drop_common (b'.' ∷ string_of_int b2) _ _ e2 in drop_common (b'.' ∷ []) _ _ e3

octets-address :
    (a b c d : ℕ)
    → a < 256
    → b < 256
    → c < 256
    → d < 256
    → ip_to_string (val_int (address a b c d)) ≡ dotted a b c (d % 128)
unfolding ip_to_string
octets-address a b c d ha hb hc hd = λ i. dotted (first i) (second i) (third i) (fourth i)
  where
    v : ℕ
    v = val_int (address a b c d)

    first : octet v 1 ≡ a
    first = omega arith

    second : octet v (2 ^ 8) ≡ b
    second = omega arith

    third : octet v (2 ^ 16) ≡ c
    third = omega arith

    fourth : octet v (2 ^ 24) ≡ d % 128
    fourth = omega arith

-- The text that `ip_to_string` makes of the address a.b.c.d, as a value from C, is that of a.b.c
-- and the remainder of d by 128; it is that of a.b.c.d if and only if d is less than 128.
pub ip_to_string-address :
    (a b c d : ℕ)
    → a < 256
    → b < 256
    → c < 256
    → d < 256
    → (ip_to_string (val_int (address a b c d)) ≡ dotted a b c (d % 128))
      × ((ip_to_string (val_int (address a b c d)) ≡ dotted a b c d) ↔ (d < 128))
ip_to_string-address a b c d ha hb hc hd =
    let text = octets-address a b c d ha hb hc hd in
    (
      text,
      (
        λ e. omega (
          arith,
          ap number (dotted-last a b c (d % 128) d (sym text ∙ e)),
          number-string_of_int (d % 128) (omega arith),
          number-string_of_int d (omega (arith, hd)),
        ),
        λ small. text ∙ ap (dotted a b c) (omega (arith, small)),
      ),
    )
