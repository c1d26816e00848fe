-- ===== src/Net/Tests/Texts.antt =====
-- An address as text: here its four bytes, each one more, for want of a decimal parser. It keeps
-- the laws.
use pico_ocaml.Prelude.{
  ℕ, ◌+◌, ◌-◌, ◌/◌, ◌%◌, ◌^◌, ◌<◌, ◌≡◌, Option, none, some, List, [], ◌∷◌, arith,
}
use pico_ocaml.Net.Stubs.Values.{address}
use pico_ocaml.Net.Stubs.Addresses.{c_string, AddressText}

abbrev pub four_bytes : ℕ → List ℕ
four_bytes ip =
    (ip % 256 + 1) ∷ (ip / 256 % 256 + 1) ∷ (ip / 65536 % 256 + 1) ∷ (ip / 16777216 + 1) ∷ []

abbrev pub of_bytes : List ℕ → Option ℕ
of_bytes (a ∷ b ∷ c ∷ d ∷ []) = some (address (a - 1) (b - 1) (c - 1) (d - 1))
of_bytes _ = none

pub four_bytes-string : (ip : ℕ) → c_string (four_bytes ip) ≡ four_bytes ip
four_bytes-string ip = ground arith

pub of_bytes-four_bytes : (ip : ℕ) → ip < 2 ^ 32 → of_bytes (four_bytes ip) ≡ some ip
of_bytes-four_bytes ip h = ground arith

abbrev pub texts : AddressText
texts = record {
  aton = of_bytes;
  ntoa = four_bytes;
  ntoa_length = λ ip h. omega arith;
  ntoa_string = λ ip h. four_bytes-string ip;
  aton_ntoa = of_bytes-four_bytes;
}
