-- ===== src/Net/Stubs/Addresses.antt =====
-- net_stubs.c, addresses as text: `ip_from_string` and `ip_to_string`, and the functions that
-- OCaml calls.
use pico_ocaml.Prelude.{
  ℕ, ◌-◌, ◌%◌, ◌^◌, ◌≤◌, ◌<◌, ◌≡◌, ap, ◌∙◌, Option, none, some, List, [], ◌∷◌, arith, ◌==◌,
  if◌then◌else◌, length, take, take_of_le,
}
use pico_ocaml.Prelude.Value.{Value, val_int, int_val}

-- The characters up to the first NUL: `strlen` is their number.
abbrev pub c_string : List ℕ → List ℕ
c_string [] = []
c_string (c ∷ cs) = if c == 0 then [] else c ∷ c_string cs

-- lwIP's `ip4addr_aton` and `ip4addr_ntoa`: `aton` is none for a text that is no address.
pub record AddressText : Type 0 where
  pub aton : List ℕ → Option ℕ
  pub ntoa : ℕ → List ℕ
  -- An address is put out as text of at most 15 characters, without a NUL, that is read as the
  -- same address.
  pub ntoa_length : (ip : ℕ) → ip < 2 ^ 32 → length (ntoa ip) ≤ 15
  pub ntoa_string : (ip : ℕ) → ip < 2 ^ 32 → c_string (ntoa ip) ≡ ntoa ip
  pub aton_ntoa : (ip : ℕ) → ip < 2 ^ 32 → aton (ntoa ip) ≡ some ip

module _ (L : AddressText) where
  pub ip_from_string : List ℕ → ℕ
  ip_from_string ip_str = elim (L.aton ip_str) [ none ↦ 0 | some addr ↦ addr ]

  -- The string in `buf`: `snprintf` writes at most `buf_len - 1` characters and a NUL.
  pub ip_to_string : (ip buf_len : ℕ) → List ℕ
  ip_to_string ip buf_len = take (buf_len - 1) (L.ntoa ip)

  pub ocaml_ip_from_string : List ℕ → Value
  unfolding ip_from_string
  ocaml_ip_from_string ip_str = val_int (ip_from_string ip_str)

  pub ocaml_ip_to_string : Value → List ℕ
  unfolding ip_to_string
  ocaml_ip_to_string ip = c_string (ip_to_string (int_val ip) 16)

  -- The text is not cut off.
  whole : (ip : ℕ) → ip < 2 ^ 32 → c_string (ip_to_string ip 16) ≡ L.ntoa ip
  unfolding ip_to_string
  whole ip h = ap c_string (take_of_le 15 (L.ntoa ip) (L.ntoa_length ip h)) ∙ L.ntoa_string ip h

  -- Every OCaml integer, which is an odd word of 32 bits, is read back as it was from the address
  -- that it is put out as.
  pub ocaml_ip_from_string-ocaml_ip_to_string :
      (ip : Value) → ip < 2 ^ 32 → ip % 2 ≡ 1 → ocaml_ip_from_string (ocaml_ip_to_string ip) ≡ ip
  unfolding ocaml_ip_from_string ocaml_ip_to_string ip_from_string
  ocaml_ip_from_string-ocaml_ip_to_string ip h odd =
      rw (whole (int_val ip) fits, ip_from_string, L.aton_ntoa (int_val ip) fits) (ground arith)
    where
      fits : int_val ip < 2 ^ 32
      fits = ground arith
