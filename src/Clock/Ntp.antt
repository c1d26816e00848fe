-- ===== src/Clock/Ntp.antt =====
-- clock.ml, `ntp_query` over the functions of net_stubs.c.
pub mod Listening
pub mod Datagrams
pub mod Answers
pub mod Times
use pico_ocaml.Net.Dns.{Others}
use pico_ocaml.Prelude.{
  ℕ, zero, suc, ◌∷◌, ◌++◌, ◌==◌, Bool, true, false, Option, none, some, List, [], length, drop,
  replicate, get_elem?, if◌then◌else◌,
}
use pico_ocaml.Prelude.Int.{ℤ, pos}
use pico_ocaml.Prelude.Value.{Value, val_int}
use pico_ocaml.Net.World.{World}
use pico_ocaml.Net.State.{M, pure, ◌>>=◌, ◌>>◌, eq_ℤ}
use pico_ocaml.Net.Udp.{udp_recv_callback}
use pico_ocaml.Net.Stubs.{
  sock_of, ocaml_udp_create, ocaml_udp_bind, ocaml_udp_sendto, ocaml_udp_recvfrom, ocaml_udp_close,
  ocaml_dns_resolve,
}
use pico_ocaml.Pio.{int_of, is_positive, is_negative, service_network}
use pico_ocaml.Clock.{time_of}

pub record Incoming : Type 0 where
  pub bytes : List ℕ
  pub addr : ℕ
  pub port : ℕ

-- The datagrams that lwIP hands over for a socket.
unfoldable pub come : ℤ → List Incoming → M (Unit {0})
come sock_id [] = pure tt
come sock_id (d ∷ ds) = do udp_recv_callback sock_id (some d.bytes) d.addr d.port; come sock_id ds

abbrev pub first_round : List (List Incoming) → List Incoming
first_round [] = []
first_round (ds ∷ rs) = ds

abbrev pub later_rounds : List (List Incoming) → List (List Incoming)
later_rounds [] = []
later_rounds (ds ∷ rs) = rs

-- The bytes of a buffer once `out` was written to its front.
abbrev pub filled : (out buf : List ℕ) → List ℕ
filled out buf = out ++ drop (length out) buf

-- `recv_loop` with `left` rounds to go after this one: whether anything came, and `buf`
-- afterwards. `rs` is what comes before each round, and nothing after its end.
unfoldable pub recv_loop :
    Value → (left : ℕ) → (rs : List (List Incoming)) → (buf : List ℕ) → M (Bool × List ℕ)
unfolding service_network ocaml_udp_recvfrom
recv_loop sock zero rs buf = do
  come (sock_of sock) (first_round rs)
  service_network
  (n, out) ← ocaml_udp_recvfrom sock buf
  pure (is_positive (int_of n), filled out buf)
recv_loop sock (suc left) rs buf = do
  come (sock_of sock) (first_round rs)
  service_network
  (n, out) ← ocaml_udp_recvfrom sock buf
  let again = recv_loop sock left (later_rounds rs) (filled out buf)
  if is_positive (int_of n) then pure (true, filled out buf) else again

-- The time in a buffer; a byte that is not there raises an exception, which gives `None`.
unfoldable pub time_in : List ℕ → Option (ℕ × ℕ × ℕ)
time_in buf = elim (get_elem? buf 40) [
  | none ↦ none
  | some b0 ↦ elim (get_elem? buf 41) [
    | none ↦ none
    | some b1 ↦ elim (get_elem? buf 42) [
      | none ↦ none
      | some b2 ↦ elim (get_elem? buf 43) [ none ↦ none | some b3 ↦ some (time_of b0 b1 b2 b3) ]
    ]
  ]
]

-- "pool.ntp.org"
abbrev pub ntp_host : List ℕ
ntp_host = b'p' ∷ b'o' ∷ b'o' ∷ b'l' ∷ b'.' ∷ b'n' ∷ b't' ∷ b'p' ∷ b'.' ∷ b'o' ∷ b'r' ∷ b'g' ∷ []

-- The 48 bytes of the question.
abbrev pub packet : ℕ → ℕ
packet i = if i == 0 then 0x1B else 0

abbrev pub empty_buf : List ℕ
empty_buf = replicate 48 0

-- From the question to the answer, once the address is known.
unfoldable pub ask_server :
    World → (sock ip : Value) → (rs : List (List Incoming)) → M (Option (ℕ × ℕ × ℕ))
unfolding ocaml_udp_sendto
ask_server w sock ip rs = do
  sent ← ocaml_udp_sendto w sock ip (val_int 123) packet (val_int 48)
  service_network
  (got, buf) ← recv_loop sock 1000 rs empty_buf
  pure (if got then time_in buf else none)

unfoldable pub ntp_query :
    World → (others : Others) → (rs : List (List Incoming)) → M (Option (ℕ × ℕ × ℕ))
unfolding ocaml_udp_create ocaml_udp_bind ocaml_dns_resolve ocaml_udp_close
ntp_query w others rs = do
  sock ← ocaml_udp_create w
  if is_negative (int_of sock) then pure none else do
    bound ← ocaml_udp_bind w sock (val_int 0)
    ip ← ocaml_dns_resolve w others ntp_host
    result ← (if eq_ℤ (int_of ip) (pos 0) then pure none else ask_server w sock ip rs)
    u ← ocaml_udp_close sock
    pure result
