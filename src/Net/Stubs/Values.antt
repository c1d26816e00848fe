-- ===== src/Net/Stubs/Values.antt =====
-- Which numbers an OCaml value carries through `Val_int` and `Int_val`, and what that does to the
-- addresses that go from `ocaml_dns_resolve` to `ocaml_tcp_connect`.
use pico_ocaml.Prelude.{
  ℕ, ◌+◌, ◌*◌, ◌^◌, ◌≤◌, ◌<◌, ◌≡◌, ◌↔◌, ◌⊎◌, ◌-◌, some, arith, get_elem?, ◌∷◌, set, if◌then◌else◌,
}
use pico_ocaml.Prelude.Int.{pos}
use pico_ocaml.Net.World.{World, Call}
use pico_ocaml.Net.State.{max_sockets, eq_ℤ, minus_one, SocketState, Proto, Socket, Net}
use pico_ocaml.Net.Tcp.{pico_tcp_connect}
use pico_ocaml.Prelude.Value.{val_int, int_val}
use pico_ocaml.Net.Stubs.{sock_of, port_of, val_of, ocaml_tcp_connect}

int_val-val_int :
    (x : ℕ) → x < 2 ^ 32 → (int_val (val_int x) ≡ x) ↔ ((x < 2 ^ 30) ⊎ (2 ^ 32 - 2 ^ 30 ≤ x))
int_val-val_int x h = (λ e. ground arith, λ c. ground arith)

-- lwIP's `a.b.c.d`, in network order on the little-endian target
abbrev pub address : (a b c d : ℕ) → ℕ
address a b c d = a + b * 2 ^ 8 + c * 2 ^ 16 + d * 2 ^ 24

-- An IPv4 address survives as an OCaml integer exactly if its last number is below 64 or at
-- least 192: of `a.b.c.d`, in bytes, `Val_int` loses the top bit and `Int_val` copies the next.
int_val-address :
    (a b c d : ℕ)
    → a < 256
    → b < 256
    → c < 256
    → d < 256
    → (int_val (val_int (address a b c d)) ≡ address a b c d) ↔ ((d < 64) ⊎ (192 ≤ d))
int_val-address a b c d ha hb hc hd =
    let (there, back) = int_val-val_int (address a b c d) (omega arith) in
    (λ e. ground (arith, there e), λ k. back (ground arith))

sock_of-val_int : (i : ℕ) → i < max_sockets → sock_of (val_int i) ≡ pos i
sock_of-val_int i h = ground arith

pub sock_of-val_of : (i : ℕ) → i < max_sockets → sock_of (val_of (pos i)) ≡ pos i
sock_of-val_of i h = ground arith

-- The state after a TCP socket with the pcb `h` was told to connect.
abbrev pub after_connect : Net → ℕ → Socket → ℕ → (ip port : ℕ) → Net
after_connect n i s h ip port = record n {
  sockets = set n.sockets i (record s { state = SocketState.connecting });
  trace = Call.lwip_end ∷ Call.tcp_connect h ip port ∷ Call.lwip_begin ∷ n.trace;
}

-- `ocaml_tcp_connect` of a TCP socket with a pcb, given the address that `ocaml_dns_resolve` made
-- an OCaml value of, returns, marks the socket as connecting and asks lwIP for a connection; it
-- is to the address that was resolved if and only if the last number of that is below 64 or at
-- least 192.
pub ocaml_tcp_connect-resolved :
    (w : World) (n : Net) (i : ℕ) (s : Socket) (h a b c d port : ℕ)
    → i < max_sockets
    → get_elem? n.sockets i ≡ some s
    → s.proto ≡ Proto.tcp
    → s.pcb ≡ some h
    → a < 256
    → b < 256
    → c < 256
    → d < 256
    → (ip r : ℕ) × (ocaml_tcp_connect w (val_int i) (val_int (address a b c d)) (val_int port) n
        ≡ some (r, after_connect n i s h ip (port_of (val_int port))))
      × ((ip ≡ address a b c d) ↔ ((d < 64) ⊎ (192 ≤ d)))
unfolding ocaml_tcp_connect pico_tcp_connect
ocaml_tcp_connect-resolved w n i s h a b c d port lt at p e ha hb hc hd = (
  int_val (val_int (address a b c d)),
  val_of
      (if eq_ℤ (w.connect_result (Call.lwip_begin ∷ n.trace)) w.err_ok then pos 0 else minus_one),
  ground (arith, lt, at, p, e, sock_of-val_int i),
  int_val-address a b c d ha hb hc hd,
)
