-- ===== src/Net/Stubs.antt =====
-- net_stubs.c, the functions that OCaml calls: arguments and results are OCaml values, words of 32
-- bits. A string of OCaml is the list of its bytes.
pub mod Values
pub mod Addresses
use pico_ocaml.Prelude.{
  ℕ, ◌+◌, ◌*◌, ◌/◌, ◌%◌, ◌^◌, Bool, Option, none, some, zero, suc, List, [], ◌∷◌, leb, length,
  if◌then◌else◌,
}
use pico_ocaml.Prelude.Int.{ℤ, to_word, of_word}
use pico_ocaml.Prelude.Value.{Value, val_int, int_val, val_unit, val_bool}
use pico_ocaml.Net.World.{World}
use pico_ocaml.Net.State.{M, pure, ◌>>=◌, ◌>>◌}
use pico_ocaml.Net.Tcp.{
  pico_tcp_create, pico_tcp_connect, pico_tcp_write, pico_tcp_read, pico_tcp_close,
}
use pico_ocaml.Net.Udp.{
  pico_udp_create, pico_udp_bind, pico_udp_sendto, pico_udp_recvfrom, pico_udp_close, Datagram,
}
use pico_ocaml.Net.Dns.{
  Others, dns_resolve, wifi_connect, wifi_disconnect, wifi_is_connected, wifi_get_ip, net_poll,
}
use pico_ocaml.Queue.{has_event}

abbrev pub sock_of : Value → ℤ
sock_of v = of_word (int_val v)

-- a `uint16_t` argument
abbrev pub port_of : Value → ℕ
port_of v = int_val v % 2 ^ 16

abbrev pub val_of : ℤ → Value
val_of r = val_int (to_word r)

unfoldable pub ocaml_wifi_connect :
    World → (others : M (Unit {0})) → (ssid password : List ℕ) → (timeout : Value) → M Value
ocaml_wifi_connect w others ssid password timeout = do
  result ← wifi_connect w others ssid password (int_val timeout)
  pure (val_of result)

unfoldable pub ocaml_wifi_disconnect : M Value
ocaml_wifi_disconnect = do wifi_disconnect; pure val_unit

unfoldable pub ocaml_wifi_is_connected : World → M Value
ocaml_wifi_is_connected w = do joined ← wifi_is_connected w; pure (val_bool joined)

unfoldable pub ocaml_wifi_get_ip : World → M Value
ocaml_wifi_get_ip w = do ip ← wifi_get_ip w; pure (val_int ip)

unfoldable pub ocaml_net_poll : M Value
unfolding net_poll
ocaml_net_poll = do net_poll; pure val_unit

unfoldable pub ocaml_tcp_create : World → M Value
ocaml_tcp_create w = do sock ← pico_tcp_create w; pure (val_of sock)

unfoldable pub ocaml_tcp_connect : World → (sock ip port : Value) → M Value
ocaml_tcp_connect w sock ip port = do
  r ← pico_tcp_connect w (sock_of sock) (int_val ip) (port_of port)
  pure (val_of r)

-- `len` bytes of memory from a pointer on; a byte sequence is given by the memory at its start.
abbrev pub block_at : (bytes : ℕ → ℕ) → (len : ℕ) → List ℕ
block_at bytes zero = []
block_at bytes (suc len) = bytes 0 ∷ block_at (λ i. bytes (suc i)) len

unfoldable pub ocaml_tcp_write : World → (sock : Value) → (bytes : ℕ → ℕ) → (len : Value) → M Value
ocaml_tcp_write w sock bytes len = do
  r ← pico_tcp_write w (sock_of sock) (block_at bytes (int_val len))
  pure (val_of r)

-- With the bytes written to `buf`.
unfoldable pub ocaml_tcp_read : (sock max_len : Value) → M (Value × List ℕ)
ocaml_tcp_read sock max_len = do
  (got, out) ← pico_tcp_read (sock_of sock) (int_val max_len)
  pure (val_of got, out)

unfoldable pub ocaml_tcp_close : (sock : Value) → M Value
ocaml_tcp_close sock = do pico_tcp_close (sock_of sock); pure val_unit

unfoldable pub ocaml_udp_create : World → M Value
ocaml_udp_create w = do sock ← pico_udp_create w; pure (val_of sock)

unfoldable pub ocaml_udp_bind : World → (sock port : Value) → M Value
ocaml_udp_bind w sock port = do r ← pico_udp_bind w (sock_of sock) (port_of port); pure (val_of r)

unfoldable pub ocaml_udp_sendto :
    World → (sock ip port : Value) → (bytes : ℕ → ℕ) → (len : Value) → M Value
ocaml_udp_sendto w sock ip port bytes len = do
  r ← pico_udp_sendto w (sock_of sock) (int_val ip) (port_of port) (block_at bytes (int_val len))
  pure (val_of r)

-- With the bytes written to `buf`; the sender is dropped.
unfoldable pub ocaml_udp_recvfrom : (sock : Value) → (buf : List ℕ) → M (Value × List ℕ)
ocaml_udp_recvfrom sock buf = do
  (got, d) ← pico_udp_recvfrom (sock_of sock) (length buf)
  pure (val_of got, d.bytes)

unfoldable pub ocaml_udp_close : (sock : Value) → M Value
ocaml_udp_close sock = do pico_udp_close (sock_of sock); pure val_unit

-- `ip` is set whenever the code is 0.
unfoldable pub ocaml_dns_resolve : World → Others → (hostname : List ℕ) → M Value
ocaml_dns_resolve w others hostname = do
  (code, ip) ← dns_resolve w others hostname
  pure (elim ip [ none ↦ val_int 0 | some a ↦ val_int a ])

unfoldable pub ocaml_net_has_event : M Value
ocaml_net_has_event n = some (val_bool (has_event n.queue), n)

unfoldable pub ocaml_lwip_service : M Value
unfolding net_poll
ocaml_lwip_service = do net_poll; pure val_unit
