-- ===== src/Net/Acts.antt =====
-- net_stubs.c as a whole: the calls that OCaml makes, and the callbacks that lwIP makes between
-- them and in the polls of a wait.
use pico_ocaml.Prelude.{
  ℕ, ◌≡◌, Option, none, some, List, is_some, true, Bool, ◌<◌, ◌^◌, length, map, get_elem?, [], ◌∷◌,
  if◌then◌else◌,
}
use pico_ocaml.Prelude.Int.{ℤ, pos, negsuc}
use pico_ocaml.Net.Stubs.Addresses.{AddressText, ip_from_string, ip_to_string}
use pico_ocaml.Queue.{net_event_get}
use pico_ocaml.Net.World.{World}
use pico_ocaml.Net.State.{Net, M, pure, ◌>>=◌, ◌>>◌}
use pico_ocaml.Net.Safety.{At}
use pico_ocaml.Net.Socket.{net_init}
use pico_ocaml.Net.Tcp.{
  tcp_recv_callback, tcp_sent_callback, tcp_err_callback, tcp_connected_callback, pico_tcp_create,
  pico_tcp_connect, pico_tcp_write, pico_tcp_read, pico_tcp_close,
}
use pico_ocaml.Net.Udp.{
  udp_recv_callback, pico_udp_create, pico_udp_bind, pico_udp_sendto, pico_udp_recvfrom,
  pico_udp_close,
}
use pico_ocaml.Net.Dns.{
  dns_resolve, wifi_connect, wifi_disconnect, wifi_is_connected, wifi_get_ip, net_poll,
}

-- A callback of lwIP with its arguments.
pub data Callback : Type 0 where
  on_recv : (arg : ℤ) → (tpcb : ℕ) → Option (List ℕ) → (err : ℤ) → Callback
  on_sent : (arg : ℤ) → (len : ℕ) → Callback
  on_err on_connected : (arg err : ℤ) → Callback
  on_datagram : (arg : ℤ) → Option (List ℕ) → (addr port : ℕ) → Callback

-- A call with its arguments: the functions of net_stubs.h, and a callback that comes between
-- them. With `dns` come the callbacks that the polls of its wait run, poll by poll, and with
-- `wifi_on` those that come while the driver connects.
pub data Act : Type 0 where
  init poll event_get wifi_off wifi_up wifi_ip : Act
  wifi_on : (ssid password : List ℕ) → (timeout_ms : ℕ) → (meanwhile : List Callback) → Act
  dns : (hostname : List ℕ) → (polled : List (List Callback)) → Act
  tcp_create udp_create : Act
  tcp_connect : ℤ → (ip port : ℕ) → Act
  tcp_write : ℤ → List ℕ → Act
  tcp_read udp_recvfrom : ℤ → (max_len : ℕ) → Act
  tcp_close udp_close : ℤ → Act
  udp_bind : ℤ → (port : ℕ) → Act
  udp_sendto : ℤ → (ip port : ℕ) → List ℕ → Act
  from_string : List ℕ → Act
  to_string : (ip buf_len : ℕ) → Act
  callback : Callback → Act

-- The result of a call does not matter to the state.
abbrev pub drop_result : {A : Type 0} → M A → M (Unit {0})
drop_result m = m >>= λ _. pure tt

-- `net_event_get` on the state
abbrev pub get_event : M (Unit {0})
get_event n = some (tt, record n { queue = (net_event_get n.queue).2 })

unfoldable pub call_back : World → Callback → M (Unit {0})
call_back w (Callback.on_recv arg tpcb p err) = drop_result (tcp_recv_callback w arg tpcb p err)
call_back w (Callback.on_sent arg len) = drop_result (tcp_sent_callback w arg len)
call_back w (Callback.on_err arg err) = tcp_err_callback arg err
call_back w (Callback.on_connected arg err) = drop_result (tcp_connected_callback w arg err)
call_back w (Callback.on_datagram arg p addr port) = udp_recv_callback arg p addr port

unfoldable pub has_pcb : Net → ℤ → Bool
has_pcb n (negsuc i) = true
has_pcb n (pos i) = elim (get_elem? n.sockets i) [ none ↦ true | some s ↦ is_some s.pcb ]

-- lwIP hands data only to a socket that has a pcb.
unfoldable pub can_come : Net → Callback → Bool
unfolding has_pcb
can_come n (Callback.on_recv arg tpcb (some p) err) = has_pcb n arg
can_come n (Callback.on_datagram arg (some p) addr port) = has_pcb n arg
can_come n cb = true

-- The callbacks of one poll: those of a list that lwIP can make.
unfoldable pub polled_callbacks : World → List Callback → M (Unit {0})
unfolding can_come call_back
polled_callbacks w [] n = some (tt, n)
polled_callbacks w (cb ∷ cbs) n =
    (if can_come n cb then call_back w cb >> polled_callbacks w cbs else polled_callbacks w cbs) n

unfoldable pub perform : World → AddressText → Act → M (Unit {0})
unfolding call_back polled_callbacks
perform w L Act.init = net_init
perform w L Act.poll = net_poll
perform w L Act.event_get = get_event
perform w L Act.wifi_off = wifi_disconnect
perform w L Act.wifi_up = drop_result (wifi_is_connected w)
perform w L Act.wifi_ip = drop_result (wifi_get_ip w)
perform w L (Act.wifi_on ssid password timeout_ms meanwhile) =
    drop_result (wifi_connect w (polled_callbacks w meanwhile) ssid password timeout_ms)
perform w L (Act.dns hostname polled) =
    drop_result (dns_resolve w (map (polled_callbacks w) polled) hostname)
perform w L Act.tcp_create = drop_result (pico_tcp_create w)
perform w L Act.udp_create = drop_result (pico_udp_create w)
perform w L (Act.tcp_connect id ip port) = drop_result (pico_tcp_connect w id ip port)
perform w L (Act.tcp_write id bytes) = drop_result (pico_tcp_write w id bytes)
perform w L (Act.tcp_read id max_len) = drop_result (pico_tcp_read id max_len)
perform w L (Act.udp_recvfrom id max_len) = drop_result (pico_udp_recvfrom id max_len)
perform w L (Act.tcp_close id) = pico_tcp_close id
perform w L (Act.udp_close id) = pico_udp_close id
perform w L (Act.udp_bind id port) = drop_result (pico_udp_bind w id port)
perform w L (Act.udp_sendto id ip port bytes) = drop_result (pico_udp_sendto w id ip port bytes)
perform w L (Act.from_string ip_str) = drop_result (pure (ip_from_string L ip_str))
perform w L (Act.to_string ip buf_len) = drop_result (pure (ip_to_string L ip buf_len))
perform w L (Act.callback cb) = call_back w cb

-- A socket that was closed with data in its buffer is not read before its slot is given out
-- again; a datagram to send has at most 65535 bytes; and lwIP hands data only to a socket that
-- has a pcb.
abbrev pub IsLegal : Net → Act → Type 0
IsLegal n (Act.tcp_read id max_len) = At (λ s. (s.recv_buf ≡ none) → s.recv_len ≡ 0) n id
IsLegal n (Act.udp_recvfrom id max_len) = At (λ s. (s.recv_buf ≡ none) → s.recv_len ≡ 0) n id
IsLegal n (Act.udp_sendto id ip port bytes) = length bytes < 2 ^ 16
IsLegal n (Act.callback cb) = can_come n cb ≡ true
IsLegal n _ = Unit {0}
