-- ===== src/Net/Run.antt =====
-- Any sequence of calls from OCaml and of callbacks from lwIP, which come between them.
use pico_ocaml.Prelude.{
  ◌≡◌, refl, none, some, List, is_some, true, subst, map, [], ◌∷◌, Bool-cases, inl, inr, arith,
}
use pico_ocaml.Prelude.Int.{ℤ, pos, negsuc}
use pico_ocaml.Net.Stubs.Addresses.{AddressText}
use pico_ocaml.Net.Dns.Wait.{KeepsIt, AllKeep}
use pico_ocaml.Net.Acts.{
  Callback, Act, drop_result, call_back, has_pcb, can_come, polled_callbacks, perform, IsLegal,
}
use pico_ocaml.Queue.{net_event_get}
use pico_ocaml.Queue.Inv.{empty_queue-IsQueue, net_event_get-IsQueue}
use pico_ocaml.Net.World.{World}
use pico_ocaml.Net.State.{max_sockets, Net, boot, M, pure, bind-some}
use pico_ocaml.Net.Safety.{IsNet, At, Returns}
use pico_ocaml.Net.Socket.Keeps.{zero_sockets-AllSound, Keeps-net_init}
use pico_ocaml.Net.Tcp.{
  tcp_recv_callback, tcp_sent_callback, tcp_connected_callback, pico_tcp_create, pico_tcp_connect,
  pico_tcp_write, pico_tcp_read,
}
use pico_ocaml.Net.Tcp.Keeps.{
  Keeps-pico_tcp_connect, Keeps-pico_tcp_write, Keeps-pico_tcp_close, Keeps-tcp_sent_callback,
  Keeps-tcp_err_callback, Keeps-tcp_connected_callback, Keeps-tcp_recv_closed,
}
use pico_ocaml.Net.Tcp.Moves.{tcp_recv_callback-IsNet, pico_tcp_read-IsNet}
use pico_ocaml.Net.Udp.{pico_udp_create, pico_udp_bind, pico_udp_sendto, pico_udp_recvfrom}
use pico_ocaml.Net.Udp.Keeps.{Keeps-pico_udp_bind, Keeps-pico_udp_sendto, Keeps-pico_udp_close}
use pico_ocaml.Net.Udp.Moves.{Keeps-udp_recv_none, udp_recv_callback-IsNet, pico_udp_recvfrom-IsNet}
use pico_ocaml.Net.Create.Keeps.{Keeps-pico_tcp_create, Keeps-pico_udp_create}
use pico_ocaml.Net.Dns.{dns_resolve, wifi_connect, wifi_is_connected, wifi_get_ip}
use pico_ocaml.Net.Dns.Keeps.{
  Keeps-dns_resolve, Keeps-wifi_connect, Keeps-wifi_disconnect, Keeps-wifi_is_connected,
  Keeps-wifi_get_ip, Keeps-net_poll,
}

dropped :
    {A : Type 0} (m : M A) (n : Net)
    → Returns (λ a. Unit {0}) m n
    → Returns (λ a. Unit {0}) (drop_result m) n
dropped m n (a, n', e, v, h) = (tt, n', bind-some m (λ _. pure tt) e, v, tt)

pcb_At : (n : Net) (arg : ℤ) → has_pcb n arg ≡ true → At (λ s. is_some s.pcb ≡ true) n arg
unfolding has_pcb
pcb_At n (negsuc i) h = tt
pcb_At n (pos i) h = λ s at. ground (arith, at, h)

call_back-IsNet :
    (w : World) (cb : Callback) (n : Net)
    → IsNet n
    → can_come n cb ≡ true
    → Returns (λ u. Unit {0}) (call_back w cb) n
unfolding call_back can_come
call_back-IsNet w (Callback.on_recv arg tpcb none err) n v l =
    dropped (tcp_recv_callback w arg tpcb none err) n (Keeps-tcp_recv_closed w arg tpcb err n v)
call_back-IsNet w (Callback.on_recv arg tpcb (some p) err) n v l =
    dropped (tcp_recv_callback w arg tpcb (some p) err) n
      (tcp_recv_callback-IsNet w arg tpcb p err n v (pcb_At n arg l))
call_back-IsNet w (Callback.on_sent arg len) n v l =
    dropped (tcp_sent_callback w arg len) n (Keeps-tcp_sent_callback w arg len n v)
call_back-IsNet w (Callback.on_err arg err) n v l = Keeps-tcp_err_callback arg err n v
call_back-IsNet w (Callback.on_connected arg err) n v l =
    dropped (tcp_connected_callback w arg err) n (Keeps-tcp_connected_callback w arg err n v)
call_back-IsNet w (Callback.on_datagram arg none addr port) n v l =
    Keeps-udp_recv_none arg addr port n v
call_back-IsNet w (Callback.on_datagram arg (some p) addr port) n v l =
    udp_recv_callback-IsNet arg p addr port n v (pcb_At n arg l)

polled-IsNet : (w : World) (cbs : List Callback) → KeepsIt IsNet (polled_callbacks w cbs)
unfolding polled_callbacks
polled-IsNet w [] n v = (n, refl, v)
polled-IsNet w (cb ∷ cbs) n v = elim (Bool-cases (can_come n cb)) [
  | inl comes ↦
      let (u, n1, e, v1, h) = call_back-IsNet w cb n v comes in
      let (n2, e', v2) = polled-IsNet w cbs n1 v1 in (n2, ground (arith, comes, e, e'), v2)
  | inr stays ↦ let (n2, e', v2) = polled-IsNet w cbs n v in (n2, ground (arith, stays, e'), v2)
]

polled-keep :
    (w : World) (polled : List (List Callback)) → AllKeep IsNet (map (polled_callbacks w) polled)
polled-keep w [] = tt
polled-keep w (cbs ∷ polled) = (polled-IsNet w cbs, polled-keep w polled)

-- From a sound state every legal call returns, in a sound state.
perform-IsNet :
    (w : World) (L : AddressText) (a : Act) (n : Net)
    → IsNet n
    → IsLegal n a
    → Returns (λ u. Unit {0}) (perform w L a) n
unfolding perform
perform-IsNet w L Act.init n v l = Keeps-net_init n v
perform-IsNet w L Act.poll n v l = Keeps-net_poll n v
perform-IsNet w L Act.event_get n v l = (
  tt,
  record n { queue = (net_event_get n.queue).2 },
  refl,
  record {
    all = v.all;
    sound = v.sound;
    queue = net_event_get-IsQueue v.queue;
    unlocked = v.unlocked;
  },
  tt,
)
perform-IsNet w L Act.wifi_off n v l = Keeps-wifi_disconnect n v
perform-IsNet w L Act.wifi_up n v l =
    dropped (wifi_is_connected w) n (Keeps-wifi_is_connected w n v)
perform-IsNet w L Act.wifi_ip n v l = dropped (wifi_get_ip w) n (Keeps-wifi_get_ip w n v)
perform-IsNet w L (Act.wifi_on ssid password timeout_ms meanwhile) n v l =
    dropped (wifi_connect w (polled_callbacks w meanwhile) ssid password timeout_ms) n (
      Keeps-wifi_connect w (polled_callbacks w meanwhile) ssid password timeout_ms
        (polled-IsNet w meanwhile) n v)
perform-IsNet w L (Act.dns hostname polled) n v l =
    dropped (dns_resolve w (map (polled_callbacks w) polled) hostname) n
      (Keeps-dns_resolve w (map (polled_callbacks w) polled) hostname (polled-keep w polled) n v)
perform-IsNet w L Act.tcp_create n v l = dropped (pico_tcp_create w) n (Keeps-pico_tcp_create w n v)
perform-IsNet w L Act.udp_create n v l = dropped (pico_udp_create w) n (Keeps-pico_udp_create w n v)
perform-IsNet w L (Act.tcp_connect id ip port) n v l =
    dropped (pico_tcp_connect w id ip port) n (Keeps-pico_tcp_connect w id ip port n v)
perform-IsNet w L (Act.tcp_write id bytes) n v l =
    dropped (pico_tcp_write w id bytes) n (Keeps-pico_tcp_write w id bytes n v)
perform-IsNet w L (Act.tcp_read id max_len) n v l =
    dropped (pico_tcp_read id max_len) n (pico_tcp_read-IsNet id max_len n v l)
perform-IsNet w L (Act.udp_recvfrom id max_len) n v l =
    dropped (pico_udp_recvfrom id max_len) n (pico_udp_recvfrom-IsNet id max_len n v l)
perform-IsNet w L (Act.tcp_close id) n v l = Keeps-pico_tcp_close id n v
perform-IsNet w L (Act.udp_close id) n v l = Keeps-pico_udp_close id n v
perform-IsNet w L (Act.udp_bind id port) n v l =
    dropped (pico_udp_bind w id port) n (Keeps-pico_udp_bind w id port n v)
perform-IsNet w L (Act.udp_sendto id ip port bytes) n v l =
    dropped (pico_udp_sendto w id ip port bytes) n (Keeps-pico_udp_sendto w id ip port bytes l n v)
perform-IsNet w L (Act.from_string ip_str) n v l = (tt, n, refl, v, tt)
perform-IsNet w L (Act.to_string ip buf_len) n v l = (tt, n, refl, v, tt)
perform-IsNet w L (Act.callback cb) n v l = call_back-IsNet w cb n v l

-- The states that legal calls lead to from the start.
pub data Reach (w : World) (L : AddressText) : Net → Type 0 where
  at_boot : Reach w L boot
  after :
      (a : Act) {n n' : Net}
      → Reach w L n
      → IsLegal n a
      → perform w L a n ≡ some (tt, n')
      → Reach w L n'

boot-IsNet : IsNet boot
boot-IsNet = record {
  all = refl;
  sound = zero_sockets-AllSound max_sockets;
  queue = empty_queue-IsQueue;
  unlocked = refl;
}

pub reach-IsNet : (w : World) (L : AddressText) {n : Net} → Reach w L n → IsNet n
reach-IsNet w L at_boot = boot-IsNet
reach-IsNet w L (after a {n} {n'} r l e) =
    let (u, n'', e', v, h) = perform-IsNet w L a n (reach-IsNet w L r) l in
    subst IsNet (cc (e, e')) v

-- Whatever calls were made from the start on, each of them legal when it was made, the next legal
-- call, of any function of net_stubs.h or callback, with any callbacks in the polls of a wait for DNS
-- and while the driver connects, goes through no NULL pointer and outside no array or block, waits
-- for no lock, and ends with the eight sockets there, each with a buffer of 4096 bytes of which at
-- most all are received or with neither a buffer nor a pcb, both indices of the event queue in range
-- and the lock free. A call is legal unless it reads a socket that was closed with data not read,
-- sends a datagram of more than 65535 bytes, or is a callback with data for a socket without a pcb.
pub net_safe :
    (w : World) (L : AddressText) (a : Act) {n : Net}
    → Reach w L n
    → IsLegal n a
    → (n' : Net) × (perform w L a n ≡ some (tt, n')) × IsNet n'
net_safe w L a {n} r l =
    let (u, n', e, v, h) = perform-IsNet w L a n (reach-IsNet w L r) l in (n', e, v)
