-- ===== src/Net/Dns.antt =====
-- net_stubs.c, DNS and WiFi.
pub mod Wait
pub mod Keeps
use pico_ocaml.Prelude.{
  ℕ, zero, suc, ◌+◌, Bool, true, false, Option, none, some, List, [], ◌∷◌, ◌==◌, if◌then◌else◌,
}
use pico_ocaml.Prelude.Int.{ℤ, pos}
use pico_ocaml.Queue.{EventType, Payload}
use pico_ocaml.Net.World.{World, Call}
use pico_ocaml.Net.State.{M, pure, ◌>>=◌, ◌>>◌, call, ask, enqueue, minus_one, eq_ℤ}
use pico_ocaml.Net.Socket.{net_init}

-- `addr` is the address that lwIP found, `none` for NULL.
pub dns_callback : Option ℕ → M (Unit {0})
dns_callback none n = some (tt, record n { dns_result_ip = 0; dns_done = true })
dns_callback (some ip) n = some (tt, record n { dns_result_ip = ip; dns_done = true })

-- What callbacks other than `dns_callback` do: none of them writes `dns_done` or `dns_result_ip`.
pub beside_dns : M (Unit {0}) → M (Unit {0})
beside_dns others n = elim (others n) [
  | none ↦ none
  | some (u, n') ↦ some (tt, record n' { dns_done = n.dns_done; dns_result_ip = n.dns_result_ip })
]

-- One `cyw43_arch_poll`, which runs all the callbacks of lwIP that are due: `others` is what
-- those other than `dns_callback` do, and `k` the polls that still pass before lwIP makes that.
pub poll_for : (k : ℕ) → Option ℕ → (others : M (Unit {0})) → M (Unit {0})
unfolding call dns_callback beside_dns
poll_for zero answer others = do call Call.arch_poll; beside_dns others; dns_callback answer
poll_for (suc k) answer others = do call Call.arch_poll; beside_dns others

abbrev pred_of : ℕ → ℕ
pred_of zero = zero
pred_of (suc k) = k

-- The other callbacks, a list with an entry for each poll; there are none after its end.
abbrev pub Others : Type 0
Others = List (M (Unit {0}))

abbrev pub first_others : Others → M (Unit {0})
first_others [] = pure tt
first_others (m ∷ ms) = m

abbrev pub later_others : Others → Others
later_others [] = []
later_others (m ∷ ms) = ms

-- `while (!dns_done) { cyw43_arch_poll(); sleep_ms(10); }`; `none` if the fuel runs out.
pub wait_dns : (fuel : ℕ) → ℕ → Option ℕ → Others → M (Unit {0})
unfolding poll_for call
wait_dns zero k answer others n = none
wait_dns (suc fuel) k answer others n = elim n.dns_done [
  | true ↦ some (tt, n)
  | false ↦
      (poll_for k answer (first_others others) >>= λ _.
      call (Call.sleep_ms 10) >>= λ _. wait_dns fuel (pred_of k) answer (later_others others))
        n
]

pub set_dns_done : Bool → M (Unit {0})
set_dns_done b n = some (tt, record n { dns_done = b })

pub read_dns_result : M ℕ
read_dns_result n = some (n.dns_result_ip, n)

-- The branch of `dns_resolve` that waits. The loop takes one round more than the polls before the
-- callback, and one to leave.
pub wait_for : ℕ → Option ℕ → Others → M (ℤ × Option ℕ)
unfolding wait_dns set_dns_done read_dns_result
wait_for polls answer others = do
  set_dns_done false
  wait_dns (polls + 2) polls answer others
  ip ← read_dns_result
  pure (if ip == 0 then (minus_one, none) else (pos 0, some ip))

-- The code, and what is written through `ip_out`.
pub dns_resolve : World → Others → (hostname : List ℕ) → M (ℤ × Option ℕ)
unfolding call ask wait_for
dns_resolve w others hostname = do
  call Call.lwip_begin
  r ← ask (Call.gethostbyname hostname) w.lookup_result
  call Call.lwip_end
  if eq_ℤ r.code w.err_ok
      then pure (pos 0, some r.cached)
      else if eq_ℤ r.code w.err_inprogress
      then wait_for r.polls r.answer others
      else pure (minus_one, none)

-- `others` is what the callbacks of lwIP do while the driver connects, which waits.
pub wifi_connect :
    World → (others : M (Unit {0})) → (ssid password : List ℕ) → (timeout_ms : ℕ) → M ℤ
unfolding net_init call ask enqueue
wifi_connect w others ssid password timeout_ms = do
  net_init
  call Call.enable_sta
  result ← ask (Call.wifi_connect ssid password timeout_ms) w.wifi_result
  others
  if eq_ℤ result (pos 0)
      then enqueue
          (record { kind = EventType.wifi_connected; socket_id = pos 0; u = Payload.zeroed })
      else pure tt
  pure result

pub wifi_disconnect : M (Unit {0})
unfolding call enqueue
wifi_disconnect = do
  call Call.disable_sta
  enqueue (record { kind = EventType.wifi_disconnected; socket_id = pos 0; u = Payload.zeroed })

-- `cyw43_wifi_link_status(…) == CYW43_LINK_JOIN`
pub wifi_is_connected : World → M Bool
unfolding ask
wifi_is_connected w = ask Call.link_status w.link_joined

pub wifi_get_ip : World → M ℕ
unfolding wifi_is_connected
wifi_get_ip w = do
  joined ← wifi_is_connected w
  if joined then (λ n. some (w.netif_address n.trace, n)) else pure 0

unfoldable pub net_poll : M (Unit {0})
unfolding call
net_poll = call Call.arch_poll
