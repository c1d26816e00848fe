-- ===== src/Net/Dns/Keeps.antt =====
-- The DNS and WiFi functions keep the table sound.
use pico_ocaml.Prelude.{ℕ, refl, some, List, if◌then◌else◌}
use pico_ocaml.Prelude.Int.{pos}
use pico_ocaml.Queue.{EventType, Payload}
use pico_ocaml.Net.World.{World, Call}
use pico_ocaml.Net.State.{M, pure, ◌>>◌, ask, enqueue, eq_ℤ}
use pico_ocaml.Net.Socket.{net_init}
use pico_ocaml.Net.Socket.Keeps.{Keeps-net_init}
use pico_ocaml.Net.Dns.{
  Others, dns_resolve, wifi_connect, wifi_disconnect, wifi_is_connected, wifi_get_ip, net_poll,
}
use pico_ocaml.Net.Dns.Wait.{IsStable, KeepsIt, AllKeep, dns_resolve_lem}
use pico_ocaml.Net.Safety.{
  IsNet, Keeps, Safe-bind, Safe-if, Keeps-pure, Keeps-then, Keeps-call, Keeps-ask, Keeps-enqueue,
}

pub IsNet-stable : IsStable IsNet
IsNet-stable n v t done ip = record {
  all = v.all;
  sound = v.sound;
  queue = v.queue;
  unlocked = v.unlocked;
}

pub Keeps-dns_resolve :
    (w : World) (others : Others) (hostname : List ℕ)
    → AllKeep IsNet others
    → Keeps (dns_resolve w others hostname)
Keeps-dns_resolve w others hostname keep n v =
    let (n', e, v') = dns_resolve_lem IsNet w others hostname n IsNet-stable keep v in
    (_, n', e, v', tt)

pub Keeps-wifi_connect :
    (w : World) (others : M (Unit {0})) (ssid password : List ℕ) (timeout_ms : ℕ)
    → KeepsIt IsNet others
    → Keeps (wifi_connect w others ssid password timeout_ms)
unfolding wifi_connect
Keeps-wifi_connect w others ssid password timeout_ms keep = Keeps-then net_init _ Keeps-net_init (
    Keeps-then _ _ (Keeps-call Call.enable_sta) (
      Safe-bind (ask (Call.wifi_connect ssid password timeout_ms) w.wifi_result)
        (λ result.
          others
          >> ((if eq_ℤ result (pos 0)
                then enqueue (record {
                  kind = EventType.wifi_connected;
                  socket_id = pos 0;
                  u = Payload.zeroed;
                })
                else pure tt)
              >> pure result))
        (Keeps-ask (Call.wifi_connect ssid password timeout_ms) w.wifi_result)
        λ result _.
          Keeps-then others _ (λ n v. let (n', e, v') = keep n v in (tt, n', e, v', tt))
            (Keeps-then _ _ (Safe-if (eq_ℤ result (pos 0)) _ _ (Keeps-enqueue _) (Keeps-pure tt))
              (Keeps-pure result))))

pub Keeps-wifi_disconnect : Keeps wifi_disconnect
unfolding wifi_disconnect
Keeps-wifi_disconnect = Keeps-then _ _ (Keeps-call Call.disable_sta) (Keeps-enqueue _)

pub Keeps-wifi_is_connected : (w : World) → Keeps (wifi_is_connected w)
unfolding wifi_is_connected
Keeps-wifi_is_connected w = Keeps-ask Call.link_status w.link_joined

pub Keeps-wifi_get_ip : (w : World) → Keeps (wifi_get_ip w)
unfolding wifi_get_ip
Keeps-wifi_get_ip w = Safe-bind (wifi_is_connected w) _ (Keeps-wifi_is_connected w) λ joined _.
    Safe-if joined (λ n. some (w.netif_address n.trace, n)) (pure 0)
      (λ n v. (w.netif_address n.trace, n, refl, v, tt)) (Keeps-pure 0)

pub Keeps-net_poll : Keeps net_poll
unfolding net_poll
Keeps-net_poll = Keeps-call Call.arch_poll
