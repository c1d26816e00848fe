-- ===== src/Net/Tests/Runs.antt =====
-- Runs of the network code, and a wait for DNS: it is initialised, opens a TCP socket and is
-- handed a segment.
use pico_ocaml.Prelude.{◌≡◌, refl, some, [], ◌∷◌, arith, replicate, true, if◌then◌else◌, is_some}
use pico_ocaml.Prelude.Int.{pos, negsuc}
use pico_ocaml.Net.State.{max_sockets, Net, boot, zero_socket, bind-some, pure, minus_one, ◌>>◌}
use pico_ocaml.Net.Socket.{net_init}
use pico_ocaml.Net.Safety.{IsNet}
use pico_ocaml.Net.World.{World, Call}
use pico_ocaml.Net.Dns.{Others, dns_resolve}
use pico_ocaml.Net.Dns.Wait.{AllKeep, resolved, dns_resolve_lem}
use pico_ocaml.Net.Dns.Keeps.{IsNet-stable}
use pico_ocaml.Net.Tcp.Keeps.{Keeps-tcp_connected_callback, Keeps-tcp_err_callback}
use pico_ocaml.Net.Create.{after_tcp_create, pico_tcp_create-ok}
use pico_ocaml.Net.Tcp.{tcp_connected_callback, tcp_err_callback, pico_tcp_create}
use pico_ocaml.Net.Acts.{Act, Callback, can_come, has_pcb, drop_result, perform}
use pico_ocaml.Net.Run.{Reach, reach-IsNet, net_safe}
use pico_ocaml.Net.Tests.{good, block}
use pico_ocaml.Net.Tests.Texts.{texts}

abbrev set_up : Net
set_up = record boot { sockets = replicate max_sockets zero_socket; net_initialized = true }

set_up-Reach : Reach good texts set_up
unfolding perform net_init
set_up-Reach = Reach.after Act.init Reach.at_boot tt refl

abbrev created : Net
created = after_tcp_create good set_up 0 block 1

created-Reach : Reach good texts created
unfolding perform
created-Reach = Reach.after Act.tcp_create set_up-Reach tt (
    bind-some (pico_tcp_create good) (λ _. pure tt)
      (pico_tcp_create-ok good set_up 0 block 1 (record { all = refl; free = refl }) refl refl))

net_safe_example :
    (n' : Net) × (perform good texts
        (Act.callback (Callback.on_recv (pos 0) 1 (some (1 ∷ 2 ∷ 3 ∷ [])) (pos 0)))
        created
      ≡ some (tt, n'))
    × IsNet n'
unfolding can_come has_pcb
net_safe_example =
    net_safe good texts (Act.callback (Callback.on_recv (pos 0) 1 (some (1 ∷ 2 ∷ 3 ∷ [])) (pos 0)))
      created-Reach refl

-- The name server answers with the callback, in the second poll.
abbrev asking : World
asking = record good {
  lookup_result = λ t. record { code = negsuc 4; cached = 0; polls = 1; answer = some 16909060 };
}

-- In the first poll of the wait a connection is accepted and there is an error on socket 0.
abbrev others : Others
others =
    (drop_result (tcp_connected_callback good (pos 0) (pos 0))
      >> tcp_err_callback (pos 0) (negsuc 3))
    ∷ []

others-keep : AllKeep IsNet others
others-keep = (
  (λ n v.
      let (a, n1, e, v1, h) = Keeps-tcp_connected_callback good (pos 0) (pos 0) n v in
      let (u, n2, e', v2, h') = Keeps-tcp_err_callback (pos 0) (negsuc 3) n1 v1 in
      (n2, ground (arith, e, e'), v2)),
  tt,
)

dns_resolve_lem_example :
    let ip = resolved asking (asking.lookup_result (Call.lwip_begin ∷ created.trace)) in
    (n' : Net) × (dns_resolve asking others (b'x' ∷ []) created
      ≡ some (((if is_some ip then pos 0 else minus_one), ip), n'))
    × IsNet n'
dns_resolve_lem_example =
    dns_resolve_lem IsNet asking others (b'x' ∷ []) created IsNet-stable others-keep
      (reach-IsNet good texts created-Reach)
