-- ===== src/Net/Tests/Calls.antt =====
-- The theorems on UDP, DNS and the encoding of addresses.
use pico_ocaml.Prelude.{
  ℕ, ◌≤◌, ◌<◌, ◌≡◌, refl, ◌↔◌, ◌⊎◌, some, [], ◌∷◌, ◌++◌, arith, set, replicate,
}
use pico_ocaml.Prelude.Int.{pos}
use pico_ocaml.Prelude.Value.{val_int}
use pico_ocaml.Net.Stubs.{port_of, ocaml_tcp_connect}
use pico_ocaml.Net.Stubs.Values.{address, after_connect, ocaml_tcp_connect-resolved}
use pico_ocaml.Net.Udp.{udp_recv_callback, pico_udp_recvfrom}
use pico_ocaml.Net.Udp.Datagrams.{udp_recvfrom_merges}
use pico_ocaml.Net.State.{max_sockets, Proto, Socket, zero_socket, Net, ◌>>◌, ◌>>=◌}
use pico_ocaml.Net.Create.{udp_socket}
use pico_ocaml.Net.Tcp.Stream.{IsOpen}
use pico_ocaml.Net.Tests.{length-zeros, good, block, open_socket, online}

-- 10.0.0.77, an address that the encoding spoils.
ocaml_tcp_connect-resolved_example :
    (ip r : ℕ) × (ocaml_tcp_connect good
        (val_int 0)
        (val_int (address 10 0 0 77))
        (val_int 80)
        online
      ≡ some (r, after_connect online 0 open_socket 5 ip (port_of (val_int 80))))
    × ((ip ≡ address 10 0 0 77) ↔ ((77 < 64) ⊎ (192 ≤ 77)))
ocaml_tcp_connect-resolved_example =
    ocaml_tcp_connect-resolved good online 0 open_socket 5 10 0 0 77 80 (omega arith) refl refl refl
      (omega arith) (omega arith) (omega arith) (omega arith)

-- A UDP socket in slot 0: with nothing received in `bound`, with three bytes from 1.2.3.4 in `asked`.
abbrev bound_socket : Socket
bound_socket = udp_socket block 5

abbrev bound : Net
bound = record online { sockets = set (replicate max_sockets zero_socket) 0 bound_socket }

bound-IsOpen : IsOpen bound 0 bound_socket
bound-IsOpen = record {
  at = refl;
  slot = omega arith;
  live = record {
    block = _;
    is_block = refl;
    size = length-zeros 4096;
    capacity = refl;
    within = omega arith;
  };
  unlocked = refl;
}

abbrev asked_socket : Socket
asked_socket = record open_socket { proto = Proto.udp; udp_src_ip = 67305985; udp_src_port = 53 }

abbrev asked : Net
asked = record online { sockets = set (replicate max_sockets zero_socket) 0 asked_socket }

udp_recvfrom_merges_example :
    (n' : Net) × ((udp_recv_callback (pos 0) (some (1 ∷ 2 ∷ [])) 67305985 53
          >> udp_recv_callback (pos 0) (some (3 ∷ [])) 134678021 123
          >>= λ _. pico_udp_recvfrom (pos 0) 512)
        bound
      ≡ some (
        (pos 3, record { bytes = (1 ∷ 2 ∷ []) ++ (3 ∷ []); sender = some (134678021, 123) }),
        n',
      ))
udp_recvfrom_merges_example =
    udp_recvfrom_merges (1 ∷ 2 ∷ []) (3 ∷ []) 67305985 53 134678021 123 512 bound-IsOpen refl refl
      (omega arith) (omega arith) (omega arith) (omega arith)
