-- ===== src/Net/Tests/Tables.antt =====
-- The theorems on the table of sockets, at one with a socket in use.
use pico_ocaml.Prelude.{ℕ, ◌↔◌, ◌^◌, ◌<◌, List, ◌≡◌, refl, some, [], ◌∷◌, set, replicate}
use pico_ocaml.Prelude.Int.{pos}
use pico_ocaml.Net.World.{Call}
use pico_ocaml.Net.State.{Net, max_sockets, max_recv_buffer, Proto, minus_one}
use pico_ocaml.Net.Socket.{socket_alloc}
use pico_ocaml.Net.Create.{
  tcp_socket, HasRoom, after_tcp_create, tcp_create_twice, socket_alloc-full,
}
use pico_ocaml.Net.Tcp.{pico_tcp_create}
use pico_ocaml.Net.Tcp.Connect.{open_and_write, open_and_write_lem}
use pico_ocaml.Net.Tests.{good, block, open_socket, online}

online-HasRoom : HasRoom good online 1
online-HasRoom = record { all = refl; free = refl }

tcp_create_twice_example :
    (pico_tcp_create good online ≡ some (pos 1, after_tcp_create good online 1 block 1))
    × (pico_tcp_create good (after_tcp_create good online 1 block 1)
        ≡ some (
          pos 1,
          record online {
            sockets = set online.sockets 1 (tcp_socket block 4);
            trace =
                Call.tcp_callbacks 4 1
                ∷ Call.tcp_new
                ∷ Call.malloc max_recv_buffer
                ∷ Call.tcp_callbacks 1 1
                ∷ Call.tcp_new
                ∷ Call.malloc max_recv_buffer
                ∷ [];
          },
        ))
tcp_create_twice_example =
    tcp_create_twice good online 1 block block 1 4 online-HasRoom refl refl refl refl

socket_alloc-full_example :
    socket_alloc good Proto.udp (record online { sockets = replicate max_sockets open_socket })
    ≡ some (minus_one, record online { sockets = replicate max_sockets open_socket })
socket_alloc-full_example =
    socket_alloc-full good (record online { sockets = replicate max_sockets open_socket }) 0
      Proto.udp refl refl

open_and_write_lem_example :
    (n' : Net) × (open_and_write good 67305985 80 (9 ∷ []) (1 ∷ 2 ∷ []) online
      ≡ some ((pos 1, minus_one, pos 2), n'))
    × (n'.trace
        ≡ Call.lwip_end
          ∷ Call.tcp_output 1
          ∷ Call.tcp_write 1 (1 ∷ 2 ∷ [])
          ∷ Call.lwip_begin
          ∷ Call.lwip_end
          ∷ Call.tcp_connect 1 67305985 80
          ∷ Call.lwip_begin
          ∷ (after_tcp_create good online 1 block 1).trace)
    × (((◌≡◌ {A = List ℕ} (1 ∷ 2 ∷ []) (1 ∷ 2 ∷ []))) ↔ (2 < 2 ^ 16))
open_and_write_lem_example =
    open_and_write_lem good online 1 block 1 67305985 80 (9 ∷ []) (1 ∷ 2 ∷ []) online-HasRoom refl
      refl (λ t. refl)
