-- ===== src/Net/Tests/Streams.antt =====
-- The theorems on the data of a TCP socket, at a connected one.
use pico_ocaml.Prelude.{
  take, ◌-◌, ℕ, ◌+◌, ◌<◌, ◌≡◌, refl, ◌≢◌, none, some, List, [], ◌∷◌, ◌++◌, arith, length, replicate,
  length-replicate,
}
use pico_ocaml.Prelude.Int.{pos}
use pico_ocaml.Net.World.{Call}
use pico_ocaml.Net.State.{Socket, Net, ◌>>◌, max_recv_buffer}
use pico_ocaml.Net.Buffer.{received}
use pico_ocaml.Net.Tcp.{tcp_recv_callback, pico_tcp_read, pico_tcp_close}
use pico_ocaml.Net.Tcp.Stream.{after_segment}
use pico_ocaml.Net.Tcp.Pipe
use pico_ocaml.Net.Tcp.Pipe.{arrive, read}
use pico_ocaml.Net.Tcp.Flow.{session, session_refines}
use pico_ocaml.Net.Tcp.Faults.{tcp_recv_drops_acknowledged, tcp_read_after_close}
use pico_ocaml.Net.Tests.{good, open_socket, online, online-IsOpen}

abbrev nines : List ℕ
nines = replicate 5000 9

session_refines_example :
    (n' : Net) × (session good 0 5 (read 2 ∷ arrive (7 ∷ 8 ∷ []) ∷ read 10 ∷ []) online
      ≡ some (Pipe.run (received open_socket) (read 2 ∷ arrive (7 ∷ 8 ∷ []) ∷ read 10 ∷ []), n'))
session_refines_example =
    session_refines good 0 5 (read 2 ∷ arrive (7 ∷ 8 ∷ []) ∷ read 10 ∷ []) online-IsOpen refl

segment_length : 4096 < 3 + length nines
segment_length = omega (arith, length-replicate {A = ℕ} 5000 9)

tcp_recv_drops_acknowledged_example :
    (s' : Socket) × (tcp_recv_callback good (pos 0) 5 (some nines) (pos 0) online
      ≡ some (pos 0, after_segment online 0 open_socket s' 5 nines))
    × ((after_segment online 0 open_socket s' 5 nines).trace
        ≡ Call.pbuf_free ∷ Call.tcp_recved 5 (length nines) ∷ [])
    × (received s' ≡ received open_socket ++ take (max_recv_buffer - 3) nines)
    × (received s' ≢ received open_socket ++ nines)
tcp_recv_drops_acknowledged_example =
    tcp_recv_drops_acknowledged good 5 nines online-IsOpen segment_length

tcp_read_after_close_example : (pico_tcp_close (pos 0) >> (pico_tcp_read (pos 0) 100)) online ≡ none
tcp_read_after_close_example =
    tcp_read_after_close online 0 100 open_socket 5 online-IsOpen refl refl (omega arith)
      (omega arith)
