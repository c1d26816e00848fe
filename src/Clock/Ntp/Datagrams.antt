-- ===== src/Clock/Ntp/Datagrams.antt =====
-- The socket of `ntp_query` when it is read and when a datagram comes.
use pico_ocaml.Prelude.{
  ℕ, ◌≤◌, ◌<◌, ◌≡◌, sym, ap, ◌∙◌, false, some, List, [], ◌∷◌, length, take, set, arith, take_of_le,
  dec_lt, ◌^◌,
}
use pico_ocaml.Prelude.Int.{pos}
use pico_ocaml.Prelude.Value.{val_int}
use pico_ocaml.Net.State.{max_recv_buffer, Net, lesser}
use pico_ocaml.Net.Stubs.Values.{sock_of-val_of}
use pico_ocaml.Prelude.{nil_of_length}
use pico_ocaml.Net.Buffer.{received, length-received, IsLive}
use pico_ocaml.Net.Tcp.Stream.{IsOpen-after}
use pico_ocaml.Net.Udp.Calls.{pico_udp_recvfrom_none}
use pico_ocaml.Net.Udp.Datagrams.{
  from, after_datagram, udp_recv_callback_lem, pico_udp_recvfrom_lem, received_one, from-IsLive,
}
use pico_ocaml.Net.Stubs.{val_of, ocaml_udp_recvfrom}
use pico_ocaml.Clock.Ntp.{Incoming, come}
use pico_ocaml.Clock.Ntp.Listening.{Listens}

module _ (i : ℕ) (q : List ℕ) (n : Net) (l : Listens n i q) where
  -- A read with room for all gets all.
  pub read-Listens :
      (buf : List ℕ)
      → length q ≤ length buf
      → length q < 2 ^ 30
      → (n' : Net) × (ocaml_udp_recvfrom (val_of (pos i)) buf n
          ≡ some ((val_int (length q), q), n'))
        × Listens n' i []
  unfolding ocaml_udp_recvfrom
  read-Listens buf room small = elim (dec_lt 0 (length q)) [
    | yes some_there ↦
        let e =
          pico_udp_recvfrom_lem n i l.socket (length buf) l.opened l.udp (omega (arith, size))
            (omega arith) in
        let s' = record l.socket { recv_len = 0 } in
        let live : IsLive s' = record {
          block = l.opened.live.block;
          is_block = l.opened.live.is_block;
          size = l.opened.live.size;
          capacity = l.opened.live.capacity;
          within = omega arith;
        } in
        (
          record n { sockets = set n.sockets i s'; net_lock = false },
          ground (arith, e, size, sock_of-val_of i l.opened.slot, whole),
          record {
            socket = s';
            opened = IsOpen-after n i l.socket s' n.queue n.trace l.opened live;
            udp = l.udp;
            pcb = l.pcb;
            has_pcb = l.has_pcb;
            bytes = nil_of_length (received s') (length-received s' live);
          },
        )
    | no none_there ↦
        let e =
          pico_udp_recvfrom_none n i l.socket (length buf) l.opened l.udp (omega (arith, size)) in
        (
          record n { sockets = set n.sockets i l.socket; net_lock = false },
          ground (arith, e, sock_of-val_of i l.opened.slot, nil_of_length q (omega arith)),
          record {
            socket = l.socket;
            opened = IsOpen-after n i l.socket l.socket n.queue n.trace l.opened l.opened.live;
            udp = l.udp;
            pcb = l.pcb;
            has_pcb = l.has_pcb;
            bytes = l.bytes ∙ nil_of_length q (omega arith);
          },
        )
  ]
    where
      size : l.socket.recv_len ≡ length q
      size = sym (length-received l.socket l.opened.live) ∙ ap length l.bytes

      whole : take (lesser l.socket.recv_len (length buf)) (received l.socket) ≡ q
      whole = take_of_le _ (received l.socket) (ground (arith, size, ap length l.bytes)) ∙ l.bytes

-- A datagram that comes when nothing has been received, is not empty and fits.
pub come-Listens :
    (i : ℕ) (n : Net) (d : Incoming)
    → Listens n i []
    → 0 < length d.bytes
    → length d.bytes ≤ max_recv_buffer
    → (n' : Net) × (come (pos i) (d ∷ []) n ≡ some (tt, n')) × Listens n' i d.bytes
unfolding come
come-Listens i n d l some_bytes fits =
    let s = l.socket in
    let empty : s.recv_len ≡ 0 = sym (length-received s l.opened.live) ∙ ap length l.bytes in
    let (s', e, a) =
      udp_recv_callback_lem n i s d.bytes d.addr d.port l.opened (ground (arith, empty)) in
    let n' = after_datagram n i s s' d.bytes d.addr d.port in
    (
      n',
      ground (arith, e),
      record {
        socket = s';
        opened = IsOpen-after n i s s' n'.queue n'.trace l.opened a.live;
        udp = a.same.proto ∙ l.udp;
        pcb = l.pcb;
        has_pcb = a.same.pcb ∙ l.has_pcb;
        bytes =
            (received_one (from s d.addr d.port) s' d.bytes empty
              (from-IsLive s d.addr d.port l.opened.live) fits a).0;
      },
    )
