-- ===== src/Net/Tcp/Faults.antt =====
-- Two things that go wrong with data on a TCP socket: a segment that does not fit, and data that
-- is left when the socket is closed.
use pico_ocaml.Prelude.{
  ℕ, ◌+◌, ◌-◌, ◌≤◌, ◌<◌, ◌≡◌, refl, sym, ap, ◌∙◌, ◌≢◌, none, some, List, ◌∷◌, ◌++◌, arith, length,
  set, take, length-append, length-take, get_elem?-set_self, lt-length_of_some,
}
use pico_ocaml.Prelude.Int.{pos}
use pico_ocaml.Net.World.{World, Call}
use pico_ocaml.Net.State.{max_recv_buffer, Proto, Socket, Net, ◌>>◌, bind-some}
use pico_ocaml.Net.Socket.Alloc.{freed, socket_free_lem}
use pico_ocaml.Net.Tcp.{tcp_recv_callback, pico_tcp_read, pico_tcp_close}
use pico_ocaml.Net.Buffer.{received}
use pico_ocaml.Net.Tcp.Stream.{fitting, IsOpen, after_segment, tcp_recv_callback_lem}

-- A segment longer than the room left in the buffer of an open socket is acknowledged to lwIP
-- whole, and yet the bytes that do not fit are dropped: what the socket holds afterwards is what it
-- held followed by as many of the first bytes of the segment as there was room for, which is not
-- the whole segment.
pub tcp_recv_drops_acknowledged :
    (w : World) (tpcb : ℕ) (p : List ℕ) {n : Net} {i : ℕ} {s : Socket}
    → IsOpen n i s
    → max_recv_buffer < s.recv_len + length p
    → (s' : Socket) × (tcp_recv_callback w (pos i) tpcb (some p) w.err_ok n
        ≡ some (w.err_ok, after_segment n i s s' tpcb p))
      × ((after_segment n i s s' tpcb p).trace
          ≡ Call.pbuf_free ∷ Call.tcp_recved tpcb (length p) ∷ n.trace)
      × (received s' ≡ received s ++ take (max_recv_buffer - s.recv_len) p)
      × (received s' ≢ received s ++ p)
tcp_recv_drops_acknowledged w tpcb p {n} {i} {s} o long =
    let (s', e, a) = tcp_recv_callback_lem n i s w tpcb p o in
    (
      s',
      e,
      refl,
      a.bytes ∙ ap (λ k. received s ++ take k p) (fitting_all s p long),
      λ whole. absurd (
          omega (
            arith,
            ap length (sym a.bytes ∙ whole),
            length-append (received s) (take (fitting s (length p)) p),
            length-append (received s) p,
            length-take (fitting s (length p)) p,
            fitting_short s p long o.live.within,
          )),
    )
  where
    fitting_all :
        (s : Socket) (p : List ℕ)
        → max_recv_buffer < s.recv_len + length p
        → fitting s (length p) ≡ max_recv_buffer - s.recv_len
    fitting_all s p l = ground arith

    fitting_short :
        (s : Socket) (p : List ℕ)
        → max_recv_buffer < s.recv_len + length p
        → s.recv_len ≤ max_recv_buffer
        → fitting s (length p) < length p
    fitting_short s p l r = ground arith

-- The state after `pico_tcp_close` on a socket that has its pcb `h` and its buffer.
abbrev pub after_close : Net → ℕ → Socket → ℕ → Net
after_close n i s h = record n {
  sockets = set n.sockets i (freed s);
  trace =
      Call.free
      ∷ Call.lwip_end
      ∷ Call.tcp_close h
      ∷ Call.tcp_no_callbacks h
      ∷ Call.lwip_begin
      ∷ n.trace;
}

-- `pico_tcp_close` on an open TCP socket with a pcb detaches the callbacks before it closes the
-- pcb, gives the buffer back, and leaves the slot closed with neither; all of it between
-- `cyw43_arch_lwip_begin` and `…_end` but for the buffer.
pub pico_tcp_close_lem :
    (n : Net) (i : ℕ) (s : Socket) (h : ℕ)
    → IsOpen n i s
    → s.proto ≡ Proto.tcp
    → s.pcb ≡ some h
    → pico_tcp_close (pos i) n ≡ some (tt, after_close n i s h)
unfolding pico_tcp_close
pico_tcp_close_lem n i s h o p e = ground (
  arith,
  o.at,
  o.slot,
  p,
  e,
  o.live.is_block,
  socket_free_lem
      (record n {
        trace =
            Call.lwip_end ∷ Call.tcp_close h ∷ Call.tcp_no_callbacks h ∷ Call.lwip_begin ∷ n.trace;
      })
      i s o.slot o.at,
)

-- After that close, if some received data was never read, the next `pico_tcp_read` of the socket
-- copies from the NULL buffer: `socket_free` does not reset `recv_len`.
pub tcp_read_after_close :
    (n : Net) (i max_len : ℕ) (s : Socket) (h : ℕ)
    → IsOpen n i s
    → s.proto ≡ Proto.tcp
    → s.pcb ≡ some h
    → 0 < s.recv_len
    → 0 < max_len
    → (pico_tcp_close (pos i) >> (pico_tcp_read (pos i) max_len)) n ≡ none
unfolding pico_tcp_read
tcp_read_after_close n i max_len s h o p e unread some_room =
    bind-some (pico_tcp_close (pos i)) (λ _. pico_tcp_read (pos i) max_len)
      (pico_tcp_close_lem n i s h o p e)
    ∙ ground (
      arith,
      o.slot,
      p,
      o.unlocked,
      get_elem?-set_self n.sockets i (freed s) (lt-length_of_some n.sockets i s o.at),
    )
