-- ===== src/Net/Tcp/Connect.antt =====
-- A TCP connection from `pico_tcp_create` to the first write.
use pico_ocaml.Prelude.{
  take, take_of_le, length-take, ap, ◌↔◌, ◌^◌, ℕ, ◌<◌, ◌≡◌, refl, ◌∙◌, some, List, ◌∷◌, arith,
  if◌then◌else◌, length, get_elem?, set, length-set, get_elem?-set_self,
}
use pico_ocaml.Prelude.Int.{ℤ, pos}
use pico_ocaml.Queue.{EventType, Payload, event_enqueue, EventQueue}
use pico_ocaml.Net.World.{World, Call, Trace}
use pico_ocaml.Net.State.{
  SocketState, Proto, Socket, Net, pure, M, ◌>>=◌, minus_one, eq_ℤ, max_sockets, max_recv_buffer,
  as_u16, as_int,
}
use pico_ocaml.Net.Socket.Alloc.{first_closed-lt}
use pico_ocaml.Net.Create.{tcp_socket, HasRoom, allocated, after_tcp_create, pico_tcp_create-ok}
use pico_ocaml.Net.Tcp.{
  pico_tcp_create, pico_tcp_connect, tcp_connected_callback, pico_tcp_write, tcp_event,
}
use pico_ocaml.Net.Tcp.Stream.{eq_ℤ-refl}

module _ (w : World) (n : Net) (i : ℕ) (s : Socket) (h : ℕ) where
  -- Socket `i` is a TCP socket with the pcb `h`.
  record HasPcb : Type 0 where
    pub at : get_elem? n.sockets i ≡ some s
    pub slot : i < max_sockets
    pub is_tcp : s.proto ≡ Proto.tcp
    pub pcb : s.pcb ≡ some h

  pico_tcp_connect-connecting :
      (ip port : ℕ)
      → HasPcb
      → (r : ℤ) × (pico_tcp_connect w (pos i) ip port n
          ≡ some (
            r,
            record n {
              sockets = set n.sockets i (record s { state = SocketState.connecting });
              trace = Call.lwip_end ∷ Call.tcp_connect h ip port ∷ Call.lwip_begin ∷ n.trace;
            },
          ))
  unfolding pico_tcp_connect
  pico_tcp_connect-connecting ip port p = (
    if eq_ℤ (w.connect_result (Call.lwip_begin ∷ n.trace)) w.err_ok then pos 0 else minus_one,
    ground (arith, p.at, p.slot, p.is_tcp, p.pcb),
  )

  -- Unless the socket is connected, a write is refused and changes nothing.
  pico_tcp_write-refused :
      (bytes : List ℕ)
      → HasPcb
      → s.state ≡ SocketState.connecting
      → pico_tcp_write w (pos i) bytes n ≡ some (minus_one, n)
  unfolding pico_tcp_write
  pico_tcp_write-refused bytes p c = ground (arith, p.at, p.slot, p.is_tcp, p.pcb, c)

  pico_tcp_write-accepted :
      (bytes : List ℕ)
      → HasPcb
      → s.state ≡ SocketState.connected
      → w.write_result (Call.lwip_begin ∷ n.trace) ≡ w.err_ok
      → pico_tcp_write w (pos i) bytes n
        ≡ some (
          as_int (length bytes),
          record n {
            trace =
                Call.lwip_end
                ∷ Call.tcp_output h
                ∷ Call.tcp_write h (take (as_u16 (length bytes)) bytes)
                ∷ Call.lwip_begin
                ∷ n.trace;
          },
        )
  unfolding pico_tcp_write
  pico_tcp_write-accepted bytes p c ok =
      ground (arith, p.at, p.slot, p.is_tcp, p.pcb, c, ok, eq_ℤ-refl w.err_ok)

  tcp_connected_callback-connected :
      HasPcb
      → tcp_connected_callback w (pos i) w.err_ok n
        ≡ some (
          w.err_ok,
          record n {
            sockets = set n.sockets i (record s { state = SocketState.connected });
            queue =
                (event_enqueue
                  (tcp_event EventType.tcp_connected (pos i) (Payload.error w.err_ok))
                  n.queue).1;
          },
        )
  unfolding tcp_connected_callback
  tcp_connected_callback-connected p = ground (arith, p.at, p.slot, eq_ℤ-refl w.err_ok)

-- A socket created and told to connect, a write that comes too early, lwIP's report that the
-- connection is there, and a write: the socket and what the two writes return.
pub open_and_write : World → (ip port : ℕ) → (early bytes : List ℕ) → M (ℤ × ℤ × ℤ)
open_and_write w ip port early bytes = do
  sock ← pico_tcp_create w
  started ← pico_tcp_connect w sock ip port
  refused ← pico_tcp_write w sock early
  code ← tcp_connected_callback w sock w.err_ok
  written ← pico_tcp_write w sock bytes
  pure (sock, refused, written)

HasPcb-set :
    (w : World) (n : Net) (i : ℕ) (s t : Socket) (h : ℕ) (q : EventQueue) (tr : Trace)
    → i < max_sockets
    → length n.sockets ≡ max_sockets
    → t.proto ≡ Proto.tcp
    → t.pcb ≡ some h
    → HasPcb w (record n { sockets = set n.sockets i t; queue = q; trace = tr }) i t h
HasPcb-set w n i s t h q tr lt all p e = record {
  at = get_elem?-set_self n.sockets i t (omega (arith, all));
  slot = lt;
  is_tcp = p;
  pcb = e;
}

-- With a slot free, memory and a pcb to be had, and an lwIP that takes what is written: the
-- socket created is the first free one; a write before lwIP reports the connection returns -1 and
-- hands lwIP nothing; the write after it returns the number of its bytes, as an `int`, and hands
-- lwIP as many of the first of them as that number modulo 2 ^ 16, between `cyw43_arch_lwip_begin`
-- and `…_end`, on the pcb that was told to connect. These are all the bytes if and only if there
-- are fewer than 2 ^ 16.
pub open_and_write_lem :
    (w : World) (n : Net) (i : ℕ) (b : List ℕ) (h ip port : ℕ) (early bytes : List ℕ)
    → HasRoom w n i
    → w.malloc_result n.trace max_recv_buffer ≡ some b
    → w.tcp_new_result (allocated w n i) ≡ some h
    → ((t : Trace) → w.write_result t ≡ w.err_ok)
    → (n' : Net) × (open_and_write w ip port early bytes n
        ≡ some ((pos i, minus_one, as_int (length bytes)), n'))
      × (n'.trace
          ≡ Call.lwip_end
            ∷ Call.tcp_output h
            ∷ Call.tcp_write h (take (as_u16 (length bytes)) bytes)
            ∷ Call.lwip_begin
            ∷ Call.lwip_end
            ∷ Call.tcp_connect h ip port
            ∷ Call.lwip_begin
            ∷ (after_tcp_create w n i b h).trace)
      × ((take (as_u16 (length bytes)) bytes ≡ bytes) ↔ (length bytes < 2 ^ 16))
unfolding open_and_write
open_and_write_lem w n i b h ip port early bytes room m t takes =
    let lt : i < max_sockets = omega (arith, first_closed-lt n.sockets i room.free, room.all) in
    let s0 = tcp_socket b h in
    let n1 = after_tcp_create w n i b h in
    let p1 = HasPcb-set w n i s0 s0 h n.queue n1.trace lt room.all refl refl in
    let (r, e2) = pico_tcp_connect-connecting w n1 i s0 h ip port p1 in
    let s2 = record s0 { state = SocketState.connecting } in
    let n2 = record n1 {
      sockets = set n1.sockets i s2;
      trace = Call.lwip_end ∷ Call.tcp_connect h ip port ∷ Call.lwip_begin ∷ n1.trace;
    } in
    let all1 : length n1.sockets ≡ max_sockets = length-set n.sockets i s0 ∙ room.all in
    let all2 : length n2.sockets ≡ max_sockets = length-set n1.sockets i s2 ∙ all1 in
    let p2 = HasPcb-set w n1 i s0 s2 h n1.queue n2.trace lt all1 refl refl in
    let e3 = pico_tcp_write-refused w n2 i s2 h early p2 refl in
    let e4 = tcp_connected_callback-connected w n2 i s2 h p2 in
    let s4 = record s2 { state = SocketState.connected } in
    let n4 = record n2 {
      sockets = set n2.sockets i s4;
      queue =
          (event_enqueue (tcp_event EventType.tcp_connected (pos i) (Payload.error w.err_ok))
            n2.queue).1;
    } in
    let p4 = HasPcb-set w n2 i s2 s4 h n4.queue n4.trace lt all2 refl refl in
    let e5 =
      pico_tcp_write-accepted w n4 i s4 h bytes p4 refl (takes (Call.lwip_begin ∷ n4.trace)) in
    (
      record n4 {
        trace =
            Call.lwip_end
            ∷ Call.tcp_output h
            ∷ Call.tcp_write h (take (as_u16 (length bytes)) bytes)
            ∷ Call.lwip_begin
            ∷ n4.trace;
      },
      ground (arith, pico_tcp_create-ok w n i b h room m t, e2, e3, e4, e5),
      refl,
      (
        λ whole. omega (arith, ap length whole, length-take (as_u16 (length bytes)) bytes),
        λ small. take_of_le (as_u16 (length bytes)) bytes (omega (arith, small)),
      ),
    )
