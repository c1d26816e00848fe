-- ===== src/Net/Udp/Moves.antt =====
-- `udp_recv_callback` and `pico_udp_recvfrom` keep the table sound.
use pico_ocaml.Prelude.{
  ℕ, ◌-◌, ◌≡◌, refl, inl, inr, true, false, none, some, List, ◌∷◌, arith, ltb, is_some, ltb→lt,
  Bool-cases, length, set,
}
use pico_ocaml.Prelude.Int.{ℤ, pos, negsuc}
use pico_ocaml.Queue.{EventType, Payload, Event, event_enqueue}
use pico_ocaml.Queue.Inv.{event_enqueue-IsQueue}
use pico_ocaml.Net.World.{Call}
use pico_ocaml.Net.State.{
  max_sockets, max_recv_buffer, Proto, is_tcp, Socket, Net, minus_one, lesser, sub_size,
}
use pico_ocaml.Net.Udp.{copy_datagram, udp_recv_callback, pico_udp_recvfrom, no_datagram}
use pico_ocaml.Net.Udp.Datagrams.{udp_recv_callback_lem, pico_udp_recvfrom_lem, after_datagram}
use pico_ocaml.Net.Buffer.{IsLive}
use pico_ocaml.Net.Tcp.Stream.{fitting}
use pico_ocaml.Net.Safety.{
  IsSound-pcb, IsNet, AllSound-get, At, moved, socket_at, Returns, Keeps, Keeps-call, Keeps-pure,
}

is_udp→≡ : (p : Proto) → is_tcp p ≡ false → p ≡ Proto.udp
is_udp→≡ Proto.udp e = refl
is_udp→≡ Proto.tcp e = cc

-- the event for a datagram
abbrev datagram_event : ℕ → (stored addr port : ℕ) → Event
datagram_event i stored addr port = record {
  kind = EventType.udp_received;
  socket_id = pos i;
  u = Payload.received stored addr port;
}

-- lwIP hands a datagram to a socket that has a pcb, or to none.
pub udp_recv_callback-IsNet :
    (arg : ℤ) (p : List ℕ) (addr port : ℕ) (n : Net)
    → IsNet n
    → At (λ s. is_some s.pcb ≡ true) n arg
    → Returns (λ r. Unit {0}) (udp_recv_callback arg (some p) addr port) n
unfolding udp_recv_callback copy_datagram
udp_recv_callback-IsNet (negsuc i) p addr port n v h = Keeps-call Call.pbuf_free n v
udp_recv_callback-IsNet (pos i) p addr port n v h = elim (Bool-cases (ltb i max_sockets)) [
  | inr outside ↦ rw outside (Keeps-call Call.pbuf_free n v)
  | inl inside ↦
      let lt = ltb→lt i max_sockets inside in
      let (s, at) = socket_at n i v lt in
      let live = IsSound-pcb s (AllSound-get n.sockets i s v.sound at) (h s at) in
      elim (Bool-cases (ltb 0 (fitting s (length p)))) [
        | inl fits ↦
            let (s', e, a) =
              udp_recv_callback_lem n i s p addr port
                (record { at = at; slot = lt; live = live; unlocked = v.unlocked })
                (ltb→lt 0 _ fits) in
            (
              tt,
              after_datagram n i s s' p addr port,
              e,
              moved n i s'
                  (event_enqueue (datagram_event i (fitting s (length p)) addr port) n.queue).1
                  (Call.pbuf_free ∷ n.trace) v (inl a.live)
                  (event_enqueue-IsQueue (datagram_event i (fitting s (length p)) addr port)
                    v.queue),
              tt,
            )
        | inr full ↦ (
          tt,
          after_datagram n i s s p addr port,
          ground (arith, inside, at, full, room s live, v.unlocked),
          moved n i s (event_enqueue (datagram_event i (fitting s (length p)) addr port) n.queue).1
              (Call.pbuf_free ∷ n.trace) v (inl live)
              (event_enqueue-IsQueue (datagram_event i (fitting s (length p)) addr port) v.queue),
          tt,
        )
      ]
]
  where
    room :
        (s : Socket) → IsLive s → sub_size s.recv_capacity s.recv_len ≡ max_recv_buffer - s.recv_len
    room s o = omega (arith, o.capacity, o.within)

-- A read from a socket that has its buffer, or nothing to read.
pub pico_udp_recvfrom-IsNet :
    (id : ℤ) (max_len : ℕ) (n : Net)
    → IsNet n
    → At (λ s. (s.recv_buf ≡ none) → s.recv_len ≡ 0) n id
    → Returns (λ r. Unit {0}) (pico_udp_recvfrom id max_len) n
unfolding pico_udp_recvfrom
pico_udp_recvfrom-IsNet (negsuc i) max_len n v h = Keeps-pure (minus_one, no_datagram) n v
pico_udp_recvfrom-IsNet (pos i) max_len n v h = elim (Bool-cases (ltb i max_sockets)) [
  | inr outside ↦ rw outside (Keeps-pure (minus_one, no_datagram) n v)
  | inl inside ↦
      let lt = ltb→lt i max_sockets inside in
      let (s, at) = socket_at n i v lt in
      elim (Bool-cases (is_tcp s.proto)) [
        | inl other ↦ ((minus_one, no_datagram), n, ground (arith, inside, at, other), v, tt)
        | inr same ↦ elim (Bool-cases (ltb 0 (lesser s.recv_len max_len))) [
          | inr none_read ↦ (
            (pos (lesser s.recv_len max_len), no_datagram),
            record n { sockets = set n.sockets i s; net_lock = false },
            ground (arith, inside, at, same, none_read, v.unlocked),
            moved n i s n.queue n.trace v (AllSound-get n.sockets i s v.sound at) v.queue,
            tt,
          )
          | inl some_read ↦ elim (AllSound-get n.sockets i s v.sound at) [
            | inr gone ↦ absurd (ground (arith, h s at gone.0, some_read))
            | inl live ↦ (
              _,
              _,
              pico_udp_recvfrom_lem n i s max_len
                  (record { at = at; slot = lt; live = live; unlocked = v.unlocked })
                  (is_udp→≡ s.proto same) (ground arith) (ground arith),
              moved n i (record s { recv_len = 0 }) n.queue n.trace v
                  (inl (record {
                    block = live.block;
                    is_block = live.is_block;
                    size = live.size;
                    capacity = live.capacity;
                    within = omega arith;
                  }))
                  v.queue,
              tt,
            )
          ]
        ]
      ]
]

-- No datagram, no change.
pub Keeps-udp_recv_none : (arg : ℤ) (addr port : ℕ) → Keeps (udp_recv_callback arg none addr port)
unfolding udp_recv_callback
Keeps-udp_recv_none arg addr port = Keeps-pure tt
