-- ===== src/Net/Udp/Datagrams.antt =====
-- What `udp_recv_callback` and `pico_udp_recvfrom` do with datagrams: one buffer and one sender for
-- all those that have come.
use pico_ocaml.Prelude.{
  ℕ, ◌+◌, ◌-◌, ◌≤◌, ◌<◌, ◌≡◌, sym, ap, ap₂, ◌∙◌, false, some, List, [], ◌∷◌, ◌++◌, arith, length,
  set, take, length-append, length-take, take_of_le, take-take,
}
use pico_ocaml.Prelude.Int.{pos}
use pico_ocaml.Queue.{EventType, Payload, event_enqueue}
use pico_ocaml.Net.World.{Call}
use pico_ocaml.Net.State.{Proto, Socket, Net, ◌>>=◌, ◌>>◌, max_recv_buffer, lesser, sub_size}
use pico_ocaml.Net.Udp.{copy_datagram, udp_recv_callback, pico_udp_recvfrom, take_datagram}
use pico_ocaml.Net.Buffer.{
  length-received, received, received-live, IsLive, Appended, append_bytes-Appended,
}
use pico_ocaml.Net.Tcp.Stream.{fitting, IsOpen, IsOpen-after}

-- The socket once the sender of a datagram is recorded.
abbrev pub from : Socket → (addr port : ℕ) → Socket
from s addr port = record s { udp_src_ip = addr; udp_src_port = port }

pub from-IsLive : (s : Socket) (addr port : ℕ) → IsLive s → IsLive (from s addr port)
from-IsLive s addr port v = record {
  block = v.block;
  is_block = v.is_block;
  size = v.size;
  capacity = v.capacity;
  within = v.within;
}

module _ (n : Net) (i : ℕ) (s : Socket) where
  -- The state after a datagram of `p` bytes.
  abbrev pub after_datagram : Socket → List ℕ → (addr port : ℕ) → Net
  after_datagram s' p addr port = record n {
    sockets = set n.sockets i s';
    queue =
        (event_enqueue
          (record {
            kind = EventType.udp_received;
            socket_id = pos i;
            u = Payload.received (fitting s (length p)) addr port;
          })
          n.queue).1;
    net_lock = false;
    trace = Call.pbuf_free ∷ n.trace;
  }

  -- When a datagram comes for an open socket and its buffer has room for some of it, which the
  -- datagram has, `udp_recv_callback` appends what fits to the bytes received, records the sender,
  -- frees the pbuf, puts an event on the queue, releases the lock and changes no other socket.
  pub udp_recv_callback_lem :
      (p : List ℕ) (addr port : ℕ)
      → IsOpen n i s
      → 0 < fitting s (length p)
      → (s' : Socket) × (udp_recv_callback (pos i) (some p) addr port n
          ≡ some (tt, after_datagram s' p addr port))
        × Appended (from s addr port) (take (fitting s (length p)) p) s'
  unfolding udp_recv_callback copy_datagram
  udp_recv_callback_lem p addr port o some_fit =
      let v = from-IsLive s addr port o.live in
      let (s', e, a) =
        append_bytes-Appended (from s addr port) (take (fitting s (length p)) p) v
          (ground (arith, v.within, length-take (fitting s (length p)) p)) in
      (s', ground (arith, e, room, o.at, o.slot, o.unlocked, some_fit), a)
    where
      room : sub_size s.recv_capacity s.recv_len ≡ max_recv_buffer - s.recv_len
      room = omega (arith, o.live.capacity, o.live.within)

  -- On an open UDP socket with something received, and room in `buf`, `pico_udp_recvfrom` copies
  -- from the front as many bytes as there are and as `buf` has room for, returns their number
  -- with the sender recorded, drops the rest, releases the lock and changes nothing else.
  pub pico_udp_recvfrom_lem :
      (max_len : ℕ)
      → IsOpen n i s
      → s.proto ≡ Proto.udp
      → 0 < s.recv_len
      → 0 < max_len
      → pico_udp_recvfrom (pos i) max_len n
        ≡ some (
          (
            pos (lesser s.recv_len max_len),
            record {
              bytes = take (lesser s.recv_len max_len) (received s);
              sender = some (s.udp_src_ip, s.udp_src_port);
            },
          ),
          record n { sockets = set n.sockets i (record s { recv_len = 0 }); net_lock = false },
        )
  unfolding pico_udp_recvfrom take_datagram
  pico_udp_recvfrom_lem max_len o e some_there some_room =
      ground
        (arith, o.at, o.slot, o.unlocked, e, o.live.is_block, o.live.size, o.live.within, front)
    where
      k : ℕ
      k = lesser s.recv_len max_len

      front : take k (received s) ≡ take k o.live.block
      front =
          ap (take k) (received-live s o.live) ∙ take-take k s.recv_len o.live.block (ground arith)

received-none : (s : Socket) → s.recv_len ≡ 0 → IsLive s → received s ≡ []
received-none s none_there v = ground (arith, v.is_block, none_there)

-- A datagram that fits in an empty buffer.
pub received_one :
    (s s' : Socket) (p : List ℕ)
    → s.recv_len ≡ 0
    → IsLive s
    → length p ≤ max_recv_buffer
    → Appended s (take (fitting s (length p)) p) s'
    → (received s' ≡ p) × (s'.recv_len ≡ length p)
received_one s s' p none_there v fits a = (whole, sym (length-received s' a.live) ∙ ap length whole)
  where
    whole : received s' ≡ p
    whole =
        a.bytes
        ∙ ap₂ ◌++◌ (received-none s none_there v)
            (take_of_le (fitting s (length p)) p (ground arith))

-- The bytes of a datagram that comes after `p` and fits behind it.
received_two :
    (s s' : Socket) (p q : List ℕ) (addr port : ℕ)
    → received s ≡ p
    → s.recv_len ≡ length p
    → length p + length q ≤ max_recv_buffer
    → Appended (from s addr port) (take (fitting s (length q)) q) s'
    → (received s' ≡ p ++ q) × (s'.recv_len ≡ length p + length q)
received_two s s' p q addr port held size fits a =
    (whole, sym (length-received s' a.live) ∙ (ap length whole ∙ length-append p q))
  where
    whole : received s' ≡ p ++ q
    whole = a.bytes ∙ ap₂ ◌++◌ held (take_of_le (fitting s (length q)) q (ground (arith, size)))

-- Two datagrams that come, neither of them empty, before an open UDP socket with nothing received
-- is read, and that fit together in its buffer and the reader's: the read returns the bytes of
-- both as one datagram, whose sender is that of the second.
pub udp_recvfrom_merges :
    (p q : List ℕ) (addr port addr' port' max_len : ℕ) {n : Net} {i : ℕ} {s : Socket}
    → IsOpen n i s
    → s.proto ≡ Proto.udp
    → s.recv_len ≡ 0
    → 0 < length p
    → 0 < length q
    → length p + length q ≤ max_recv_buffer
    → length p + length q ≤ max_len
    → (n' : Net) × ((udp_recv_callback (pos i) (some p) addr port
            >> udp_recv_callback (pos i) (some q) addr' port'
            >>= λ _. pico_udp_recvfrom (pos i) max_len)
          n
        ≡ some (
          (pos (length p + length q), record { bytes = p ++ q; sender = some (addr', port') }),
          n',
        ))
udp_recvfrom_merges p q addr port addr' port' max_len {n} {i} {s} o e none_there hp hq fits room =
    let (s', r, a) = udp_recv_callback_lem n i s p addr port o (ground arith) in
    let first = after_datagram n i s s' p addr port in
    let o' = IsOpen-after n i s s' first.queue first.trace o a.live in
    let (held, size) =
      received_one (from s addr port) s' p none_there (from-IsLive s addr port o.live) (omega arith)
        a in
    let (s'', r', b) = udp_recv_callback_lem first i s' q addr' port' o' (ground (arith, size)) in
    let second = after_datagram first i s' s'' q addr' port' in
    let o'' = IsOpen-after first i s' s'' second.queue second.trace o' b.live in
    let (held', size') = received_two s' s'' p q addr' port' held size fits b in
    let rd =
      pico_udp_recvfrom_lem second i s'' max_len o'' (b.same.proto ∙ (a.same.proto ∙ e))
        (omega (arith, size')) (omega arith) in
    (
      record second {
        sockets = set second.sockets i (record s'' { recv_len = 0 });
        net_lock = false;
      },
      ground (
        arith,
        r,
        r',
        rd,
        held',
        size',
        b.same.src_ip,
        b.same.src_port,
        take_of_le (length p + length q) (p ++ q),
        length-append p q,
      ),
    )
