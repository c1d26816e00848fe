-- ===== src/Net/Tcp/Stream.antt =====
-- Data through a TCP socket: what `tcp_recv_callback` stores and what `pico_tcp_read` returns.
use pico_ocaml.Prelude.{
  ℕ, zero, suc, ◌-◌, ◌<◌, ◌≡◌, refl, sym, ap, inl, inr, true, false, ◌&&◌, some, List, [], ◌∷◌,
  append-nil, arith, ltb, ◌==◌, if◌then◌else◌, Bool-cases, length, get_elem?, set, take,
  length-take, get_elem?-set_self, lt-length_of_some,
}
use pico_ocaml.Prelude.Int.{ℤ, pos, negsuc}
use pico_ocaml.Queue.{EventType, Payload, event_enqueue, EventQueue}
use pico_ocaml.Net.World.{World, Call, Trace}
use pico_ocaml.Net.State.{
  max_sockets, max_recv_buffer, is_closed, Proto, Socket, Net, lesser, sub_size, minus_two, eq_ℤ,
}
use pico_ocaml.Net.Tcp.{
  append_bytes, copy_in, tcp_event, tcp_recv_callback, take_bytes, pico_tcp_read,
}
use pico_ocaml.Net.Buffer.{
  received, IsLive, Appended, append_bytes-Appended, Taken, take_bytes-Taken,
}

pub eq_ℤ-refl : (a : ℤ) → eq_ℤ a a ≡ true
eq_ℤ-refl (pos n) = ground arith
eq_ℤ-refl (negsuc n) = ground arith

-- how many of `n` bytes a socket has room for
abbrev pub fitting : Socket → ℕ → ℕ
fitting s n = lesser n (max_recv_buffer - s.recv_len)

Appended-none : (s : Socket) → IsLive s → Appended s [] s
Appended-none s v = record {
  live = v;
  same = record { proto = refl; state = refl; pcb = refl; src_ip = refl; src_port = refl };
  bytes = sym (append-nil (received s));
}

take_none {ℓ} : {A : Type ℓ} (n : ℕ) (xs : List A) → ltb 0 n ≡ false → take n xs ≡ []
take_none zero xs h = refl
take_none (suc n) xs h = ground arith

-- Whether or not any byte fits, the socket ends with those that do.
pub accept-Appended :
    (s : Socket) (p : List ℕ)
    → IsLive s
    → let k = lesser (length p) (sub_size s.recv_capacity s.recv_len) in
      (s' : Socket) × ((if ltb 0 k then append_bytes s (take k p) else some s) ≡ some s')
      × Appended s (take (fitting s (length p)) p) s'
      × (k ≡ fitting s (length p))
accept-Appended s p v = elim (Bool-cases (ltb 0 (fitting s (length p)))) [
  | inl some_fit ↦
      let (s', e, a) =
        append_bytes-Appended s (take (fitting s (length p)) p) v
          (ground (arith, v.within, length-take (fitting s (length p)) p)) in
      (s', rw (room, some_fit) e, a, ap (lesser (length p)) room)
  | inr none_fit ↦ (
    s,
    rw (room, none_fit) refl,
    rw (take_none (fitting s (length p)) p none_fit) (Appended-none s v),
    ap (lesser (length p)) room,
  )
]
  where
    room : sub_size s.recv_capacity s.recv_len ≡ max_recv_buffer - s.recv_len
    room = omega (arith, v.capacity, v.within)

-- Whether or not a byte is read, the socket ends without those that are.
pub yield-Taken :
    (s : Socket) (max_len : ℕ)
    → IsLive s
    → let k = lesser s.recv_len max_len in
      (out : List ℕ) × (s' : Socket) × ((if ltb 0 k then take_bytes s k else some ([], s))
        ≡ some (out, s'))
      × Taken s k out s'
yield-Taken s max_len v = elim (Bool-cases (ltb 0 (lesser s.recv_len max_len))) [
  | inl some_read ↦
      let (out, s', e, t) = take_bytes-Taken s (lesser s.recv_len max_len) v (ground arith) in
      (out, s', rw some_read e, t)
  | inr none_read ↦ (
    [],
    s,
    rw none_read refl,
    record {
      live = v;
      same = record { proto = refl; state = refl; pcb = refl; src_ip = refl; src_port = refl };
      count = ground arith;
      bytes = refl;
    },
  )
]

module _ (n : Net) (i : ℕ) (s : Socket) where
  -- Socket `i` of an unlocked state is `s`, and has its buffer.
  pub record IsOpen : Type 0 where
    pub at : get_elem? n.sockets i ≡ some s
    pub slot : i < max_sockets
    pub live : IsLive s
    pub unlocked : n.net_lock ≡ false

  copy_in_lem :
      (p : List ℕ)
      → IsOpen
      → (s' : Socket) × (copy_in i p n
          ≡ some
              (fitting s (length p), record n { sockets = set n.sockets i s'; net_lock = false }))
        × Appended s (take (fitting s (length p)) p) s'
  unfolding copy_in
  copy_in_lem p o =
      let (s', e, a, k) = accept-Appended s p o.live in
      (s', ground (arith, e, k, o.at, o.unlocked), a)

  -- The state after a segment `p` has been taken in, with `s'` for the socket: the event on the
  -- queue, the lock released, and all of the segment acknowledged to lwIP.
  abbrev pub after_segment : Socket → (tpcb : ℕ) → List ℕ → Net
  after_segment s' tpcb p = record n {
    sockets = set n.sockets i s';
    queue =
        (event_enqueue
          (tcp_event EventType.tcp_received (pos i) (Payload.received (fitting s (length p)) 0 0))
          n.queue).1;
    net_lock = false;
    trace = Call.pbuf_free ∷ Call.tcp_recved tpcb (length p) ∷ n.trace;
  }

  -- When lwIP hands a segment `p` with no error to an open socket, `tcp_recv_callback` returns
  -- ERR_OK, appends the bytes that the buffer has room for to the bytes received, tells lwIP that
  -- all of the segment is received, frees the pbuf, puts an event with the number of bytes stored
  -- on the queue, releases the lock and changes no other socket.
  pub tcp_recv_callback_lem :
      (w : World) (tpcb : ℕ) (p : List ℕ)
      → IsOpen
      → (s' : Socket) × (tcp_recv_callback w (pos i) tpcb (some p) w.err_ok n
          ≡ some (w.err_ok, after_segment s' tpcb p))
        × Appended s (take (fitting s (length p)) p) s'
  unfolding tcp_recv_callback
  tcp_recv_callback_lem w tpcb p o =
      let (s', e, a) = copy_in_lem p o in (s', ground (arith, e, eq_ℤ-refl w.err_ok, o.slot), a)

  IsOpen-set : (s' : Socket) → IsOpen → IsLive s' → get_elem? (set n.sockets i s') i ≡ some s'
  IsOpen-set s' o live = get_elem?-set_self n.sockets i s' (lt-length_of_some n.sockets i s o.at)

  -- What `pico_tcp_read` returns: the number of bytes, or -2 for a connection that is closed and
  -- has no more data.
  abbrev pub read_code : ℕ → ℤ
  read_code max_len =
      let k = lesser s.recv_len max_len in
      if (k == 0) && is_closed s.state then minus_two else pos k

  -- On an open TCP socket `pico_tcp_read` takes as many bytes as there are and as the buffer has
  -- room for from the front of those received, leaves the rest in order, returns their number (-2
  -- if that is 0 and the socket is closed), releases the lock, and changes no other socket and
  -- nothing else.
  pub pico_tcp_read_lem :
      (max_len : ℕ)
      → IsOpen
      → s.proto ≡ Proto.tcp
      → (out : List ℕ) × (s' : Socket) × (pico_tcp_read (pos i) max_len n
          ≡ some (
            (read_code max_len, out),
            record n { sockets = set n.sockets i s'; net_lock = false },
          ))
        × Taken s (lesser s.recv_len max_len) out s'
  unfolding pico_tcp_read
  pico_tcp_read_lem max_len o is_tcp =
      let (out, s', e, t) = yield-Taken s max_len o.live in
      (out, s', ground (arith, e, is_tcp, o.at, o.slot, o.unlocked, t.same.state), t)

-- The socket stays open when a call leaves it in a live state.
pub IsOpen-after :
    (n : Net) (i : ℕ) (s s' : Socket) (q : EventQueue) (t : Trace)
    → IsOpen n i s
    → IsLive s'
    → IsOpen
        (record n { sockets = set n.sockets i s'; queue = q; net_lock = false; trace = t })
        i
        s'
IsOpen-after n i s s' q t o v = record {
  at = IsOpen-set n i s s' o v;
  slot = o.slot;
  live = v;
  unlocked = refl;
}
