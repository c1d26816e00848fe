-- ===== src/Pio/Reads.antt =====
-- An open TCP socket while segments arrive: what the functions of net_stubs.c that pio.ml and
-- net.ml call find in it.
use pico_ocaml.Prelude.{
  ℕ, ◌≤◌, ◌≡◌, refl, sym, ap, ◌∙◌, false, some, List, [], ◌∷◌, ◌++◌, length, set, length-append,
  append-nil, arith,
}
use pico_ocaml.Prelude.Int.{pos}
use pico_ocaml.Prelude.Value.{val_int}
use pico_ocaml.Net.World.{World, Call}
use pico_ocaml.Net.State.{lesser, is_closed, Proto, Socket, Net, M, pure, ◌>>=◌}
use pico_ocaml.Net.Tcp.{tcp_recv_callback}
use pico_ocaml.Net.Tcp.Pipe
use pico_ocaml.Net.Tcp.Pipe.{Pipe}
use pico_ocaml.Net.Tcp.Stream.{
  IsOpen, IsOpen-after, after_segment, tcp_recv_callback_lem, pico_tcp_read_lem, read_code,
}
use pico_ocaml.Net.Tcp.Flow.{received-arrives}
use pico_ocaml.Net.Stubs.Values.{sock_of-val_of}
use pico_ocaml.Prelude.{nil_of_length}
use pico_ocaml.Net.Buffer.{received, length-received}
use pico_ocaml.Net.Stubs.{val_of, ocaml_tcp_read}
use pico_ocaml.Pio.{service_network}

-- Socket `i` is an open TCP socket, not closed by its peer, that has received `q`.
pub record Holds (n : Net) (i : ℕ) (q : Pipe) : Type 0 where
  pub socket : Socket
  pub opened : IsOpen n i socket
  pub tcp : socket.proto ≡ Proto.tcp
  pub alive : is_closed socket.state ≡ false
  pub bytes : received socket ≡ q

lesser_zero : (k : ℕ) → lesser k 0 ≡ 0
lesser_zero k = ground arith

module _ (i : ℕ) (q : Pipe) (n : Net) (h : Holds n i q) where
  pub service-Holds : (n' : Net) × (service_network n ≡ some (tt, n')) × Holds n' i q
  unfolding service_network
  service-Holds = (
    record n { trace = Call.arch_poll ∷ Call.arch_poll ∷ n.trace },
    refl,
    record {
      socket = h.socket;
      opened = record {
        at = h.opened.at;
        slot = h.opened.slot;
        live = h.opened.live;
        unlocked = h.opened.unlocked;
      };
      tcp = h.tcp;
      alive = h.alive;
      bytes = h.bytes;
    },
  )

  pub arrive-Holds :
      (w : World) (tpcb : ℕ) (p : List ℕ)
      → (n' : Net) × (tcp_recv_callback w (pos i) tpcb (some p) w.err_ok n ≡ some (w.err_ok, n'))
        × Holds n' i (Pipe.arrives p q)
  arrive-Holds w tpcb p =
      let (s', e, a) = tcp_recv_callback_lem n i h.socket w tpcb p h.opened in
      let n' = after_segment n i h.socket s' tpcb p in
      (
        n',
        e,
        record {
          socket = s';
          opened = IsOpen-after n i h.socket s' n'.queue n'.trace h.opened a.live;
          tcp = a.same.proto ∙ h.tcp;
          alive = ap is_closed a.same.state ∙ h.alive;
          bytes = received-arrives h.socket s' p h.opened.live a ∙ ap (Pipe.arrives p) h.bytes;
        },
      )

  -- A poll for reading asks for no byte at all.
  pub poll-Holds :
      (n' : Net) × (ocaml_tcp_read (val_of (pos i)) (val_int 0) n ≡ some ((val_int 0, []), n'))
      × Holds n' i q
  unfolding ocaml_tcp_read
  poll-Holds =
      let (out, s', e, t) = pico_tcp_read_lem n i h.socket 0 h.opened h.tcp in
      let none_out : out ≡ [] = nil_of_length out (t.count ∙ lesser_zero h.socket.recv_len) in
      let zero_code : read_code n i h.socket 0 ≡ pos 0 =
        rw (lesser_zero h.socket.recv_len, h.alive) refl in
      let n' = record n { sockets = set n.sockets i s'; net_lock = false } in
      (
        n',
        ground (arith, e, none_out, zero_code, sock_of-val_of i h.opened.slot),
        record {
          socket = s';
          opened = IsOpen-after n i h.socket s' n.queue n.trace h.opened t.live;
          tcp = t.same.proto ∙ h.tcp;
          alive = ap is_closed t.same.state ∙ h.alive;
          bytes = ap (λ o. o ++ received s') (sym none_out) ∙ sym t.bytes ∙ h.bytes;
        },
      )

-- A read with room for all gets all.
pub read-Holds :
    (i : ℕ) (q : Pipe) (n : Net)
    → Holds n i q
    → (n' : Net) × (ocaml_tcp_read (val_of (pos i)) (val_int 4096) n
        ≡ some ((val_int (length q), q), n'))
      × Holds n' i []
      × (length q ≤ 4096)
unfolding ocaml_tcp_read
read-Holds i q n h =
    let s = h.socket in
    let (out, s', e, t) = pico_tcp_read_lem n i s 4096 h.opened h.tcp in
    let size : s.recv_len ≡ length q = sym (length-received s h.opened.live) ∙ ap length h.bytes in
    let count : length out ≡ length q = t.count ∙ ground (arith, size, h.opened.live.within) in
    let none_left : received s' ≡ [] =
      nil_of_length (received s') (
        omega (arith, count, length-append out (received s'), ap length (sym t.bytes ∙ h.bytes))) in
    let all_out : out ≡ q =
      sym (append-nil out) ∙ ap (λ r. out ++ r) (sym none_left) ∙ sym t.bytes ∙ h.bytes in
    let code : read_code n i s 4096 ≡ pos (length q) =
      ground (arith, h.alive, size, h.opened.live.within) in
    (
      record n { sockets = set n.sockets i s'; net_lock = false },
      ground (arith, e, all_out, code, sock_of-val_of i h.opened.slot),
      record {
        socket = s';
        opened = IsOpen-after n i s s' n.queue n.trace h.opened t.live;
        tcp = t.same.proto ∙ h.tcp;
        alive = ap is_closed t.same.state ∙ h.alive;
        bytes = none_left;
      },
      omega (arith, size, h.opened.live.within),
    )

-- The segments that lwIP hands over before a round of the scheduler.
unfoldable pub deliver : World → ℕ → (tpcb : ℕ) → List (List ℕ) → M (Unit {0})
deliver w i tpcb [] = pure tt
deliver w i tpcb (p ∷ ps) = do
  code ← tcp_recv_callback w (pos i) tpcb (some p) w.err_ok
  deliver w i tpcb ps

-- What the socket has received after these, and nothing read.
unfoldable pub arrive_all : List (List ℕ) → Pipe → Pipe
arrive_all [] q = q
arrive_all (p ∷ ps) q = arrive_all ps (Pipe.arrives p q)

pub deliver-Holds :
    (w : World) (i tpcb : ℕ) (ps : List (List ℕ)) (q : Pipe) (n : Net)
    → Holds n i q
    → (n' : Net) × (deliver w i tpcb ps n ≡ some (tt, n')) × Holds n' i (arrive_all ps q)
unfolding deliver arrive_all
deliver-Holds w i tpcb [] q n h = (n, refl, h)
deliver-Holds w i tpcb (p ∷ ps) q n h =
    let (n1, e1, h1) = arrive-Holds i q n h w tpcb p in
    let (n2, e2, h2) = deliver-Holds w i tpcb ps (Pipe.arrives p q) n1 h1 in
    (n2, ground (arith, e1, e2), h2)
