-- ===== src/Net/Tcp/Moves.antt =====
-- `tcp_recv_callback` with data and `pico_tcp_read` keep the table sound.
use pico_ocaml.Prelude.{
  ℕ, ◌≡◌, refl, ap, ◌∙◌, inl, inr, true, false, none, some, List, [], ◌∷◌, arith, ltb,
  if◌then◌else◌, is_some, ltb→lt, Bool-cases, length, set,
}
use pico_ocaml.Prelude.Int.{ℤ, pos, negsuc}
use pico_ocaml.Queue.{EventType, Payload, event_enqueue}
use pico_ocaml.Queue.Inv.{event_enqueue-IsQueue}
use pico_ocaml.Net.World.{World, Call}
use pico_ocaml.Net.State.{
  max_sockets, Proto, is_tcp, Net, call, eq_ℤ, minus_one, minus_two, is_closed,
}
use pico_ocaml.Net.Tcp.{tcp_event, tcp_recv_callback, pico_tcp_read}
use pico_ocaml.Net.Tcp.Stream.{fitting, after_segment, tcp_recv_callback_lem, pico_tcp_read_lem}
use pico_ocaml.Net.Safety.{
  IsSound-pcb, IsNet, AllSound-get, At, moved, socket_at, Returns, Keeps-call, Keeps-then,
  Keeps-pure,
}

eq_ℤ→≡ : (a b : ℤ) → eq_ℤ a b ≡ true → a ≡ b
eq_ℤ→≡ (pos a) (pos b) e = ap pos (ground arith)
eq_ℤ→≡ (negsuc a) (negsuc b) e = ap negsuc (ground arith)
eq_ℤ→≡ (pos a) (negsuc b) e = cc
eq_ℤ→≡ (negsuc a) (pos b) e = cc

is_tcp→≡ : (p : Proto) → is_tcp p ≡ true → p ≡ Proto.tcp
is_tcp→≡ Proto.tcp e = refl
is_tcp→≡ Proto.udp e = cc

-- lwIP hands a segment to a socket that has a pcb, or to none, with or without an error.
pub tcp_recv_callback-IsNet :
    (w : World) (arg : ℤ) (tpcb : ℕ) (p : List ℕ) (err : ℤ) (n : Net)
    → IsNet n
    → At (λ s. is_some s.pcb ≡ true) n arg
    → Returns (λ r. Unit {0}) (tcp_recv_callback w arg tpcb (some p) err) n
unfolding tcp_recv_callback
tcp_recv_callback-IsNet w (negsuc i) tpcb p err n v h =
    Keeps-then (call Call.pbuf_free) _ (Keeps-call Call.pbuf_free) (Keeps-pure w.err_val) n v
tcp_recv_callback-IsNet w (pos i) tpcb p err n v h = elim (Bool-cases (ltb i max_sockets)) [
  | inr outside ↦
      rw outside
        (Keeps-then (call Call.pbuf_free) _ (Keeps-call Call.pbuf_free) (Keeps-pure w.err_val) n v)
  | inl inside ↦ elim (Bool-cases (eq_ℤ err w.err_ok)) [
    | inr failed ↦
        rw (inside, failed)
          (Keeps-then (call Call.pbuf_free) _ (Keeps-call Call.pbuf_free) (Keeps-pure err) n v)
    | inl good ↦
        let lt = ltb→lt i max_sockets inside in
        let (s, at) = socket_at n i v lt in
        let live = IsSound-pcb s (AllSound-get n.sockets i s v.sound at) (h s at) in
        let (s', e, a) =
          tcp_recv_callback_lem n i s w tpcb p
            (record { at = at; slot = lt; live = live; unlocked = v.unlocked }) in
        (
          w.err_ok,
          after_segment n i s s' tpcb p,
          ap (λ x. tcp_recv_callback w (pos i) tpcb (some p) x n) (eq_ℤ→≡ err w.err_ok good) ∙ e,
          moved n i s'
              (event_enqueue
                (tcp_event EventType.tcp_received (pos i)
                  (Payload.received (fitting s (length p)) 0 0))
                n.queue).1
              (Call.pbuf_free ∷ Call.tcp_recved tpcb (length p) ∷ n.trace) v (inl a.live)
              (event_enqueue-IsQueue
                (tcp_event EventType.tcp_received (pos i)
                  (Payload.received (fitting s (length p)) 0 0))
                v.queue),
          tt,
        )
  ]
]

-- A read from a socket that has its buffer, or nothing to read.
pub pico_tcp_read-IsNet :
    (id : ℤ) (max_len : ℕ) (n : Net)
    → IsNet n
    → At (λ s. (s.recv_buf ≡ none) → s.recv_len ≡ 0) n id
    → Returns (λ r. Unit {0}) (pico_tcp_read id max_len) n
unfolding pico_tcp_read
pico_tcp_read-IsNet (negsuc i) max_len n v h = Keeps-pure (minus_one, []) n v
pico_tcp_read-IsNet (pos i) max_len n v h = elim (Bool-cases (ltb i max_sockets)) [
  | inr outside ↦ rw outside (Keeps-pure (minus_one, []) n v)
  | inl inside ↦
      let lt = ltb→lt i max_sockets inside in
      let (s, at) = socket_at n i v lt in
      elim (Bool-cases (is_tcp s.proto)) [
        | inr other ↦ ((minus_one, []), n, ground (arith, inside, at, other), v, tt)
        | inl same ↦ elim (AllSound-get n.sockets i s v.sound at) [
          | inl live ↦
              let (out, s', e, t) =
                pico_tcp_read_lem n i s max_len
                  (record { at = at; slot = lt; live = live; unlocked = v.unlocked })
                  (is_tcp→≡ s.proto same) in
              (_, _, e, moved n i s' n.queue n.trace v (inl t.live) v.queue, tt)
          | inr gone ↦
              let empty = h s at gone.0 in
              (
                (if is_closed s.state then minus_two else pos 0, []),
                record n { sockets = set n.sockets i s; net_lock = false },
                ground (arith, inside, at, same, empty, v.unlocked),
                moved n i s n.queue n.trace v (inr gone) v.queue,
                tt,
              )
        ]
      ]
]
