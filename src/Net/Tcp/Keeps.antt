-- ===== src/Net/Tcp/Keeps.antt =====
-- The TCP functions and callbacks that move no received data keep the table sound.
use pico_ocaml.Prelude.{take, ℕ, ◌<◌, refl, not, Option, none, some, List, if◌then◌else◌, length}
use pico_ocaml.Prelude.Int.{ℤ, pos}
use pico_ocaml.Net.World.{World, Call}
use pico_ocaml.Net.State.{
  SocketState, is_connected, is_tcp, Socket, M, pure, ◌>>◌, load, call, ask, eq_ℤ, minus_one,
  as_u16, as_int, max_sockets,
}
use pico_ocaml.Net.Socket.Keeps.{Keeps-socket_free}
use pico_ocaml.Net.Tcp.{
  tcp_recv_callback, tcp_sent_callback, tcp_err_callback, tcp_connected_callback, with_tcp_pcb,
  pico_tcp_connect, pico_tcp_write, pico_tcp_close,
}
use pico_ocaml.Net.Safety.{
  IsSound, IsSound-same, Keeps, Safe-bind, Safe-if, Safe-slot, Keeps-pure, Keeps-then, Keeps-call,
  Keeps-ask, Keeps-enqueue, Safe-load, Keeps-store,
}

Keeps-with_tcp_pcb :
    (id : ℤ) (k : ℕ → Socket → ℕ → M ℤ)
    → ((i : ℕ) (s : Socket) (h : ℕ) → i < max_sockets → IsSound s → Keeps (k i s h))
    → Keeps (with_tcp_pcb id k)
unfolding with_tcp_pcb
Keeps-with_tcp_pcb id k hk =
    Safe-slot id (pure minus_one) _ (Keeps-pure minus_one)
      λ i lt. Safe-bind (load i) _ (Safe-load i lt) λ s h. guarded i lt s h s.pcb
  where
    guarded :
        (i : ℕ)
        → i < max_sockets
        → (s : Socket) → IsSound s
        → (pcb : Option ℕ)
        → Keeps (elim pcb [
          | none ↦ pure minus_one
          | some h ↦ if is_tcp s.proto then k i s h else pure minus_one
        ])
    guarded i lt s h none = Keeps-pure minus_one
    guarded i lt s h (some p) =
        Safe-if (is_tcp s.proto) (k i s p) (pure minus_one) (hk i s p lt h) (Keeps-pure minus_one)

IsSound-state : (s : Socket) (st : SocketState) → IsSound s → IsSound (record s { state = st })
IsSound-state s st h = IsSound-same s (record s { state = st }) refl refl refl (λ e. e) h

pub Keeps-pico_tcp_connect :
    (w : World) (id : ℤ) (ip port : ℕ) → Keeps (pico_tcp_connect w id ip port)
unfolding pico_tcp_connect
Keeps-pico_tcp_connect w id ip port = Keeps-with_tcp_pcb id _ λ i s h lt v.
    Keeps-then _ _ (Keeps-store i _ (IsSound-state s SocketState.connecting v)) (
      Keeps-then _ _ (Keeps-call Call.lwip_begin) (
        Safe-bind (ask (Call.tcp_connect h ip port) w.connect_result)
          (λ err. call Call.lwip_end >> pure (if eq_ℤ err w.err_ok then pos 0 else minus_one))
          (Keeps-ask (Call.tcp_connect h ip port) w.connect_result)
          λ err _.
            Keeps-then _ _ (Keeps-call Call.lwip_end)
              (Keeps-pure (if eq_ℤ err w.err_ok then pos 0 else minus_one))))

pub Keeps-pico_tcp_write : (w : World) (id : ℤ) (bytes : List ℕ) → Keeps (pico_tcp_write w id bytes)
unfolding pico_tcp_write
Keeps-pico_tcp_write w id bytes = Keeps-with_tcp_pcb id _ λ i s h lt v.
    Safe-if (not (is_connected s.state)) _ _ (Keeps-pure _) (
      Keeps-then _ _ (Keeps-call Call.lwip_begin) (
        Safe-bind (ask (Call.tcp_write h (take (as_u16 (length bytes)) bytes)) w.write_result)
          (λ err.
            (if eq_ℤ err w.err_ok then call (Call.tcp_output h) else pure tt)
            >> (call Call.lwip_end
                >> pure (if eq_ℤ err w.err_ok then as_int (length bytes) else minus_one)))
          (Keeps-ask (Call.tcp_write h (take (as_u16 (length bytes)) bytes)) w.write_result)
          λ err _.
            Keeps-then _ _
              (Safe-if (eq_ℤ err w.err_ok) _ _ (Keeps-call (Call.tcp_output h)) (Keeps-pure tt))
              (Keeps-then _ _ (Keeps-call Call.lwip_end)
                (Keeps-pure (if eq_ℤ err w.err_ok then as_int (length bytes) else minus_one)))))

Keeps-detach :
    (pcb : Option ℕ)
    → Keeps (elim pcb [
      | none ↦ pure tt
      | some h ↦ (do
        call Call.lwip_begin
        call (Call.tcp_no_callbacks h)
        call (Call.tcp_close h)
        call Call.lwip_end)
    ])
Keeps-detach none = Keeps-pure tt
Keeps-detach (some h) = Keeps-then _ _ (Keeps-call Call.lwip_begin) (
    Keeps-then _ _ (Keeps-call (Call.tcp_no_callbacks h))
      (Keeps-then _ _ (Keeps-call (Call.tcp_close h)) (Keeps-call Call.lwip_end)))

pub Keeps-pico_tcp_close : (id : ℤ) → Keeps (pico_tcp_close id)
unfolding pico_tcp_close
Keeps-pico_tcp_close id = Safe-slot id _ _ (Keeps-pure tt) λ i lt.
    Safe-bind _ _ (Safe-load i lt) λ s h.
      Safe-if (not (is_tcp s.proto)) _ _ (Keeps-pure tt)
        (Keeps-then _ _ (Keeps-detach s.pcb) (Keeps-socket_free id))

pub Keeps-tcp_sent_callback : (w : World) (arg : ℤ) (len : ℕ) → Keeps (tcp_sent_callback w arg len)
unfolding tcp_sent_callback
Keeps-tcp_sent_callback w arg len = Keeps-then _ _ (Keeps-enqueue _) (Keeps-pure _)

pub Keeps-tcp_err_callback : (arg err : ℤ) → Keeps (tcp_err_callback arg err)
unfolding tcp_err_callback
Keeps-tcp_err_callback arg err =
    Keeps-then _ _
      (Safe-slot arg _ _ (Keeps-pure tt) λ i lt. Safe-bind _ _ (Safe-load i lt) λ s h.
        Keeps-store i _ (
          IsSound-same s (record s { state = SocketState.failed; pcb = none }) refl refl refl
            (λ e. refl) h))
      (Keeps-enqueue _)

pub Keeps-tcp_connected_callback :
    (w : World) (arg err : ℤ) → Keeps (tcp_connected_callback w arg err)
unfolding tcp_connected_callback
Keeps-tcp_connected_callback w arg err =
    Keeps-then _ _
      (Safe-slot arg _ _ (Keeps-pure tt)
        λ i lt. Safe-bind _ _ (Safe-load i lt) λ s h. Keeps-store i _ (IsSound-state s _ h))
      (Keeps-then _ _ (Keeps-enqueue _) (Keeps-pure _))

-- The remote side has closed the connection.
pub Keeps-tcp_recv_closed :
    (w : World) (arg : ℤ) (tpcb : ℕ) (err : ℤ) → Keeps (tcp_recv_callback w arg tpcb none err)
unfolding tcp_recv_callback
Keeps-tcp_recv_closed w arg tpcb err = Safe-slot arg _ _ (Keeps-pure _) λ i lt.
    Safe-bind _ _ (Safe-load i lt) λ s h.
      Keeps-then _ _ (Keeps-store i _ (IsSound-state s SocketState.closed h))
        (Keeps-then _ _ (Keeps-enqueue _) (Keeps-pure _))
