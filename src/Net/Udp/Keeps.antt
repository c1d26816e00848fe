-- ===== src/Net/Udp/Keeps.antt =====
-- The UDP functions that open no socket and move no received data keep the table sound.
use pico_ocaml.Prelude.{arith, ◌^◌, ◌<◌, ℕ, not, Option, none, some, List, if◌then◌else◌, length}
use pico_ocaml.Prelude.Int.{ℤ, pos}
use pico_ocaml.Net.World.{World, Call}
use pico_ocaml.Net.State.{
  is_tcp, Socket, M, pure, ◌>>◌, load, call, ask, eq_ℤ, minus_one, lift, as_u16, as_int,
}
use pico_ocaml.Net.Socket.Keeps.{Keeps-socket_free}
use pico_ocaml.Net.Udp.{with_udp_pcb, payload_of, pico_udp_bind, pico_udp_sendto, pico_udp_close}
use pico_ocaml.Net.Safety.{
  Keeps, Safe-bind, Safe-if, Safe-slot, Keeps-pure, Keeps-then, Keeps-call, Keeps-ask, Safe-load,
}

Keeps-with_udp_pcb :
    (id : ℤ) (k : ℕ → Socket → ℕ → M ℤ)
    → ((i : ℕ) (s : Socket) (h : ℕ) → Keeps (k i s h))
    → Keeps (with_udp_pcb id k)
unfolding with_udp_pcb
Keeps-with_udp_pcb id k hk =
    Safe-slot id (pure minus_one) _ (Keeps-pure minus_one)
      λ i lt. Safe-bind (load i) _ (Safe-load i lt) λ s _. guarded i s s.pcb
  where
    guarded :
        (i : ℕ) (s : Socket) (pcb : Option ℕ)
        → Keeps (elim pcb [
          | none ↦ pure minus_one
          | some h ↦ if is_tcp s.proto then pure minus_one else k i s h
        ])
    guarded i s none = Keeps-pure minus_one
    guarded i s (some p) =
        Safe-if (is_tcp s.proto) (pure minus_one) (k i s p) (Keeps-pure minus_one) (hk i s p)

pub Keeps-pico_udp_bind : (w : World) (id : ℤ) (port : ℕ) → Keeps (pico_udp_bind w id port)
unfolding pico_udp_bind
Keeps-pico_udp_bind w id port = Keeps-with_udp_pcb id _ λ i s h.
    Keeps-then _ _ (Keeps-call Call.lwip_begin) (
      Safe-bind (ask (Call.udp_bind h port) w.bind_result)
        (λ err. call Call.lwip_end >> pure (if eq_ℤ err w.err_ok then pos 0 else minus_one))
        (Keeps-ask (Call.udp_bind h port) w.bind_result)
        λ err _.
          Keeps-then _ _ (Keeps-call Call.lwip_end)
            (Keeps-pure (if eq_ℤ err w.err_ok then pos 0 else minus_one)))

pub Keeps-pico_udp_sendto :
    (w : World) (id : ℤ) (ip port : ℕ) (bytes : List ℕ)
    → length bytes < 2 ^ 16
    → Keeps (pico_udp_sendto w id ip port bytes)
unfolding pico_udp_sendto
Keeps-pico_udp_sendto w id ip port bytes small = Keeps-with_udp_pcb id _ λ i s h.
    Safe-bind (ask (Call.pbuf_alloc size) (λ t. w.pbuf_alloc_result t size)) _
      (Keeps-ask (Call.pbuf_alloc size) (λ t. w.pbuf_alloc_result t size))
      λ got _. Safe-if (not got) (pure minus_one) _ (Keeps-pure minus_one) (
        Safe-bind (lift (payload_of size bytes)) _ fits λ payload _.
          Keeps-then _ _ (Keeps-call Call.lwip_begin) (
            Safe-bind (ask (Call.udp_sendto h ip port payload) w.sendto_result)
              (λ err.
                call Call.lwip_end
                >> (call Call.pbuf_free
                    >> pure (if eq_ℤ err w.err_ok then as_int (length bytes) else minus_one)))
              (Keeps-ask (Call.udp_sendto h ip port payload) w.sendto_result)
              λ err _. Keeps-then _ _ (Keeps-call Call.lwip_end) (
                Keeps-then _ _ (Keeps-call Call.pbuf_free)
                  (Keeps-pure (if eq_ℤ err w.err_ok then as_int (length bytes) else minus_one)))))
  where
    size : ℕ
    size = as_u16 (length bytes)

    -- All the bytes fit the payload.
    fits : Keeps (lift (payload_of size bytes))
    fits n v = (bytes, n, ground (arith, small), v, tt)

Keeps-remove :
    (pcb : Option ℕ)
    → Keeps (elim pcb [
      | none ↦ pure tt
      | some h ↦ (do call Call.lwip_begin; call (Call.udp_remove h); call Call.lwip_end)
    ])
Keeps-remove none = Keeps-pure tt
Keeps-remove (some h) =
    Keeps-then _ _ (Keeps-call Call.lwip_begin)
      (Keeps-then _ _ (Keeps-call (Call.udp_remove h)) (Keeps-call Call.lwip_end))

pub Keeps-pico_udp_close : (id : ℤ) → Keeps (pico_udp_close id)
unfolding pico_udp_close
Keeps-pico_udp_close id = Safe-slot id _ _ (Keeps-pure tt) λ i lt.
    Safe-bind _ _ (Safe-load i lt) λ s h.
      Safe-if (is_tcp s.proto) _ _ (Keeps-pure tt)
        (Keeps-then _ _ (Keeps-remove s.pcb) (Keeps-socket_free id))
