-- ===== src/Net/Udp/Calls.antt =====
-- The functions on a UDP socket that has its pcb.
use pico_ocaml.Prelude.{
  ℕ, ◌%◌, ◌^◌, ◌<◌, ◌≡◌, false, inl, inr, Bool-cases, some, List, ◌∷◌, length, set, get_elem?,
  arith, if◌then◌else◌, is_some,
}
use pico_ocaml.Prelude.Int.{ℤ, pos}
use pico_ocaml.Net.World.{World, Call, Trace}
use pico_ocaml.Net.State.{max_sockets, Proto, Socket, Net, eq_ℤ, minus_one, as_int}
use pico_ocaml.Net.Socket.Alloc.{freed, socket_free_lem}
use pico_ocaml.Net.Udp.{
  no_datagram, pico_udp_bind, pico_udp_sendto, pico_udp_recvfrom, pico_udp_close,
}
use pico_ocaml.Net.Tcp.Stream.{IsOpen}

-- What an `err_t` is made to.
abbrev code : World → (err ok : ℤ) → ℤ
code w err ok = if eq_ℤ err w.err_ok then ok else minus_one

module _ (n : Net) (i : ℕ) (s : Socket) (lt : i < max_sockets) (at : get_elem? n.sockets i ≡ some s)
    (udp : s.proto ≡ Proto.udp) (h : ℕ) (has_pcb : s.pcb ≡ some h) where
  -- Only calls of lwIP are made, and the bytes to send fit a pbuf.
  pub pico_udp_bind_lem :
      (w : World) (port : ℕ)
      → (r : ℤ) × (t : Trace) × (pico_udp_bind w (pos i) port n ≡ some (r, record n { trace = t }))
  unfolding pico_udp_bind
  pico_udp_bind_lem w port = (
    code w (w.bind_result (Call.lwip_begin ∷ n.trace)) (pos 0),
    Call.lwip_end ∷ Call.udp_bind h port ∷ Call.lwip_begin ∷ n.trace,
    ground (arith, lt, at, udp, has_pcb),
  )

  pub pico_udp_sendto_lem :
      (w : World) (ip port : ℕ) (bytes : List ℕ)
      → length bytes < 2 ^ 16
      → (r : ℤ) × (t : Trace) × (pico_udp_sendto w (pos i) ip port bytes n
          ≡ some (r, record n { trace = t }))
  unfolding pico_udp_sendto
  pico_udp_sendto_lem w ip port bytes small =
      elim (Bool-cases (w.pbuf_alloc_result n.trace (length bytes))) [
        | inl got ↦ (
          code w (w.sendto_result (Call.lwip_begin ∷ Call.pbuf_alloc (length bytes) ∷ n.trace))
              (as_int (length bytes)),
          Call.pbuf_free
              ∷ Call.lwip_end
              ∷ Call.udp_sendto h ip port bytes
              ∷ Call.lwip_begin
              ∷ Call.pbuf_alloc (length bytes)
              ∷ n.trace,
          ground (arith, lt, at, udp, has_pcb, got, same),
        )
        | inr no_pbuf ↦ (
          minus_one,
          Call.pbuf_alloc (length bytes) ∷ n.trace,
          ground (arith, lt, at, udp, has_pcb, no_pbuf, same),
        )
      ]
    where
      same : length bytes % 2 ^ 16 ≡ length bytes
      same = omega (arith, small)

  -- The pcb is removed and the slot is closed.
  pub pico_udp_close_lem :
      (t : Trace) × (pico_udp_close (pos i) n
        ≡ some (tt, record n { sockets = set n.sockets i (freed s); trace = t }))
  unfolding pico_udp_close
  pico_udp_close_lem =
      let removed = record n {
        trace = Call.lwip_end ∷ Call.udp_remove h ∷ Call.lwip_begin ∷ n.trace;
      } in
      (
        if is_some s.recv_buf then Call.free ∷ removed.trace else removed.trace,
        ground (arith, lt, at, udp, has_pcb, socket_free_lem removed i s lt at),
      )

-- With nothing received, a read gets nothing.
pub pico_udp_recvfrom_none :
    (n : Net) (i : ℕ) (s : Socket) (max_len : ℕ)
    → IsOpen n i s
    → s.proto ≡ Proto.udp
    → s.recv_len ≡ 0
    → pico_udp_recvfrom (pos i) max_len n
      ≡ some ((pos 0, no_datagram), record n { sockets = set n.sockets i s; net_lock = false })
unfolding pico_udp_recvfrom
pico_udp_recvfrom_none n i s max_len o e none_there =
    ground (arith, o.at, o.slot, o.unlocked, e, none_there)
