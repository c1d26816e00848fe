-- ===== src/Net/Socket/Keeps.antt =====
-- `net_init` and `socket_free` keep the table sound.
use pico_ocaml.Prelude.{
  ℕ, zero, suc, ◌<◌, refl, inl, inr, true, none, if◌then◌else◌, is_some, Bool-cases, replicate,
}
use pico_ocaml.Prelude.Int.{ℤ}
use pico_ocaml.Net.World.{Call}
use pico_ocaml.Net.State.{max_sockets, SocketState, zero_socket, pure, load, call}
use pico_ocaml.Net.Socket.{net_init, free_slot, socket_free}
use pico_ocaml.Net.Safety.{
  AllSound, Keeps, Safe-bind, Safe-if, Safe-slot, Keeps-pure, Keeps-then, Keeps-call, Safe-load,
  Keeps-store,
}

pub zero_sockets-AllSound : (k : ℕ) → AllSound (replicate k zero_socket)
zero_sockets-AllSound zero = tt
zero_sockets-AllSound (suc k) = (inr (refl, refl), zero_sockets-AllSound k)

pub Keeps-net_init : Keeps net_init
unfolding net_init
Keeps-net_init n v = elim (Bool-cases n.net_initialized) [
  | inl before ↦ (tt, n, rw (before, net_init) refl, v, tt)
  | inr first ↦ (
    tt,
    record n { sockets = replicate max_sockets zero_socket; net_initialized = true },
    rw (first, net_init) refl,
    record {
      all = refl;
      sound = zero_sockets-AllSound max_sockets;
      queue = v.queue;
      unlocked = v.unlocked;
    },
    tt,
  )
]

Keeps-free_slot : (i : ℕ) → i < max_sockets → Keeps (free_slot i)
unfolding free_slot
Keeps-free_slot i lt = Safe-bind (load i) _ (Safe-load i lt) λ s h.
    Keeps-then (if is_some s.recv_buf then call Call.free else pure tt) _
      (Safe-if (is_some s.recv_buf) (call Call.free) (pure tt) (Keeps-call Call.free)
        (Keeps-pure tt))
      (Keeps-store i (record s { recv_buf = none; state = SocketState.closed; pcb = none })
        (inr (refl, refl)))

pub Keeps-socket_free : (id : ℤ) → Keeps (socket_free id)
unfolding socket_free
Keeps-socket_free id = Safe-slot id (pure tt) free_slot (Keeps-pure tt) Keeps-free_slot
