-- ===== src/Net/Create/Keeps.antt =====
-- `pico_tcp_create` and `pico_udp_create` keep the table sound, on every branch.
use pico_ocaml.Prelude.{
  ℕ, ◌<◌, ◌≡◌, refl, ◌∙◌, inl, inr, none, some, List, ◌∷◌, arith, Option-cases, length, set,
  length-set, get_elem?-set_self,
}
use pico_ocaml.Prelude.Int.{pos}
use pico_ocaml.Net.World.{World, Call, Trace}
use pico_ocaml.Net.State.{max_recv_buffer, Proto, Socket, Net, minus_one}
use pico_ocaml.Net.Socket.{claim, socket_alloc}
use pico_ocaml.Net.Socket.Alloc.{
  first_closed, socket_alloc_lem, set-set, first_closed-lt, freed, socket_free_lem,
}
use pico_ocaml.Net.Tcp.{pico_tcp_create}
use pico_ocaml.Net.Udp.{pico_udp_create}
use pico_ocaml.Net.Create.{
  fresh, HasRoom, allocated, tcp_socket, udp_socket, socket_alloc-ok, pico_tcp_create-ok,
  pico_udp_create-ok, pico_tcp_create-no_pcb, socket_alloc-full,
}
use pico_ocaml.Net.Safety.{IsSound, AllSound-set, IsNet, Returns, Keeps}

module _ (w : World) (n : Net) (v : IsNet n) where
  room : (i : ℕ) → first_closed n.sockets ≡ some i → HasRoom w n i
  room i e = record { all = v.all; free = e }

  -- A sound socket put in a slot, and calls noted.
  opened :
      (i : ℕ) (s : Socket) (t : Trace)
      → IsSound s
      → IsNet (record n { sockets = set n.sockets i s; trace = t })
  opened i s t h = record {
    all = length-set n.sockets i s ∙ v.all;
    sound = AllSound-set n.sockets i s v.sound h;
    queue = v.queue;
    unlocked = v.unlocked;
  }

  -- A new socket is sound if it has the block that malloc returned.
  new_socket-IsSound :
      (s : Socket) (b : List ℕ)
      → s.recv_buf ≡ some b
      → s.recv_capacity ≡ max_recv_buffer
      → s.recv_len ≡ 0
      → w.malloc_result n.trace max_recv_buffer ≡ some b
      → IsSound s
  new_socket-IsSound s b e c l m = inl (record {
    block = b;
    is_block = e;
    size = w.malloc_length n.trace max_recv_buffer b m;
    capacity = c;
    within = omega (arith, l);
  })

  -- Without memory the slot stays closed and without buffer.
  socket_alloc-no_memory :
      (proto : Proto) (i : ℕ)
      → first_closed n.sockets ≡ some i
      → w.malloc_result n.trace max_recv_buffer ≡ none
      → socket_alloc w proto n
        ≡ some (
          minus_one,
          record n { sockets = set n.sockets i (fresh proto none); trace = allocated w n i },
        )
  unfolding claim
  socket_alloc-no_memory proto i e m =
      socket_alloc_lem w proto n v.all
      ∙ ground (arith, e, m, set-set n.sockets i (fresh proto none) (fresh proto none))

  pico_tcp_create-IsNet : Returns (λ r. Unit {0}) (pico_tcp_create w) n
  unfolding pico_tcp_create
  pico_tcp_create-IsNet = elim (Option-cases (first_closed n.sockets)) [
    | inl full ↦ (minus_one, n, ground (arith, socket_alloc-full w n 0 Proto.tcp v.all full), v, tt)
    | inr (i, free) ↦ elim (Option-cases (w.malloc_result n.trace max_recv_buffer)) [
      | inl m ↦ (
        minus_one,
        _,
        ground (arith, socket_alloc-no_memory Proto.tcp i free m),
        opened i (fresh Proto.tcp none) (allocated w n i) (inr (refl, refl)),
        tt,
      )
      | inr (b, m) ↦ elim (Option-cases (w.tcp_new_result (allocated w n i))) [
        | inl t ↦ (
          minus_one,
          _,
          pico_tcp_create-no_pcb w n i b (room i free) m t,
          opened i (fresh Proto.tcp none) _ (inr (refl, refl)),
          tt,
        )
        | inr (h, t) ↦ (
          pos i,
          _,
          pico_tcp_create-ok w n i b h (room i free) m t,
          opened i (tcp_socket b h) _ (new_socket-IsSound (tcp_socket b h) b refl refl refl m),
          tt,
        )
      ]
    ]
  ]

  -- Without a pcb the slot is closed again.
  pico_udp_create-no_pcb :
      (i : ℕ) (b : List ℕ)
      → first_closed n.sockets ≡ some i
      → w.malloc_result n.trace max_recv_buffer ≡ some b
      → w.udp_new_result (allocated w n i) ≡ none
      → pico_udp_create w n
        ≡ some (
          minus_one,
          record n {
            sockets = set n.sockets i (fresh Proto.udp none);
            trace = Call.free ∷ Call.udp_new ∷ allocated w n i;
          },
        )
  unfolding pico_udp_create
  pico_udp_create-no_pcb i b e m t = ground (
    arith,
    socket_alloc-ok w n i Proto.udp b (room i e) m,
    t,
    socket_free_lem refused i (fresh Proto.udp (some b)) (omega (arith, lt, v.all))
        (get_elem?-set_self n.sockets i (fresh Proto.udp (some b)) lt),
    set-set n.sockets i (fresh Proto.udp (some b)) (freed (fresh Proto.udp (some b))),
  )
    where
      lt : i < length n.sockets
      lt = first_closed-lt n.sockets i e

      refused : Net
      refused = record n {
        sockets = set n.sockets i (fresh Proto.udp (some b));
        trace = Call.udp_new ∷ allocated w n i;
      }

  pico_udp_create-IsNet : Returns (λ r. Unit {0}) (pico_udp_create w) n
  unfolding pico_udp_create
  pico_udp_create-IsNet = elim (Option-cases (first_closed n.sockets)) [
    | inl full ↦ (minus_one, n, ground (arith, socket_alloc-full w n 0 Proto.udp v.all full), v, tt)
    | inr (i, free) ↦ elim (Option-cases (w.malloc_result n.trace max_recv_buffer)) [
      | inl m ↦ (
        minus_one,
        _,
        ground (arith, socket_alloc-no_memory Proto.udp i free m),
        opened i (fresh Proto.udp none) (allocated w n i) (inr (refl, refl)),
        tt,
      )
      | inr (b, m) ↦ elim (Option-cases (w.udp_new_result (allocated w n i))) [
        | inl t ↦ (
          minus_one,
          _,
          pico_udp_create-no_pcb i b free m t,
          opened i (fresh Proto.udp none) _ (inr (refl, refl)),
          tt,
        )
        | inr (h, t) ↦ (
          pos i,
          _,
          pico_udp_create-ok w n i b h (room i free) m t,
          opened i (udp_socket b h) _ (new_socket-IsSound (udp_socket b h) b refl refl refl m),
          tt,
        )
      ]
    ]
  ]

pub Keeps-pico_tcp_create : (w : World) → Keeps (pico_tcp_create w)
Keeps-pico_tcp_create w n v = pico_tcp_create-IsNet w n v

pub Keeps-pico_udp_create : (w : World) → Keeps (pico_udp_create w)
Keeps-pico_udp_create w n v = pico_udp_create-IsNet w n v
