-- ===== src/Clock/Ntp/Listening.antt =====
-- The socket of `ntp_query` while it is open.
use pico_ocaml.Net.Dns.{Others}
use pico_ocaml.Prelude.{
  ◌^◌, ℕ, ◌<◌, ◌≡◌, refl, ap, ◌∙◌, true, false, none, some, List, [], ◌∷◌, length, set, get_elem?,
  get_elem?-set_self, lt-length_of_some, arith,
}
use pico_ocaml.Prelude.Int.{pos}
use pico_ocaml.Prelude.Value.{val_int, int_val, val_unit}
use pico_ocaml.Net.World.{World, Call, Trace}
use pico_ocaml.Net.State.{max_recv_buffer, is_closed, Proto, Socket, Net}
use pico_ocaml.Net.Socket.Alloc.{freed, first_closed-lt}
use pico_ocaml.Net.Create.{HasRoom, after_udp_create, udp_socket}
use pico_ocaml.Net.Stubs.Values.{sock_of-val_of}
use pico_ocaml.Net.Buffer.{received}
use pico_ocaml.Net.Tcp.Stream.{IsOpen}
use pico_ocaml.Net.Udp.Calls.{pico_udp_bind_lem, pico_udp_sendto_lem, pico_udp_close_lem}
use pico_ocaml.Net.Stubs.{
  val_of, port_of, block_at, ocaml_udp_bind, ocaml_udp_sendto, ocaml_udp_close, ocaml_dns_resolve,
}
use pico_ocaml.Net.Dns.Wait.{resolved, AllKeep, dns_resolve_lem}
use pico_ocaml.Pio.{service_network}

-- Socket `i` is an open UDP socket with a pcb that has received `q`.
pub record Listens (n : Net) (i : ℕ) (q : List ℕ) : Type 0 where
  pub socket : Socket
  pub opened : IsOpen n i socket
  pub udp : socket.proto ≡ Proto.udp
  pub pcb : ℕ
  pub has_pcb : socket.pcb ≡ some pcb
  pub bytes : received socket ≡ q

-- Slot `i` is free, and nothing is left in it.
pub record IsFree (n : Net) (i : ℕ) : Type 0 where
  pub socket : Socket
  pub at : get_elem? n.sockets i ≡ some socket
  pub closed : is_closed socket.state ≡ true
  pub no_buffer : socket.recv_buf ≡ none
  pub no_pcb : socket.pcb ≡ none
  pub unlocked : n.net_lock ≡ false

-- Calls of the outside world, or changes of the other variables, leave it as it is.
Listens-moved :
    (i : ℕ) (q : List ℕ) (n : Net) (l : Listens n i q) (n' : Net)
    → n'.sockets ≡ n.sockets
    → n'.net_lock ≡ n.net_lock
    → Listens n' i q
Listens-moved i q n l n' s k = record {
  socket = l.socket;
  opened = record {
    at = ap (λ x. get_elem? x i) s ∙ l.opened.at;
    slot = l.opened.slot;
    live = l.opened.live;
    unlocked = k ∙ l.opened.unlocked;
  };
  udp = l.udp;
  pcb = l.pcb;
  has_pcb = l.has_pcb;
  bytes = l.bytes;
}

module _ (i : ℕ) (q : List ℕ) (n : Net) (l : Listens n i q) where
  Listens-same : (n' : Net) → n'.sockets ≡ n.sockets → n'.net_lock ≡ n.net_lock → Listens n' i q
  Listens-same = Listens-moved i q n l

  pub service-Listens : (n' : Net) × (service_network n ≡ some (tt, n')) × Listens n' i q
  unfolding service_network
  service-Listens =
      let n' = record n { trace = Call.arch_poll ∷ Call.arch_poll ∷ n.trace } in
      (n', refl, Listens-same n' refl refl)

  pub bind-Listens :
      (w : World) (port : ℕ)
      → (r : ℕ) × (n' : Net) × (ocaml_udp_bind w (val_of (pos i)) port n ≡ some (r, n'))
        × Listens n' i q
  unfolding ocaml_udp_bind
  bind-Listens w port =
      let (r, t, e) =
        pico_udp_bind_lem n i l.socket l.opened.slot l.opened.at l.udp l.pcb l.has_pcb w
          (port_of port) in
      (
        val_of r,
        record n { trace = t },
        ground (arith, e, sock_of-val_of i l.opened.slot),
        Listens-same _ refl refl,
      )

  pub sendto-Listens :
      (w : World) (ip port : ℕ) (bytes : ℕ → ℕ) (len : ℕ)
      → length (block_at bytes (int_val len)) < 2 ^ 16
      → (r : ℕ) × (n' : Net) × (ocaml_udp_sendto w (val_of (pos i)) ip port bytes len n
          ≡ some (r, n'))
        × Listens n' i q
  unfolding ocaml_udp_sendto
  sendto-Listens w ip port bytes len small =
      let (r, t, e) =
        pico_udp_sendto_lem n i l.socket l.opened.slot l.opened.at l.udp l.pcb l.has_pcb w
          (int_val ip) (port_of port) (block_at bytes (int_val len)) small in
      (
        val_of r,
        record n { trace = t },
        ground (arith, e, sock_of-val_of i l.opened.slot),
        Listens-same _ refl refl,
      )

  pub resolve-Listens :
      (w : World) (others : Others) (a : ℕ) (host : List ℕ)
      → AllKeep (λ m. Listens m i q) others
      → ((t : Trace) → resolved w (w.lookup_result t) ≡ some a)
      → (n' : Net) × (ocaml_dns_resolve w others host n ≡ some (val_int a, n')) × Listens n' i q
  unfolding ocaml_dns_resolve
  resolve-Listens w others a host keep found =
      let (n', e, l') =
        dns_resolve_lem (λ m. Listens m i q) w others host n
          (λ m lm t done ip.
            Listens-moved i q m lm (record m { trace = t; dns_done = done; dns_result_ip = ip })
              refl refl)
          keep l in
      (n', ground (arith, e, found (Call.lwip_begin ∷ n.trace)), l')

  pub close-IsFree :
      (r : ℕ) × (n' : Net) × (ocaml_udp_close (val_of (pos i)) n ≡ some (r, n')) × IsFree n' i
  unfolding ocaml_udp_close
  close-IsFree =
      let (t, e) =
        pico_udp_close_lem n i l.socket l.opened.slot l.opened.at l.udp l.pcb l.has_pcb in
      (
        val_unit,
        record n { sockets = set n.sockets i (freed l.socket); trace = t },
        ground (arith, e, sock_of-val_of i l.opened.slot),
        record {
          socket = freed l.socket;
          at =
              get_elem?-set_self n.sockets i (freed l.socket)
                (lt-length_of_some n.sockets i l.socket l.opened.at);
          closed = refl;
          no_buffer = refl;
          no_pcb = refl;
          unlocked = l.opened.unlocked;
        },
      )

-- The socket that `pico_udp_create` opens.
pub created-Listens :
    (w : World) (i : ℕ) (n : Net) (b : List ℕ) (h : ℕ)
    → HasRoom w n i
    → n.net_lock ≡ false
    → w.malloc_result n.trace max_recv_buffer ≡ some b
    → Listens (after_udp_create w n i b h) i []
created-Listens w i n b h room unlocked memory = record {
  socket = udp_socket b h;
  opened = record {
    at = get_elem?-set_self n.sockets i (udp_socket b h) lt;
    slot = omega (arith, lt, room.all);
    live = record {
      block = b;
      is_block = refl;
      size = w.malloc_length n.trace max_recv_buffer b memory;
      capacity = refl;
      within = omega arith;
    };
    unlocked = unlocked;
  };
  udp = refl;
  pcb = h;
  has_pcb = refl;
  bytes = refl;
}
  where
    lt : i < length n.sockets
    lt = first_closed-lt n.sockets i room.free
