-- ===== src/Net/Create.antt =====
-- `pico_tcp_create` and `pico_udp_create`: the sockets that they open, and whether a second call
-- can get the same one.
pub mod Keeps
use pico_ocaml.Prelude.{
  ℕ, ◌<◌, ◌≡◌, refl, ◌∙◌, ◌≢◌, Option, none, some, List, ◌∷◌, arith, length, set, length-set,
  get_elem?-set_self,
}
use pico_ocaml.Prelude.Int.{pos}
use pico_ocaml.Net.World.{World, Call, Trace}
use pico_ocaml.Net.State.{
  max_sockets, max_recv_buffer, SocketState, Proto, Socket, zero_socket, Net, minus_one,
}
use pico_ocaml.Net.Socket.{claim, socket_alloc}
use pico_ocaml.Net.Socket.Alloc.{
  first_closed, socket_alloc_lem, set-set, first_closed-lt, first_closed-set_closed,
  first_closed-is_closed, freed, socket_free_lem,
}
use pico_ocaml.Net.Tcp.{pico_tcp_create}
use pico_ocaml.Net.Udp.{pico_udp_create}

-- What `socket_alloc` puts in the slot.
abbrev pub fresh : Proto → Option (List ℕ) → Socket
fresh proto buf = record zero_socket {
  proto = proto;
  recv_capacity = max_recv_buffer;
  recv_buf = buf;
}

-- The state of a socket that `pico_tcp_create` has opened: it stays closed until it is connected.
abbrev pub tcp_socket : List ℕ → (pcb : ℕ) → Socket
tcp_socket b h = record (fresh Proto.tcp (some b)) { pcb = some h }

abbrev pub udp_socket : List ℕ → (pcb : ℕ) → Socket
udp_socket b h = record (fresh Proto.udp (some b)) { pcb = some h; state = SocketState.connected }

module _ (w : World) (n : Net) (i : ℕ) where
  -- A slot is free, and it is the first.
  pub record HasRoom : Type 0 where
    pub all : length n.sockets ≡ max_sockets
    pub free : first_closed n.sockets ≡ some i

  abbrev after_alloc : Proto → Option (List ℕ) → Net
  after_alloc proto buf = record n {
    sockets = set n.sockets i (fresh proto buf);
    trace = Call.malloc max_recv_buffer ∷ n.trace;
  }

  -- The trace when `tcp_new` or `udp_new` is called.
  abbrev pub allocated : Trace
  allocated = Call.malloc max_recv_buffer ∷ n.trace

  socket_alloc-ok :
      (proto : Proto) (b : List ℕ)
      → HasRoom
      → w.malloc_result n.trace max_recv_buffer ≡ some b
      → socket_alloc w proto n ≡ some (pos i, after_alloc proto (some b))
  unfolding claim
  socket_alloc-ok proto b r m =
      socket_alloc_lem w proto n r.all
      ∙ ground (arith, r.free, m, set-set n.sockets i (fresh proto none) (fresh proto (some b)))

  abbrev pub after_tcp_create : List ℕ → ℕ → Net
  after_tcp_create b h = record n {
    sockets = set n.sockets i (tcp_socket b h);
    trace = Call.tcp_callbacks h i ∷ Call.tcp_new ∷ allocated;
  }

  pub pico_tcp_create-ok :
      (b : List ℕ) (h : ℕ)
      → HasRoom
      → w.malloc_result n.trace max_recv_buffer ≡ some b
      → w.tcp_new_result allocated ≡ some h
      → pico_tcp_create w n ≡ some (pos i, after_tcp_create b h)
  unfolding pico_tcp_create
  pico_tcp_create-ok b h r m t = ground (
    arith,
    socket_alloc-ok Proto.tcp b r m,
    t,
    get_elem?-set_self n.sockets i (fresh Proto.tcp (some b)) lt,
    set-set n.sockets i (fresh Proto.tcp (some b)) (tcp_socket b h),
  )
    where
      lt : i < length n.sockets
      lt = first_closed-lt n.sockets i r.free

  -- With every slot in use `socket_alloc` changes nothing and returns -1.
  pub socket_alloc-full :
      (proto : Proto)
      → length n.sockets ≡ max_sockets
      → first_closed n.sockets ≡ none
      → socket_alloc w proto n ≡ some (minus_one, n)
  socket_alloc-full proto all full = socket_alloc_lem w proto n all ∙ ground (arith, full)

  abbrev pub after_udp_create : List ℕ → ℕ → Net
  after_udp_create b h = record n {
    sockets = set n.sockets i (udp_socket b h);
    trace = Call.udp_recv h i ∷ Call.udp_new ∷ allocated;
  }

  pub pico_udp_create-ok :
      (b : List ℕ) (h : ℕ)
      → HasRoom
      → w.malloc_result n.trace max_recv_buffer ≡ some b
      → w.udp_new_result allocated ≡ some h
      → pico_udp_create w n ≡ some (pos i, after_udp_create b h)
  unfolding pico_udp_create
  pico_udp_create-ok b h r m t = ground (
    arith,
    socket_alloc-ok Proto.udp b r m,
    t,
    get_elem?-set_self n.sockets i (fresh Proto.udp (some b)) (first_closed-lt n.sockets i r.free),
    set-set n.sockets i (fresh Proto.udp (some b)) (udp_socket b h),
  )

  -- When lwIP has no pcb left, `pico_tcp_create` frees the buffer it took and the slot is closed
  -- again, without buffer or pcb, and returns -1.
  pub pico_tcp_create-no_pcb :
      (b : List ℕ)
      → HasRoom
      → w.malloc_result n.trace max_recv_buffer ≡ some b
      → w.tcp_new_result allocated ≡ none
      → pico_tcp_create w n
        ≡ some (
          minus_one,
          record n {
            sockets = set n.sockets i (fresh Proto.tcp none);
            trace = Call.free ∷ Call.tcp_new ∷ allocated;
          },
        )
  unfolding pico_tcp_create
  pico_tcp_create-no_pcb b r m t = ground (
    arith,
    socket_alloc-ok Proto.tcp b r m,
    t,
    socket_free_lem refused i (fresh Proto.tcp (some b)) (omega (arith, lt, r.all))
        (get_elem?-set_self n.sockets i (fresh Proto.tcp (some b)) lt),
    set-set n.sockets i (fresh Proto.tcp (some b)) (freed (fresh Proto.tcp (some b))),
  )
    where
      lt : i < length n.sockets
      lt = first_closed-lt n.sockets i r.free

      refused : Net
      refused = record (after_alloc Proto.tcp (some b)) { trace = Call.tcp_new ∷ allocated }

-- The slot that a TCP socket was just created in is still the first closed one.
HasRoom-tcp :
    (w : World) (n : Net) (i : ℕ) (b : List ℕ) (h : ℕ)
    → HasRoom w n i
    → HasRoom w (after_tcp_create w n i b h) i
HasRoom-tcp w n i b h r = record {
  all = length-set n.sockets i (tcp_socket b h) ∙ r.all;
  free = first_closed-set_closed n.sockets i (tcp_socket b h) r.free refl;
}

-- Two calls of `pico_tcp_create` in a row, with memory and pcbs to be had, return the same socket:
-- the slot of the first is taken for free, since its state is still closed. The second call replaces
-- the buffer and the pcb of the first, and no call frees the one or closes the other.
pub tcp_create_twice :
    (w : World) (n : Net) (i : ℕ) (b b' : List ℕ) (h h' : ℕ)
    → HasRoom w n i
    → w.malloc_result n.trace max_recv_buffer ≡ some b
    → w.tcp_new_result (allocated w n i) ≡ some h
    → w.malloc_result (after_tcp_create w n i b h).trace max_recv_buffer ≡ some b'
    → w.tcp_new_result (allocated w (after_tcp_create w n i b h) i) ≡ some h'
    → (pico_tcp_create w n ≡ some (pos i, after_tcp_create w n i b h))
      × (pico_tcp_create w (after_tcp_create w n i b h)
          ≡ some (
            pos i,
            record n {
              sockets = set n.sockets i (tcp_socket b' h');
              trace =
                  Call.tcp_callbacks h' i
                  ∷ Call.tcp_new
                  ∷ Call.malloc max_recv_buffer
                  ∷ Call.tcp_callbacks h i
                  ∷ Call.tcp_new
                  ∷ Call.malloc max_recv_buffer
                  ∷ n.trace;
            },
          ))
tcp_create_twice w n i b b' h h' r m t m' t' = (
  pico_tcp_create-ok w n i b h r m t,
  pico_tcp_create-ok w (after_tcp_create w n i b h) i b' h' (HasRoom-tcp w n i b h r) m' t'
      ∙ ground (arith, set-set n.sockets i (tcp_socket b h) (tcp_socket b' h')),
)

-- A UDP socket that was just created is in use: no allocation after it, for TCP or UDP, is given
-- its slot.
pub udp_create_exclusive :
    (w : World) (n : Net) (i j : ℕ) (b : List ℕ) (h : ℕ)
    → HasRoom w n i
    → w.malloc_result n.trace max_recv_buffer ≡ some b
    → w.udp_new_result (allocated w n i) ≡ some h
    → HasRoom w (after_udp_create w n i b h) j
    → (pico_udp_create w n ≡ some (pos i, after_udp_create w n i b h)) × (j ≢ i)
udp_create_exclusive w n i j b h r m t r' = (
  pico_udp_create-ok w n i b h r m t,
  λ same.
      let (s, at, c) = first_closed-is_closed (set n.sockets i (udp_socket b h)) j r'.free in
      ground (
        arith,
        same,
        at,
        c,
        get_elem?-set_self n.sockets i (udp_socket b h) (first_closed-lt n.sockets i r.free),
      ),
)
