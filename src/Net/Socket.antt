-- ===== src/Net/Socket.antt =====
-- net_stubs.c, the socket table: `net_init`, `socket_alloc` and `socket_free`.
pub mod Alloc
pub mod Keeps
use pico_ocaml.Prelude.{ℕ, zero, suc, ◌+◌, true, none, some, is_some, replicate, if◌then◌else◌}
use pico_ocaml.Prelude.Int.{ℤ, pos}
use pico_ocaml.Net.World.{World, Call}
use pico_ocaml.Net.State.{
  max_sockets, max_recv_buffer, SocketState, is_closed, Proto, zero_socket, M, pure, ◌>>=◌, ◌>>◌,
  load, store, call, ask, with_slot, minus_one,
}

unfoldable pub net_init : M (Unit {0})
net_init n = some (
  tt,
  if n.net_initialized
      then n
      else record n { sockets = replicate max_sockets zero_socket; net_initialized = true },
)

-- The body of `if (sockets[i].state == SOCKET_STATE_CLOSED)`.
unfoldable pub claim : World → Proto → ℕ → M ℤ
unfolding store ask
claim w proto i = do
  store i (record zero_socket { proto = proto; recv_capacity = max_recv_buffer })
  buf ← ask (Call.malloc max_recv_buffer) (λ t. w.malloc_result t max_recv_buffer)
  store i (record zero_socket { proto = proto; recv_capacity = max_recv_buffer; recv_buf = buf })
  pure (if is_some buf then pos i else minus_one)

-- The loop of `socket_alloc` from slot `i` on, with `rounds` slots left.
pub alloc_from : World → Proto → (rounds : ℕ) → ℕ → M ℤ
unfolding load claim
alloc_from w proto zero i = pure minus_one
alloc_from w proto (suc rounds) i = do
  s ← load i
  let rest = alloc_from w proto rounds (i + 1)
  if is_closed s.state then claim w proto i else rest

unfoldable pub socket_alloc : World → Proto → M ℤ
unfolding alloc_from
socket_alloc w proto = alloc_from w proto max_sockets 0

free_slot : ℕ → M (Unit {0})
unfolding load store call
free_slot i = do
  s ← load i
  if is_some s.recv_buf then call Call.free else pure tt
  store i (record s { recv_buf = none; state = SocketState.closed; pcb = none })

pub socket_free : ℤ → M (Unit {0})
unfolding free_slot
socket_free sock_id = with_slot sock_id (pure tt) free_slot
