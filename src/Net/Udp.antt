-- ===== src/Net/Udp.antt =====
-- net_stubs.c, UDP: the receive callback and the functions that OCaml calls.
pub mod Datagrams
pub mod Calls
pub mod Keeps
pub mod Moves
use pico_ocaml.Prelude.{ℕ, Option, none, some, List, length, take, ltb, leb, not, if◌then◌else◌}
use pico_ocaml.Prelude.Int.{ℤ, pos, negsuc}
use pico_ocaml.Queue.{EventType, Payload}
use pico_ocaml.Net.World.{World, Call}
use pico_ocaml.Net.State.{
  SocketState, Proto, is_tcp, Socket, M, pure, ◌>>=◌, ◌>>◌, load, store, call, ask, enqueue,
  net_lock_acquire, net_lock_release, lift, read_front, sub_size, lesser, with_slot, minus_one,
  eq_ℤ, as_u16, as_int,
}
use pico_ocaml.Net.Socket.{socket_alloc, socket_free}
use pico_ocaml.Net.Tcp.{append_bytes}

-- The section under the lock, with the sender's address that it records.
pub copy_datagram : ℕ → List ℕ → (addr port : ℕ) → M ℕ
unfolding load store net_lock_acquire net_lock_release append_bytes
copy_datagram i p addr port = do
  net_lock_acquire
  s ← load i
  let space = sub_size s.recv_capacity s.recv_len
  let to_copy = lesser (length p) space
  let from = record s { udp_src_ip = addr; udp_src_port = port }
  s' ← lift (if ltb 0 to_copy then append_bytes from (take to_copy p) else some s)
  store i s'
  net_lock_release
  pure to_copy

pub udp_recv_callback : ℤ → Option (List ℕ) → (addr port : ℕ) → M (Unit {0})
unfolding copy_datagram call enqueue
udp_recv_callback arg none addr port = pure tt
udp_recv_callback arg (some p) addr port = with_slot arg (call Call.pbuf_free) λ i. do
  to_copy ← copy_datagram i p addr port
  call Call.pbuf_free
  enqueue (record {
    kind = EventType.udp_received;
    socket_id = arg;
    u = Payload.received to_copy addr port;
  })

-- `pico_udp_create` after `socket_alloc` has returned `sock_id`.
udp_open : World → ℕ → M ℤ
unfolding load store call ask
udp_open w i = do
  pcb ← ask Call.udp_new w.udp_new_result
  elim pcb [
    | none ↦ (do socket_free (pos i); pure minus_one)
    | some h ↦ (do
      s ← load i
      store i (record s { pcb = some h; state = SocketState.connected })
      call (Call.udp_recv h i)
      pure (pos i))
  ]

unfoldable pub pico_udp_create : World → M ℤ
unfolding socket_alloc udp_open
pico_udp_create w = do
  sock_id ← socket_alloc w Proto.udp
  elim sock_id [ negsuc _ ↦ pure minus_one | pos i ↦ udp_open w i ]

with_udp_pcb : ℤ → (ℕ → Socket → ℕ → M ℤ) → M ℤ
unfolding load
with_udp_pcb sock_id k = with_slot sock_id (pure minus_one) λ i. do
  s ← load i
  elim s.pcb [ none ↦ pure minus_one | some h ↦ if is_tcp s.proto then pure minus_one else k i s h ]

pub pico_udp_bind : World → ℤ → (port : ℕ) → M ℤ
unfolding with_udp_pcb call ask
pico_udp_bind w sock_id port = with_udp_pcb sock_id λ i s h. do
  call Call.lwip_begin
  err ← ask (Call.udp_bind h port) w.bind_result
  call Call.lwip_end
  pure (if eq_ℤ err w.err_ok then pos 0 else minus_one)

-- `memcpy` into the payload of a pbuf, which has `size` bytes
abbrev pub payload_of : (size : ℕ) → List ℕ → Option (List ℕ)
payload_of size bytes = if leb (length bytes) size then some bytes else none

-- `pbuf_alloc` takes the length as a `u16_t`.
pub pico_udp_sendto : World → ℤ → (ip port : ℕ) → List ℕ → M ℤ
unfolding with_udp_pcb call ask
pico_udp_sendto w sock_id ip port bytes = with_udp_pcb sock_id λ i s h. do
  let size = as_u16 (length bytes)
  got ← ask (Call.pbuf_alloc size) (λ t. w.pbuf_alloc_result t size)
  if not got then pure minus_one else do
    payload ← lift (payload_of size bytes)
    call Call.lwip_begin
    err ← ask (Call.udp_sendto h ip port payload) w.sendto_result
    call Call.lwip_end
    call Call.pbuf_free
    pure (if eq_ℤ err w.err_ok then as_int (length bytes) else minus_one)

-- What is read: the bytes written to `buf`, and, if there are any, the sender that is written
-- through `src_ip` and `src_port` where these are not NULL.
pub record Datagram : Type 0 where
  pub bytes : List ℕ
  pub sender : Option (ℕ × ℕ)

abbrev pub no_datagram : Datagram
no_datagram = record { bytes = List.[]; sender = none }

pub take_datagram : Socket → ℕ → Option (Datagram × Socket)
take_datagram s to_read = elim s.recv_buf [
  | none ↦ none
  | some block ↦ elim (read_front to_read block) [
    | none ↦ none
    | some out ↦ some (
      record { bytes = out; sender = some (s.udp_src_ip, s.udp_src_port) },
      record s { recv_len = 0 },
    )
  ]
]

pub pico_udp_recvfrom : ℤ → (max_len : ℕ) → M (ℤ × Datagram)
unfolding load store net_lock_acquire net_lock_release take_datagram
pico_udp_recvfrom sock_id max_len = with_slot sock_id (pure (minus_one, no_datagram)) λ i. do
  s ← load i
  if is_tcp s.proto then pure (minus_one, no_datagram) else do
    net_lock_acquire
    let to_read = lesser s.recv_len max_len
    (out, s') ← lift (if ltb 0 to_read then take_datagram s to_read else some (no_datagram, s))
    store i s'
    net_lock_release
    pure (pos to_read, out)

pub pico_udp_close : ℤ → M (Unit {0})
unfolding load call
pico_udp_close sock_id = with_slot sock_id (pure tt) λ i. do
  s ← load i
  if is_tcp s.proto then pure tt else do
    elim s.pcb [
      | none ↦ pure tt
      | some h ↦ (do call Call.lwip_begin; call (Call.udp_remove h); call Call.lwip_end)
    ]
    socket_free sock_id
