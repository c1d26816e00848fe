-- ===== src/Net/Tcp.antt =====
-- net_stubs.c, TCP: the callbacks that lwIP makes and the functions that OCaml calls.
pub mod Stream
pub mod Pipe
pub mod Flow
pub mod Faults
pub mod Keeps
pub mod Moves
pub mod Cores
pub mod Connect
use pico_ocaml.Prelude.{
  ℕ, ◌+◌, ◌-◌, Option, none, some, List, length, take, drop, ltb, ◌==◌, not, ◌&&◌, if◌then◌else◌,
}
use pico_ocaml.Prelude.Int.{ℤ, pos, negsuc}
use pico_ocaml.Queue.{EventType, Payload, Event}
use pico_ocaml.Net.World.{World, Call}
use pico_ocaml.Net.State.{
  SocketState, is_closed, is_connected, Proto, is_tcp, Socket, M, pure, ◌>>=◌, ◌>>◌, load, store,
  call, ask, enqueue, net_lock_acquire, net_lock_release, lift, write_at, read_front, sub_size,
  lesser, with_slot, minus_one, minus_two, eq_ℤ, as_u16, as_int,
}
use pico_ocaml.Net.Socket.{socket_alloc, socket_free}

abbrev pub tcp_event : EventType → ℤ → Payload → Event
tcp_event kind id u = record { kind = kind; socket_id = id; u = u }

-- `recv_buf + recv_len` receives the first `to_copy` bytes of the pbuf.
unfoldable pub append_bytes : Socket → List ℕ → Option Socket
append_bytes s bytes = elim s.recv_buf [
  | none ↦ none
  | some block ↦ elim (write_at s.recv_len bytes block) [
    | none ↦ none
    | some block' ↦ some (record s { recv_buf = some block'; recv_len = s.recv_len + length bytes })
  ]
]

-- The section under the lock: how many bytes are copied.
pub copy_in : ℕ → List ℕ → M ℕ
unfolding load store net_lock_acquire net_lock_release append_bytes
copy_in i p = do
  net_lock_acquire
  s ← load i
  let space = sub_size s.recv_capacity s.recv_len
  let to_copy = lesser (length p) space
  s' ← lift (if ltb 0 to_copy then append_bytes s (take to_copy p) else some s)
  store i s'
  net_lock_release
  pure to_copy

-- `arg` is the socket's number; `p` is the pbuf's data, `none` for NULL. `tot_len` is its length.
pub tcp_recv_callback : World → ℤ → (tpcb : ℕ) → Option (List ℕ) → (err : ℤ) → M ℤ
unfolding copy_in call enqueue load store
tcp_recv_callback w arg tpcb none err = with_slot arg (pure w.err_val) λ i. do
  s ← load i
  store i (record s { state = SocketState.closed })
  enqueue (tcp_event EventType.tcp_closed arg Payload.zeroed)
  pure w.err_ok
tcp_recv_callback w arg tpcb (some p) err =
    with_slot arg (do call Call.pbuf_free; pure w.err_val)
      λ i. if not (eq_ℤ err w.err_ok) then (do call Call.pbuf_free; pure err) else do
        to_copy ← copy_in i p
        call (Call.tcp_recved tpcb (length p))
        call Call.pbuf_free
        enqueue (tcp_event EventType.tcp_received arg (Payload.received to_copy 0 0))
        pure w.err_ok

pub tcp_sent_callback : World → ℤ → (len : ℕ) → M ℤ
unfolding enqueue
tcp_sent_callback w arg len = do
  enqueue (tcp_event EventType.tcp_sent arg (Payload.sent len))
  pure w.err_ok

pub tcp_err_callback : ℤ → (err : ℤ) → M (Unit {0})
unfolding enqueue load store
tcp_err_callback arg err = do
  with_slot arg (pure tt)
      λ i. do s ← load i; store i (record s { state = SocketState.failed; pcb = none })
  enqueue (tcp_event EventType.tcp_error arg (Payload.error err))

pub tcp_connected_callback : World → ℤ → (err : ℤ) → M ℤ
unfolding enqueue load store
tcp_connected_callback w arg err = do
  with_slot arg (pure tt) λ i. do
    s ← load i
    store i (record s {
      state = if eq_ℤ err w.err_ok then SocketState.connected else SocketState.failed;
    })
  enqueue (tcp_event EventType.tcp_connected arg (Payload.error err))
  pure w.err_ok

-- `pico_tcp_create` after `socket_alloc` has returned `sock_id`.
tcp_open : World → ℕ → M ℤ
unfolding load store call ask
tcp_open w i = do
  pcb ← ask Call.tcp_new w.tcp_new_result
  elim pcb [
    | none ↦ (do socket_free (pos i); pure minus_one)
    | some h ↦ (do
      s ← load i
      store i (record s { pcb = some h })
      call (Call.tcp_callbacks h i)
      pure (pos i))
  ]

unfoldable pub pico_tcp_create : World → M ℤ
unfolding socket_alloc tcp_open
pico_tcp_create w = do
  sock_id ← socket_alloc w Proto.tcp
  elim sock_id [ negsuc _ ↦ pure minus_one | pos i ↦ tcp_open w i ]

-- The guard that the functions below share: the socket is TCP and has a pcb.
with_tcp_pcb : ℤ → (ℕ → Socket → ℕ → M ℤ) → M ℤ
unfolding load
with_tcp_pcb sock_id k = with_slot sock_id (pure minus_one) λ i. do
  s ← load i
  elim s.pcb [ none ↦ pure minus_one | some h ↦ if is_tcp s.proto then k i s h else pure minus_one ]

unfoldable pub pico_tcp_connect : World → ℤ → (ip port : ℕ) → M ℤ
unfolding with_tcp_pcb store call ask
pico_tcp_connect w sock_id ip port = with_tcp_pcb sock_id λ i s h. do
  store i (record s { state = SocketState.connecting })
  call Call.lwip_begin
  err ← ask (Call.tcp_connect h ip port) w.connect_result
  call Call.lwip_end
  pure (if eq_ℤ err w.err_ok then pos 0 else minus_one)

-- `tcp_write` takes the length as a `u16_t`.
pub pico_tcp_write : World → ℤ → List ℕ → M ℤ
unfolding with_tcp_pcb call ask
pico_tcp_write w sock_id bytes = with_tcp_pcb sock_id λ i s h.
    if not (is_connected s.state) then pure minus_one else do
      call Call.lwip_begin
      err ← ask (Call.tcp_write h (take (as_u16 (length bytes)) bytes)) w.write_result
      if eq_ℤ err w.err_ok then call (Call.tcp_output h) else pure tt
      call Call.lwip_end
      pure (if eq_ℤ err w.err_ok then as_int (length bytes) else minus_one)

-- `memcpy` out of the front, `memmove` of what is left to the front.
unfoldable pub take_bytes : Socket → ℕ → Option (List ℕ × Socket)
take_bytes s to_read = elim s.recv_buf [
  | none ↦ none
  | some block ↦ elim (read_front to_read block) [
    | none ↦ none
    | some out ↦
        elim (if ltb to_read s.recv_len
          then write_at 0 (take (s.recv_len - to_read) (drop to_read block)) block
          else some block) [
            | none ↦ none
            | some block' ↦
                some (out, record s { recv_buf = some block'; recv_len = s.recv_len - to_read })
          ]
  ]
]

-- The result, with the bytes written to `buf`, which has room for `max_len`.
pub pico_tcp_read : ℤ → (max_len : ℕ) → M (ℤ × List ℕ)
unfolding load store net_lock_acquire net_lock_release take_bytes
pico_tcp_read sock_id max_len = with_slot sock_id (pure (minus_one, List.[])) λ i. do
  s ← load i
  if not (is_tcp s.proto) then pure (minus_one, List.[]) else do
    net_lock_acquire
    let to_read = lesser s.recv_len max_len
    (out, s') ← lift (if ltb 0 to_read then take_bytes s to_read else some (List.[], s))
    store i s'
    net_lock_release
    pure ((if (to_read == 0) && is_closed s'.state then minus_two else pos to_read), out)

pub pico_tcp_close : ℤ → M (Unit {0})
unfolding load call
pico_tcp_close sock_id = with_slot sock_id (pure tt) λ i. do
  s ← load i
  if not (is_tcp s.proto) then pure tt else do
    elim s.pcb [
      | none ↦ pure tt
      | some h ↦ (do
        call Call.lwip_begin
        call (Call.tcp_no_callbacks h)
        call (Call.tcp_close h)
        call Call.lwip_end)
    ]
    socket_free sock_id
