-- ===== src/Queue.antt =====
-- net_stubs.c, the event queue: a ring of NET_EVENT_QUEUE_SIZE slots between the lwIP callbacks,
-- which advance the head, and the OCaml side, which advances the tail; with the types of
-- net_stubs.h that it stores.
pub mod Inv
pub mod Fifo
pub mod Refine
pub mod Abstract
pub mod Spsc
mod Tests
use pico_ocaml.Prelude.{
  ℕ, ◌+◌, ◌-◌, ◌%◌, ◌^◌, Bool, not, Option, none, some, List, set, get_elem?, replicate, ◌==◌,
  if◌then◌else◌,
}
use pico_ocaml.Prelude.Int.{ℤ, pos, negsuc}

-- `net_event_type_t`
pub data EventType : Type 0 where
  event_none wifi_connected wifi_disconnected tcp_connected tcp_received tcp_sent : EventType
  tcp_closed tcp_error udp_received dns_resolved : EventType

-- The union `u` of `net_event_t`. No code sets `received.data`, which stays NULL.
pub data Payload : Type 0 where
  zeroed : Payload
  received : (len remote_ip remote_port : ℕ) → Payload
  sent : (len : ℕ) → Payload
  error : (error_code : ℤ) → Payload
  dns : (ip_addr : ℕ) → Payload

-- `net_event_t`
pub record Event : Type 0 where
  pub kind : EventType
  pub socket_id : ℤ
  pub u : Payload

-- NET_EVENT_QUEUE_SIZE. `x & NET_EVENT_QUEUE_MASK`, a mask of five ones, is `x % queue_size`.
abbrev pub queue_size : ℕ
queue_size = 32

abbrev pub mask : ℕ → ℕ
mask x = x % queue_size

-- `event_queue`, `event_queue_head` and `event_queue_tail`
pub record EventQueue : Type 0 where
  pub slots : List Event
  pub head : ℕ
  pub tail : ℕ

-- A static array is zero at the start.
abbrev pub zero_event : Event
zero_event = record { kind = EventType.event_none; socket_id = pos 0; u = Payload.zeroed }

abbrev pub empty_queue : EventQueue
empty_queue = record { slots = replicate queue_size zero_event; head = 0; tail = 0 }

-- `(head + 1) & NET_EVENT_QUEUE_MASK`, in uint32_t
abbrev pub next_index : ℕ → ℕ
next_index i = mask ((i + 1) % 2 ^ 32)

pub event_enqueue : Event → EventQueue → ℤ × EventQueue
event_enqueue event q =
    let next_head = next_index q.head in
    if next_head == q.tail
    then (negsuc 0, q)
    else (pos 0, record q { slots = set q.slots q.head event; head = next_head })

-- The option is what is written through `event`.
pub net_event_get : EventQueue → ℤ × Option Event × EventQueue
net_event_get q =
    if q.tail == q.head
    then (pos 0, none, q)
    else (pos 1, get_elem? q.slots q.tail, record q { tail = next_index q.tail })

-- The test of `ocaml_net_has_event`.
pub has_event : EventQueue → Bool
has_event q = not (q.head == q.tail)
