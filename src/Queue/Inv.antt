-- ===== src/Queue/Inv.antt =====
-- The representation invariant of the event queue, and the FIFO that a queue stands for.
use pico_ocaml.Prelude.{
  ℕ, zero, suc, ◌+◌, ◌-◌, ◌<◌, ◌≡◌, refl, ap, List, [], ◌∷◌, length, get_or, length-set, arith,
}
use Prim.Native.Nat.{bit_and}
use pico_ocaml.Prelude.Bits.{bit_and-ones}
use pico_ocaml.Queue.{
  Event, zero_event, EventQueue, empty_queue, queue_size, mask, event_enqueue, net_event_get,
}

-- The slots are all there, and both indices lie among them.
pub record IsQueue (q : EventQueue) : Type 0 where
  pub slots_all : length q.slots ≡ queue_size
  pub head_in : q.head < queue_size
  pub tail_in : q.tail < queue_size

-- `x & NET_EVENT_QUEUE_MASK`
mask-bit_and : (x : ℕ) → bit_and x (queue_size - 1) ≡ mask x
mask-bit_and = bit_and-ones 5

-- the number of events that wait
abbrev pub pending : EventQueue → ℕ
pending q = mask (q.head + queue_size - q.tail)

-- the `n` events from slot `i` on, going round at the end
abbrev pub window : List Event → ℕ → ℕ → List Event
window slots i zero = []
window slots i (suc n) = get_or slots i zero_event ∷ window slots (mask (i + 1)) n

-- what the queue holds, oldest first
abbrev pub contents : EventQueue → List Event
contents q = window q.slots q.tail (pending q)

length-window : (slots : List Event) (i n : ℕ) → length (window slots i n) ≡ n
length-window slots i zero = refl
length-window slots i (suc n) = ap suc (length-window slots (mask (i + 1)) n)

pub length-contents : (q : EventQueue) → length (contents q) ≡ pending q
length-contents q = length-window q.slots q.tail (pending q)

pub empty_queue-IsQueue : IsQueue empty_queue
empty_queue-IsQueue = omega arith

pub event_enqueue-IsQueue : (e : Event) {q : EventQueue} → IsQueue q → IsQueue (event_enqueue e q).1
unfolding event_enqueue
event_enqueue-IsQueue e {q} v = ground (arith, length-set q.slots q.head e)

pub net_event_get-IsQueue : {q : EventQueue} → IsQueue q → IsQueue (net_event_get q).2
unfolding net_event_get
net_event_get-IsQueue v = ground arith
