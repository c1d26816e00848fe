-- ===== src/Queue/Spsc.antt =====
-- `event_enqueue` and `net_event_get` on two cores: each access to a shared variable is a step, and
-- the steps of the producer and the consumer come in any order. A `__dmb` keeps the accesses of a
-- core in program order, so a step is seen whole by the other core.
pub mod Inv
pub mod Safety
use pico_ocaml.Prelude.{◌≡◌, ◌≢◌, ℕ, some, List, [], ◌∷◌, ◌++◌, set, get_elem?}
use pico_ocaml.Queue.{Event, EventQueue, empty_queue, next_index}

-- Where `event_enqueue` stands, with its locals.
pub data Producer : Type 0 where
  idle : Producer
  testing : (event : Event) (head : ℕ) → Producer  -- before it reads the tail
  storing : (event : Event) (head : ℕ) → Producer  -- before it writes the slot
  publishing : (event : Event) (head : ℕ) → Producer  -- before it writes the head

-- Where `net_event_get` stands, with its locals.
pub data Consumer : Type 0 where
  idle : Consumer
  testing : (tail : ℕ) → Consumer  -- before it reads the head
  reading : (tail : ℕ) → Consumer  -- before it reads the slot
  freeing : (event : Event) (tail : ℕ) → Consumer  -- before it writes the tail

-- `published` and `returned` are history: the events whose enqueue has returned 0, and those that
-- `net_event_get` has returned, oldest first. The lists `new` of the moves are what they add.
pub record System : Type 0 where
  pub queue : EventQueue
  pub producer : Producer
  pub consumer : Consumer
  pub published : List Event
  pub returned : List Event

pub data Produce (q : EventQueue) : Producer → EventQueue → Producer → List Event → Type 0 where
  call : (e : Event) → Produce q Producer.idle q (Producer.testing e q.head) []
  full :
      {e : Event} {h : ℕ}
      → next_index h ≡ q.tail
      → Produce q (Producer.testing e h) q Producer.idle []
  room :
      {e : Event} {h : ℕ}
      → next_index h ≢ q.tail
      → Produce q (Producer.testing e h) q (Producer.storing e h) []
  store :
      {e : Event} {h : ℕ}
      → Produce q
          (Producer.storing e h)
          (record q { slots = set q.slots h e })
          (Producer.publishing e h)
          []
  publish :
      {e : Event} {h : ℕ}
      → Produce q
          (Producer.publishing e h)
          (record q { head = next_index h })
          Producer.idle
          (e ∷ [])

pub data Consume (q : EventQueue) : Consumer → EventQueue → Consumer → List Event → Type 0 where
  call : Consume q Consumer.idle q (Consumer.testing q.tail) []
  empty : {t : ℕ} → t ≡ q.head → Consume q (Consumer.testing t) q Consumer.idle []
  some_event : {t : ℕ} → t ≢ q.head → Consume q (Consumer.testing t) q (Consumer.reading t) []
  read :
      {e : Event} {t : ℕ}
      → get_elem? q.slots t ≡ some e
      → Consume q (Consumer.reading t) q (Consumer.freeing e t) []
  free :
      {e : Event} {t : ℕ}
      → Consume q (Consumer.freeing e t) (record q { tail = next_index t }) Consumer.idle (e ∷ [])

pub data Step (s : System) : System → Type 0 where
  produce :
      {q : EventQueue} {p : Producer} {new : List Event}
      → Produce s.queue s.producer q p new
      → Step s (record s { queue = q; producer = p; published = s.published ++ new })
  consume :
      {q : EventQueue} {c : Consumer} {new : List Event}
      → Consume s.queue s.consumer q c new
      → Step s (record s { queue = q; consumer = c; returned = s.returned ++ new })

abbrev pub start : System
start = record {
  queue = empty_queue;
  producer = Producer.idle;
  consumer = Consumer.idle;
  published = [];
  returned = [];
}

pub data Reach : System → Type 0 where
  here : Reach start
  later : {s t : System} → Reach s → Step s t → Reach t
