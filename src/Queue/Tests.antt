-- ===== src/Queue/Tests.antt =====
-- Runs of the event queue, and its theorems at concrete queues.
use pico_ocaml.Queue.Abstract.{run_iff-contents}
use pico_ocaml.Prelude.{
  ℕ, ◌≡◌, ◌≢◌, ◌≤◌, refl, List, [], ◌∷◌, ◌++◌, replicate, set, length, get_elem?, some, arith, ◌↔◌,
}
use pico_ocaml.Prelude.Int.{pos}
use pico_ocaml.Queue.{
  EventType, Payload, Event, zero_event, EventQueue, empty_queue, event_enqueue, net_event_get,
}
use pico_ocaml.Queue.Fifo
use pico_ocaml.Queue.Fifo.{Op, put, get, poll}
use pico_ocaml.Queue.Inv.{IsQueue, contents, empty_queue-IsQueue}
use pico_ocaml.Queue.Refine.{event_enqueue_refines, net_event_get_refines, run, run_refines}
use pico_ocaml.Queue.Spsc.{
  Producer, Consumer, System, Produce, Consume, produce, consume, Reach, here, later, start,
}
use pico_ocaml.Queue.Spsc.Safety.{spsc_fifo, spsc_no_race}

abbrev received_on : ℕ → Event
received_on n = record {
  kind = EventType.tcp_received;
  socket_id = pos n;
  u = Payload.received 10 0 0;
}

-- One event in the last slot; the head has gone round.
abbrev wrapped : EventQueue
wrapped = record { slots = set (replicate 32 zero_event) 31 (received_on 2); head = 0; tail = 31 }

wrapped-IsQueue : IsQueue wrapped
wrapped-IsQueue = omega arith

event_enqueue_refines_example :
    let (s, q') = event_enqueue (received_on 3) wrapped in
    (s, contents q') ≡ Fifo.push (received_on 3) (received_on 2 ∷ [])
event_enqueue_refines_example = event_enqueue_refines (received_on 3) wrapped-IsQueue

net_event_get_refines_example :
    let (s, out, q') = net_event_get wrapped in
    (s, out, contents q') ≡ Fifo.pop (received_on 2 ∷ [])
net_event_get_refines_example = net_event_get_refines wrapped-IsQueue

abbrev calls : List Op
calls = poll ∷ put (received_on 3) ∷ get ∷ get ∷ get ∷ []

run_refines_example : run wrapped calls ≡ Fifo.run (received_on 2 ∷ []) calls
run_refines_example = run_refines calls wrapped-IsQueue

-- The first event is published; the producer is about to store a second while the consumer is
-- about to read the first.
abbrev crossing_queue : EventQueue
crossing_queue = record empty_queue {
  slots = set (replicate 32 zero_event) 0 (received_on 1);
  head = 1;
}

abbrev crossing : System
crossing = record {
  queue = crossing_queue;
  producer = Producer.storing (received_on 2) 1;
  consumer = Consumer.reading 0;
  published = received_on 1 ∷ [];
  returned = [];
}

first_published : Reach (record start { queue = crossing_queue; published = received_on 1 ∷ [] })
first_published =
    later
      (later
        (later (later here (produce (Produce.call (received_on 1))))
          (produce (Produce.room (omega arith))))
        (produce Produce.store))
      (produce Produce.publish)

crossing-Reach : Reach crossing
crossing-Reach =
    later
      (later
        (later (later first_published (produce (Produce.call (received_on 2))))
          (produce (Produce.room (omega arith))))
        (consume Consume.call))
      (consume (Consume.some_event (omega arith)))

spsc_fifo_example :
    (crossing.published ≡ [] ++ (received_on 1 ∷ [])) × (length (contents crossing.queue) ≤ 31)
spsc_fifo_example = spsc_fifo crossing-Reach

spsc_no_race_example :
    (◌≢◌ {A = ℕ} 1 0) × ((x : Event) × (get_elem? crossing.queue.slots 0 ≡ some x))
spsc_no_race_example = spsc_no_race crossing-Reach refl refl

-- Empty queues that have been used differently.
abbrev used : EventQueue
used = record { slots = set (replicate 32 zero_event) 4 (received_on 3); head = 5; tail = 5 }

used-IsQueue : IsQueue used
used-IsQueue = record { slots_all = refl; head_in = omega arith; tail_in = omega arith }

run_iff-contents_example :
    ((ops : List Op) → run empty_queue ops ≡ run used ops) ↔ (contents empty_queue ≡ contents used)
run_iff-contents_example = run_iff-contents empty_queue-IsQueue used-IsQueue
