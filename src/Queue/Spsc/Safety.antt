-- ===== src/Queue/Spsc/Safety.antt =====
-- What holds in every state that the two cores of the event queue reach.
use pico_ocaml.Prelude.{ℕ, ◌≤◌, ◌≡◌, ◌≢◌, ◌++◌, length, get_elem?, some, arith, subst, sym, ◌∙◌}
use pico_ocaml.Queue.{Event, zero_event, next_index}
use pico_ocaml.Queue.Inv.{contents, length-contents}
use pico_ocaml.Queue.Refine.{get_elem?-eq-get_or}
use pico_ocaml.Queue.Spsc.{Producer, Consumer, System, Reach}
use pico_ocaml.Queue.Spsc.Inv.{ProducerKnows, ConsumerKnows, Inv, Reach-Inv}

-- In every reachable state of the two cores, whatever the order of their steps, the events whose
-- enqueue returned 0 are those that `net_event_get` returned followed by those still in the queue,
-- in the same order: no event is lost, repeated, made up or reordered. At most 31 wait.
pub spsc_fifo :
    {s : System}
    → Reach s
    → (s.published ≡ s.returned ++ contents s.queue) × (length (contents s.queue) ≤ 31)
spsc_fifo {s} r = ((Reach-Inv r).fifo, omega (arith, length-contents s.queue))

-- In every reachable state a slot that the producer is about to write is not the one that the
-- consumer is about to read, and that read is inside the array.
pub spsc_no_race :
    {s : System} {e : Event} {h t : ℕ}
    → Reach s
    → s.producer ≡ Producer.storing e h
    → s.consumer ≡ Consumer.reading t
    → (h ≢ t) × ((x : Event) × (get_elem? s.queue.slots t ≡ some x))
spsc_no_race {s} {e} {h} {t} r ep ec = (
  λ same. cs.1 (sym same ∙ ps.0),
  (
    _,
    get_elem?-eq-get_or s.queue.slots t zero_event
        (omega (arith, i.queue.slots_all, i.queue.tail_in, cs.0)),
  ),
)
  where
    i : Inv s
    i = Reach-Inv r

    ps : ProducerKnows s.queue (Producer.storing e h)
    ps = subst (ProducerKnows s.queue) ep i.producer

    cs : ConsumerKnows s.queue (Consumer.reading t)
    cs = subst (ConsumerKnows s.queue) ec i.consumer

-- In every reachable state in which the producer is about to find the queue full, and so to drop
-- its event, exactly 31 events wait.
spsc_drop_only_full :
    {s : System} {e : Event} {h : ℕ}
    → Reach s
    → s.producer ≡ Producer.testing e h
    → next_index h ≡ s.queue.tail
    → length (contents s.queue) ≡ 31
spsc_drop_only_full {s} {e} {h} r ep full =
    omega (arith, length-contents s.queue, i.queue.head_in, i.queue.tail_in, ps)
  where
    i : Inv s
    i = Reach-Inv r

    ps : ProducerKnows s.queue (Producer.testing e h)
    ps = subst (ProducerKnows s.queue) ep i.producer
