-- ===== src/Queue/Spsc/Inv.antt =====
-- The invariant of the two cores, kept by every step of either.
use pico_ocaml.Prelude.{
  ℕ, zero, suc, ◌+◌, ◌-◌, ◌<◌, ◌≡◌, ◌≢◌, refl, sym, ap, ap₂, ◌∙◌, List, [], ◌∷◌, ◌++◌, get_or, set,
  length-set, get_or-set_self, get_or-set_ne, arith, append-nil, append_assoc,
}
use pico_ocaml.Queue.{Event, zero_event, EventQueue, queue_size, mask, next_index}
use pico_ocaml.Queue.Inv.{IsQueue, empty_queue-IsQueue, pending, window, contents}
use pico_ocaml.Queue.Refine.{get_elem?-eq-get_or}
use pico_ocaml.Queue.Spsc.{
  Producer, Consumer, System, Produce, call, full, room, store, publish, Consume, empty, some_event,
  read, free, Step, produce, consume, start, Reach, here, later,
}

-- A write at the end of a window, or past it, is not seen in it.
window-set_outside :
    (slots : List Event) (x : Event) (k n i j : ℕ)
    → i < queue_size
    → n + k < queue_size
    → j ≡ mask (i + n + k)
    → window (set slots j x) i n ≡ window slots i n
window-set_outside slots x k zero i j hi hn e = refl
window-set_outside slots x k (suc n) i j hi hn e =
    ap₂ ◌∷◌ (get_or-set_ne slots j i x zero_event (omega arith))
      (window-set_outside slots x k n (mask (i + 1)) j (omega arith) (omega arith) (omega arith))

-- A window grows at its end.
window_snoc :
    (slots : List Event) (n i j : ℕ)
    → i < queue_size
    → j ≡ mask (i + n)
    → window slots i (suc n) ≡ window slots i n ++ (get_or slots j zero_event ∷ [])
window_snoc slots zero i j hi e =
    let here : i ≡ j = omega arith in ap (λ k. get_or slots k zero_event ∷ []) here
window_snoc slots (suc n) i j hi e =
    ap (◌∷◌ (get_or slots i zero_event))
      (window_snoc slots n (mask (i + 1)) j (omega arith) (omega arith))

-- What the locals of the producer say about the shared variables.
abbrev pub ProducerKnows : EventQueue → Producer → Type 0
ProducerKnows q Producer.idle = Unit {0}
ProducerKnows q (Producer.testing e h) = h ≡ q.head
ProducerKnows q (Producer.storing e h) = (h ≡ q.head) × (next_index h ≢ q.tail)
ProducerKnows q (Producer.publishing e h) =
    (h ≡ q.head) × (next_index h ≢ q.tail) × (get_or q.slots h zero_event ≡ e)

abbrev pub ConsumerKnows : EventQueue → Consumer → Type 0
ConsumerKnows q Consumer.idle = Unit {0}
ConsumerKnows q (Consumer.testing t) = t ≡ q.tail
ConsumerKnows q (Consumer.reading t) = (t ≡ q.tail) × (t ≢ q.head)
ConsumerKnows q (Consumer.freeing e t) =
    (t ≡ q.tail) × (t ≢ q.head) × (get_or q.slots t zero_event ≡ e)

pub record Inv (s : System) : Type 0 where
  pub queue : IsQueue s.queue
  pub producer : ProducerKnows s.queue s.producer
  pub consumer : ConsumerKnows s.queue s.consumer
  pub fifo : s.published ≡ s.returned ++ contents s.queue

Inv-start : Inv start
Inv-start = record { queue = empty_queue-IsQueue; producer = tt; consumer = tt; fifo = refl }

-- What a step of the producer does to the queue and to the other side's knowledge.
record Produced (q : EventQueue) (c : Consumer) (q' : EventQueue) (p' : Producer) (new : List Event)
    : Type 0 where
  queue : IsQueue q'
  producer : ProducerKnows q' p'
  consumer : ConsumerKnows q' c
  grown : contents q' ≡ contents q ++ new

consumer-store :
    (q : EventQueue) (c : Consumer) (h : ℕ) (e : Event)
    → h ≡ q.head
    → ConsumerKnows q c
    → ConsumerKnows (record q { slots = set q.slots h e }) c
consumer-store q Consumer.idle h e eh k = tt
consumer-store q (Consumer.testing t) h e eh k = k
consumer-store q (Consumer.reading t) h e eh k = k
consumer-store q (Consumer.freeing x t) h e eh k =
    (k.0, k.1, get_or-set_ne q.slots h t e zero_event (λ r. k.1 (sym r ∙ eh)) ∙ k.2)

consumer-publish :
    (q : EventQueue) (c : Consumer) (h : ℕ)
    → IsQueue q
    → h ≡ q.head
    → next_index h ≢ q.tail
    → ConsumerKnows q c
    → ConsumerKnows (record q { head = next_index h }) c
consumer-publish q Consumer.idle h v e r k = tt
consumer-publish q (Consumer.testing t) h v e r k = k
consumer-publish q (Consumer.reading t) h v e r k = (k.0, omega arith)
consumer-publish q (Consumer.freeing x t) h v e r k = (k.0, omega arith, k.2)

Produce-Produced :
    (q : EventQueue) (c : Consumer) {p p' : Producer} {q' : EventQueue} {new : List Event}
    → Produce q p q' p' new
    → IsQueue q
    → ProducerKnows q p
    → ConsumerKnows q c
    → Produced q c q' p' new
Produce-Produced q c (call e) v k l = record {
  queue = v;
  producer = refl;
  consumer = l;
  grown = sym (append-nil _);
}
Produce-Produced q c (full e) v k l = record {
  queue = v;
  producer = tt;
  consumer = l;
  grown = sym (append-nil _);
}
Produce-Produced q c (room e) v k l = record {
  queue = v;
  producer = (k, e);
  consumer = l;
  grown = sym (append-nil _);
}
Produce-Produced q c (store {e} {h}) v k l = record {
  queue = omega (arith, length-set q.slots h e);
  producer = (k.0, k.1, get_or-set_self q.slots h e zero_event (omega arith));
  consumer = consumer-store q c h e k.0 l;
  grown =
      window-set_outside q.slots e 0 (pending q) q.tail h (omega arith) (omega arith) (omega arith)
      ∙ sym (append-nil _);
}
Produce-Produced q c (publish {e} {h}) v k l = record {
  queue = omega arith;
  producer = tt;
  consumer = consumer-publish q c h v k.0 k.1 l;
  grown =
      ap (window q.slots q.tail) longer
      ∙ window_snoc q.slots (pending q) q.tail h (omega arith) (omega arith)
      ∙ ap (λ x. contents q ++ (x ∷ [])) k.2;
}
  where
    longer : mask (next_index h + queue_size - q.tail) ≡ suc (pending q)
    longer = omega arith

-- What a step of the consumer does.
record Consumed (q : EventQueue) (p : Producer) (q' : EventQueue) (c' : Consumer) (new : List Event)
    : Type 0 where
  queue : IsQueue q'
  producer : ProducerKnows q' p
  consumer : ConsumerKnows q' c'
  shrunk : contents q ≡ new ++ contents q'

producer-free :
    (q : EventQueue) (p : Producer) (t : ℕ)
    → IsQueue q
    → t ≡ q.tail
    → t ≢ q.head
    → ProducerKnows q p
    → ProducerKnows (record q { tail = next_index t }) p
producer-free q Producer.idle t v e r k = tt
producer-free q (Producer.testing x h) t v e r k = k
producer-free q (Producer.storing x h) t v e r k = (k.0, omega arith)
producer-free q (Producer.publishing x h) t v e r k = (k.0, omega arith, k.2)

Consume-Consumed :
    (q : EventQueue) (p : Producer) {c c' : Consumer} {q' : EventQueue} {new : List Event}
    → Consume q c q' c' new
    → IsQueue q
    → ProducerKnows q p
    → ConsumerKnows q c
    → Consumed q p q' c' new
Consume-Consumed q p call v l k = record { queue = v; producer = l; consumer = refl; shrunk = refl }
Consume-Consumed q p (empty e) v l k = record {
  queue = v;
  producer = l;
  consumer = tt;
  shrunk = refl;
}
Consume-Consumed q p (some_event e) v l k = record {
  queue = v;
  producer = l;
  consumer = (k, e);
  shrunk = refl;
}
Consume-Consumed q p (read {e} {t} got) v l k = record {
  queue = v;
  producer = l;
  consumer = (k.0, k.1, same);
  shrunk = refl;
}
  where
    same : get_or q.slots t zero_event ≡ e
    same = ground (arith, get_elem?-eq-get_or q.slots t zero_event (omega arith))
Consume-Consumed q p (free {e} {t}) v l k = record {
  queue = omega arith;
  producer = producer-free q p t v k.0 k.1 l;
  consumer = tt;
  shrunk =
      ap (window q.slots q.tail) shorter
      ∙ ap₂ ◌∷◌ (ap (λ i. get_or q.slots i zero_event) (sym k.0) ∙ k.2)
          (ap (λ i. window q.slots i (mask (q.head + queue_size - next_index t))) next);
}
  where
    shorter : pending q ≡ suc (mask (q.head + queue_size - next_index t))
    shorter = omega arith

    next : mask (q.tail + 1) ≡ next_index t
    next = omega arith

Step-Inv : {s t : System} → Step s t → Inv s → Inv t
Step-Inv {s} (produce {q} {p} {new} m) i = record {
  queue = d.queue;
  producer = d.producer;
  consumer = d.consumer;
  fifo = rw (d.grown, i.fifo) (append_assoc s.returned (contents s.queue) new);
}
  where
    d : Produced s.queue s.consumer q p new
    d = Produce-Produced s.queue s.consumer m i.queue i.producer i.consumer
Step-Inv {s} (consume {q} {c} {new} m) i = record {
  queue = d.queue;
  producer = d.producer;
  consumer = d.consumer;
  fifo = i.fifo ∙ ap (◌++◌ s.returned) d.shrunk ∙ sym (append_assoc s.returned new (contents q));
}
  where
    d : Consumed s.queue s.producer q c new
    d = Consume-Consumed s.queue s.producer m i.queue i.producer i.consumer

pub Reach-Inv : {s : System} → Reach s → Inv s
Reach-Inv here = Inv-start
Reach-Inv (later r st) = Step-Inv st (Reach-Inv r)
