-- ===== src/Queue/Refine.antt =====
-- The event queue behaves as the FIFO of the events that it holds.
use pico_ocaml.Prelude.{
  ℕ, zero, suc, ◌+◌, ◌-◌, ◌<◌, ◌≡◌, ◌≢◌, refl, ap, ap₂, List, [], ◌∷◌, ◌++◌, some, length, get_or,
  get_elem?, set, get_or-set_self, get_or-set_ne, arith,
}
use pico_ocaml.Queue.{
  Event, zero_event, EventQueue, queue_size, mask, event_enqueue, net_event_get, has_event,
}
use pico_ocaml.Queue.Fifo
use pico_ocaml.Queue.Fifo.{Op, put, get, poll, Reply, status, event, pending as is_waiting}
use pico_ocaml.Queue.Inv.{
  IsQueue, pending, window, contents, length-contents, event_enqueue-IsQueue, net_event_get-IsQueue,
}

pub get_elem?-eq-get_or {ℓ} :
    {A : Type ℓ} (xs : List A) (i : ℕ) (d : A)
    → i < length xs
    → get_elem? xs i ≡ some (get_or xs i d)
get_elem?-eq-get_or [] i d h = absurd (omega arith)
get_elem?-eq-get_or (x ∷ xs) zero d h = refl
get_elem?-eq-get_or (x ∷ xs) (suc i) d h = get_elem?-eq-get_or xs i d (omega arith)

-- A write just past a window makes it one longer.
window-set_end :
    (slots : List Event) (x : Event) (n i j : ℕ)
    → length slots ≡ queue_size
    → i < queue_size
    → n < queue_size
    → j ≡ mask (i + n)
    → window (set slots j x) i (suc n) ≡ window slots i n ++ (x ∷ [])
window-set_end slots x zero i j all hi hn e =
    let here : j ≡ i = omega arith in
    rw here (ap (λ y. y ∷ []) (get_or-set_self slots i x zero_event (omega arith)))
window-set_end slots x (suc n) i j all hi hn e =
    ap₂ ◌∷◌ (get_or-set_ne slots j i x zero_event (omega arith))
      (window-set_end slots x n (mask (i + 1)) j all (omega arith) (omega arith) (omega arith))

-- `window` matches on a number; the code compares indices.
window_of_pos :
    (slots : List Event) (i n : ℕ)
    → n ≢ 0
    → window slots i n ≡ get_or slots i zero_event ∷ window slots (mask (i + 1)) (n - 1)
window_of_pos slots i zero p = absurd (p refl)
window_of_pos slots i (suc n) p = ap (λ k. window slots i (suc k)) (omega arith)

-- On a well-formed queue `event_enqueue` returns what the FIFO's push returns, and leaves the queue
-- standing for the FIFO after the push: 0 and the event at the end, or -1 and no change when
-- 31 events wait.
pub event_enqueue_refines :
    (e : Event) {q : EventQueue}
    → IsQueue q
    → let (s, q') = event_enqueue e q in (s, contents q') ≡ Fifo.push e (contents q)
unfolding event_enqueue Fifo.push
event_enqueue_refines e {q} v =
    ground (arith, length-contents q, window-set_end q.slots e (pending q) q.tail q.head)

-- On a well-formed queue `net_event_get` returns what the FIFO's pop returns, the oldest event
-- or none, and leaves the queue standing for the FIFO after the pop.
pub net_event_get_refines :
    {q : EventQueue}
    → IsQueue q
    → let (s, out, q') = net_event_get q in (s, out, contents q') ≡ Fifo.pop (contents q)
unfolding net_event_get Fifo.pop
net_event_get_refines {q} v =
    ground (
      arith,
      window_of_pos q.slots q.tail (pending q),
      get_elem?-eq-get_or q.slots q.tail zero_event,
    )

-- `ocaml_net_has_event` says whether an event waits.
has_event_refines : {q : EventQueue} → IsQueue q → has_event q ≡ Fifo.is_pending (contents q)
unfolding has_event Fifo.is_pending
has_event_refines {q} v = ground (arith, window_of_pos q.slots q.tail (pending q))

-- The calls of a client in order, with what each returns.
unfoldable pub run : EventQueue → List Op → List Reply
run q [] = []
run q (put e ∷ ops) = let (s, q') = event_enqueue e q in status s ∷ run q' ops
run q (get ∷ ops) = let (s, out, q') = net_event_get q in event s out ∷ run q' ops
run q (poll ∷ ops) = is_waiting (has_event q) ∷ run q ops

-- No sequence of enqueues, dequeues and polls tells a well-formed queue from the FIFO of its
-- contents: every call returns the same.
pub run_refines :
    (ops : List Op) {q : EventQueue} → IsQueue q → run q ops ≡ Fifo.run (contents q) ops
unfolding run Fifo.run
run_refines [] v = refl
run_refines (put e ∷ ops) v =
    rw (run_refines ops (event_enqueue-IsQueue e v), ← event_enqueue_refines e v)
run_refines (get ∷ ops) v =
    rw (run_refines ops (net_event_get-IsQueue v), ← net_event_get_refines v)
run_refines (poll ∷ ops) v = rw (run_refines ops v, has_event_refines v)
