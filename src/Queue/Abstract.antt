-- ===== src/Queue/Abstract.antt =====
-- What a client can tell of an event queue: its contents, and nothing of slots and indices.
use pico_ocaml.Prelude.{◌≡◌, refl, sym, ap, ap₂, ◌∙◌, ◌↔◌, Option, none, some, List, [], ◌∷◌}
use pico_ocaml.Queue.{Event, EventQueue}
use pico_ocaml.Queue.Inv.{IsQueue, contents}
use pico_ocaml.Queue.Fifo
use pico_ocaml.Queue.Fifo.{Fifo, Op, get, Reply, event}
use pico_ocaml.Queue.Refine.{run, run_refines}

-- the event of the first reply, and the replies after it
abbrev first_event : List Reply → Option Event
first_event (event s (some e) ∷ rs) = some e
first_event _ = none

abbrev later_replies : List Reply → List Reply
later_replies [] = []
later_replies (r ∷ rs) = rs

-- FIFOs that answer every sequence of calls alike are the same.
replies_tell : (xs ys : Fifo) → ((ops : List Op) → Fifo.run xs ops ≡ Fifo.run ys ops) → xs ≡ ys
unfolding Fifo.run Fifo.pop
replies_tell [] [] same = refl
replies_tell [] (y ∷ ys) same = cc (ap first_event (same (get ∷ [])))
replies_tell (x ∷ xs) [] same = cc (ap first_event (same (get ∷ [])))
replies_tell (x ∷ xs) (y ∷ ys) same =
    ap₂ ◌∷◌ (cc (ap first_event (same (get ∷ []))))
      (replies_tell xs ys (λ ops. ap later_replies (same (get ∷ ops))))

-- Two well-formed queues answer every sequence of enqueues, dequeues and polls alike if and only
-- if they hold the same events in the same order, wherever in their slots these lie.
pub run_iff-contents :
    {q r : EventQueue}
    → IsQueue q
    → IsQueue r
    → ((ops : List Op) → run q ops ≡ run r ops) ↔ (contents q ≡ contents r)
run_iff-contents {q} {r} v w = (
  (λ same.
      replies_tell (contents q) (contents r)
        (λ ops. sym (run_refines ops v) ∙ same ops ∙ run_refines ops w)),
  λ e ops. run_refines ops v ∙ ap (λ c. Fifo.run c ops) e ∙ sym (run_refines ops w),
)
