-- ===== src/Queue/Fifo.antt =====
-- What the event queue promises: a FIFO of at most `queue_size - 1` events, oldest first, that
-- refuses an event when it is full. Nothing here knows of slots and indices.
use pico_ocaml.Prelude.{
  ℕ, Bool, true, false, Option, none, some, List, [], ◌∷◌, ◌++◌, length, ltb, if◌then◌else◌,
}
use pico_ocaml.Prelude.Int.{ℤ, pos, negsuc}
use pico_ocaml.Queue.{Event}

abbrev pub capacity : ℕ
capacity = 31

abbrev pub Fifo : Type 0
Fifo = List Event

unfoldable pub push : Event → Fifo → ℤ × Fifo
push e q = if ltb (length q) capacity then (pos 0, q ++ (e ∷ [])) else (negsuc 0, q)

unfoldable pub pop : Fifo → ℤ × Option Event × Fifo
pop [] = (pos 0, none, [])
pop (e ∷ q) = (pos 1, some e, q)

unfoldable pub is_pending : Fifo → Bool
is_pending [] = false
is_pending (_ ∷ _) = true

-- What a client does with a queue, and what it sees of each call.
pub data Op : Type 0 where
  put : Event → Op
  get : Op
  poll : Op

pub data Reply : Type 0 where
  status : ℤ → Reply
  event : ℤ → Option Event → Reply
  pending : Bool → Reply

unfoldable pub run : Fifo → List Op → List Reply
run q [] = []
run q (put e ∷ ops) = let (s, q') = push e q in status s ∷ run q' ops
run q (get ∷ ops) = let (s, out, q') = pop q in event s out ∷ run q' ops
run q (poll ∷ ops) = pending (is_pending q) ∷ run q ops
