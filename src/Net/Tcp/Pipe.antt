-- ===== src/Net/Tcp/Pipe.antt =====
-- What the receive side of a TCP socket promises: a pipe of at most `max_recv_buffer` bytes, which
-- keeps as much of a segment as it has room for. Nothing here knows of buffers or lwIP.
use pico_ocaml.Prelude.{ℕ, ◌-◌, List, [], ◌∷◌, ◌++◌, length, take, drop}
use pico_ocaml.Net.State.{max_recv_buffer, lesser}

pub data Action : Type 0 where
  arrive : (segment : List ℕ) → Action
  read : (max_len : ℕ) → Action

abbrev pub Pipe : Type 0
Pipe = List ℕ

unfoldable pub arrives : List ℕ → Pipe → Pipe
arrives p q = q ++ take (lesser (length p) (max_recv_buffer - length q)) p

unfoldable pub reads : ℕ → Pipe → List ℕ × Pipe
reads n q = (take (lesser (length q) n) q, drop (lesser (length q) n) q)

-- what each read returns, in order
unfoldable pub run : Pipe → List Action → List (List ℕ)
run q [] = []
run q (arrive p ∷ acts) = run (arrives p q) acts
run q (read n ∷ acts) = let (out, q') = reads n q in out ∷ run q' acts
