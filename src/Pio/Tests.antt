-- ===== src/Pio/Tests.antt =====
-- The theorems on fibers, at a socket that is connected and has received nothing, and at runs of
-- a few steps.
use mathlib.Core.List.{Perm}
use pico_ocaml.Prelude.{
  ℕ, ◌<◌, ◌≡◌, ◌≢◌, refl, ◌⊎◌, true, none, some, List, [], ◌∷◌, ◌++◌, length, set, replicate,
  length-replicate, arith,
}
use pico_ocaml.Prelude.Int.{pos}
use pico_ocaml.Net.State.{max_sockets, SocketState, Socket, zero_socket, Net, boot, ◌>>=◌}
use pico_ocaml.Net.Create.{tcp_socket}
use pico_ocaml.Net.Tcp.Pipe
use pico_ocaml.Net.Tests.{good, block}
use pico_ocaml.Pio.{Outcome, tcp_read}
use pico_ocaml.Pio.Fibers.{
  stop, yield, fork, Switch, scheduler, all_ended, tasks_in, scheduler_nests,
}
use pico_ocaml.Pio.Reads.{Holds, arrive_all}
use pico_ocaml.Pio.Polls.{idle, ended, rounds, arrive_rounds, tcp_read_in_vain}
use pico_ocaml.Pio.Blocking.{recv_loop, recv_loop-received}
use pico_ocaml.Pio.Promise.{
  value, failure, Use, add, settle_as, run, pending, added, first_settled, waiters_of, outcome,
  run-once,
}

abbrev quiet_socket : Socket
quiet_socket = record (tcp_socket block 5) { state = SocketState.connected }

abbrev quiet : Net
quiet = record boot {
  sockets = set (replicate max_sockets zero_socket) 0 quiet_socket;
  net_initialized = true;
}

quiet-Holds : Holds quiet 0 []
quiet-Holds = record {
  socket = quiet_socket;
  opened = record {
    at = refl;
    slot = omega arith;
    live = record {
      block = _;
      is_block = refl;
      size = length-replicate {A = ℕ} 4096 0;
      capacity = refl;
      within = omega arith;
    };
    unlocked = refl;
  };
  tcp = refl;
  alive = refl;
  bytes = refl;
}

-- Two bytes arrive before each round.
abbrev busy : List (List (List ℕ))
busy = replicate 1001 ((104 ∷ 105 ∷ []) ∷ [])

tcp_read_in_vain_example :
    (n' : Net) × ((tcp_read 1 (pos 0) (idle []) >>= rounds good 0 5 busy) quiet
      ≡ some (ended 1 [], n'))
    × Holds n' 0 (arrive_rounds busy [])
tcp_read_in_vain_example =
    tcp_read_in_vain good 1 0 5 [] busy quiet quiet-Holds
      (length-replicate {A = List (List ℕ)} 1001 ((104 ∷ 105 ∷ []) ∷ []))

-- Three bytes, in two segments, arrive before the third round of eleven.
abbrev two_segments : List (List ℕ)
two_segments = (104 ∷ 105 ∷ []) ∷ (33 ∷ []) ∷ []

two_segments_come : 0 < length (arrive_all two_segments [])
unfolding arrive_all Pipe.arrives
two_segments_come = ground arith

recv_loop-received_example :
    (n' : Net) × (recv_loop good 0 5 10 (replicate 2 [] ++ two_segments ∷ []) quiet
      ≡ some (Outcome.received (arrive_all two_segments []), n'))
    × Holds n' 0 []
recv_loop-received_example =
    recv_loop-received good 0 5 2 10 two_segments [] quiet quiet-Holds (omega arith)
      two_segments_come

-- Two wakers come before the value, one after it; an exception that comes late changes nothing.
abbrev uses : List (Use ℕ ℕ ℕ)
uses = add 1 ∷ add 2 ∷ settle_as (value 7) ∷ add 3 ∷ settle_as (failure 8) ∷ []

run-once_example :
    let (p, q') = run uses (pending []) (9 ∷ []) in
    (outcome p ≡ first_settled uses)
    × Perm (q' ++ waiters_of p) ((9 ∷ []) ++ added uses)
    × (((outcome p ≡ none) × (q' ≡ 9 ∷ [])) ⊎ ((outcome p ≢ none) × (waiters_of p ≡ [])))
run-once_example = run-once uses (9 ∷ [])

-- A fiber that forks one, which yields once, and then yields twice itself.
abbrev three_yields : Switch
three_yields = record {
  fibers = 1;
  run_queue = fork (yield stop) (yield (yield stop)) ∷ [];
  depth = 0;
  deepest = 0;
}

scheduler_nests_example : scheduler 6 three_yields ≡ some (all_ended three_yields)
unfolding tasks_in
scheduler_nests_example = scheduler_nests 6 three_yields refl (omega arith) (omega arith)
