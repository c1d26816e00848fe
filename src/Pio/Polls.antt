-- ===== src/Pio/Polls.antt =====
-- A fiber that waits to read: what the polls of the scheduler do while bytes arrive.
use pico_ocaml.Prelude.{
  ℕ, ◌+◌, ◌≤◌, ◌<◌, ◌≡◌, some, List, [], ◌∷◌, length, arith, leb, if◌then◌else◌,
}
use pico_ocaml.Prelude.Int.{pos}
use pico_ocaml.Net.World.{World}
use pico_ocaml.Net.State.{Net, M, pure, ◌>>=◌, ◌>>◌}
use pico_ocaml.Net.Tcp.Pipe.{Pipe}
use pico_ocaml.Pio.Reads.{
  Holds, service-Holds, poll-Holds, read-Holds, deliver, deliver-Holds, arrive_all,
}
use pico_ocaml.Pio.{
  Operation, Waiter, Outcome, Task, Sched, is_ready, process_waiter, process_all,
  check_io_completions, run_task, scheduler_round, tcp_read,
}

-- A waiter for reading that has been polled `c` times, and the scheduler when it is the only one.
abbrev pub reader : (k i c : ℕ) → Waiter
reader k i c = record {
  sock_id = pos i;
  operation = Operation.read;
  timeout_count = c;
  max_timeout = 1000;
  fiber = k;
}

abbrev pub waiting : (k i c : ℕ) → List (ℕ × Outcome) → Sched
waiting k i c l = record { io_waiters = reader k i c ∷ []; run_queue = []; resumed = l }

abbrev pub idle : List (ℕ × Outcome) → Sched
idle l = record { io_waiters = []; run_queue = []; resumed = l }

-- The fiber is to be resumed with a timeout.
abbrev pub ended : ℕ → List (ℕ × Outcome) → Sched
ended k l = record (idle l) { run_queue = Task.resume k Outcome.read_timeout ∷ [] }

process-Holds :
    (w : World) (k i c : ℕ) (q : Pipe) (n : Net)
    → Holds n i q
    → (n' : Net) × (process_all w ([], []) (reader k i c ∷ []) n
        ≡ some (
          if leb 1000 c
              then ([], Task.on_timeout (reader k i c) ∷ [])
              else (reader k i (c + 1) ∷ [], []),
          n',
        ))
      × Holds n' i q
unfolding process_all process_waiter is_ready
process-Holds w k i c q n h = let (n', e, h') = poll-Holds i q n h in (n', ground (arith, e), h')

module _ (w : World) (k i c : ℕ) (l : List (ℕ × Outcome)) (q : Pipe) (n : Net)
    (h : Holds n i q) where
  round-waits :
      c < 1000
      → (n' : Net) × (scheduler_round w (waiting k i c l) n ≡ some (waiting k i (c + 1) l, n'))
        × Holds n' i q
  unfolding scheduler_round check_io_completions
  round-waits few =
      let (n1, e1, h1) = service-Holds i q n h in
      let (n2, e2, h2) = process-Holds w k i c q n1 h1 in
      let (n3, e3, h3) = service-Holds i q n2 h2 in (n3, ground (arith, e1, e2, e3), h3)

  round-ends :
      1000 ≤ c
      → (n' : Net) × (scheduler_round w (waiting k i c l) n ≡ some (ended k l, n')) × Holds n' i q
  unfolding scheduler_round check_io_completions run_task
  round-ends many =
      let (n1, e1, h1) = service-Holds i q n h in
      let (n2, e2, h2) = process-Holds w k i c q n1 h1 in (n2, ground (arith, e1, e2), h2)

pub rounds : World → ℕ → (tpcb : ℕ) → List (List (List ℕ)) → Sched → M Sched
unfolding deliver
rounds w i tpcb [] s = pure s
rounds w i tpcb (ps ∷ rest) s = do
  deliver w i tpcb ps
  s' ← scheduler_round w s
  rounds w i tpcb rest s'

pub arrive_rounds : List (List (List ℕ)) → Pipe → Pipe
unfolding arrive_all
arrive_rounds [] q = q
arrive_rounds (ps ∷ rest) q = arrive_rounds rest (arrive_all ps q)

rounds-Holds :
    (w : World) (k i tpcb c : ℕ) (l : List (ℕ × Outcome)) (rs : List (List (List ℕ))) (q : Pipe)
    (n : Net)
    → c + length rs ≡ 1001
    → c < 1001
    → Holds n i q
    → (n' : Net) × (rounds w i tpcb rs (waiting k i c l) n ≡ some (ended k l, n'))
      × Holds n' i (arrive_rounds rs q)
unfolding rounds arrive_rounds
rounds-Holds w k i tpcb c l [] q n all few h = absurd (omega (arith, all))
rounds-Holds w k i tpcb c l (ps ∷ []) q n all few h =
    let (n1, e1, h1) = deliver-Holds w i tpcb ps q n h in
    let (n2, e2, h2) = round-ends w k i c l (arrive_all ps q) n1 h1 (omega (arith, all)) in
    (n2, ground (arith, e1, e2), h2)
rounds-Holds w k i tpcb c l (ps ∷ qs ∷ rest) q n all few h =
    let (n1, e1, h1) = deliver-Holds w i tpcb ps q n h in
    let (n2, e2, h2) = round-waits w k i c l (arrive_all ps q) n1 h1 (omega (arith, all)) in
    let (n3, e3, h3) =
      rounds-Holds w k i tpcb (c + 1) l (qs ∷ rest) (arrive_all ps q) n2 (omega (arith, all))
        (omega (arith, all)) h2 in
    (n3, ground (arith, e1, e2, e3), h3)

-- A fiber reads an open TCP socket that has received nothing, and is the only one that waits.
-- Whatever segments arrive before each of the 1001 rounds of the scheduler after that, as long as
-- the connection is not closed: no call goes wrong, the fiber is to be resumed with a timeout,
-- and what has arrived, as far as the buffer had room for it, is in the buffer of the socket, not
-- read; the rest is dropped.
pub tcp_read_in_vain :
    (w : World) (k i tpcb : ℕ) (l : List (ℕ × Outcome)) (rs : List (List (List ℕ))) (n : Net)
    → Holds n i []
    → length rs ≡ 1001
    → (n' : Net) × ((tcp_read k (pos i) (idle l) >>= rounds w i tpcb rs) n ≡ some (ended k l, n'))
      × Holds n' i (arrive_rounds rs [])
unfolding tcp_read
tcp_read_in_vain w k i tpcb l rs n h all =
    let (n1, e1, h1) = service-Holds i [] n h in
    let (n2, e2, h2, small) = read-Holds i [] n1 h1 in
    let (n3, e3, h3) = rounds-Holds w k i tpcb 0 l rs [] n2 (omega (arith, all)) (omega arith) h2 in
    (n3, ground (arith, e1, e2, e3), h3)
