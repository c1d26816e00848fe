-- ===== src/Pio.antt =====
-- pio.ml: the fibers' scheduler and its waits for input and output, over the functions of
-- net_stubs.c. A continuation of a fiber is the fiber's number; what it is resumed with is
-- recorded.
pub mod Reads
pub mod Polls
pub mod Blocking
pub mod Promise
pub mod Fibers
mod Tests
use pico_ocaml.Net.Dns.{Others}
use pico_ocaml.Prelude.{
  ℕ, zero, suc, ◌+◌, ◌<◌, Bool, true, false, not, ◌||◌, ◌&&◌, Option, none, some, List, [], ◌∷◌,
  ◌++◌, ltb, leb, ◌==◌, if◌then◌else◌,
}
use pico_ocaml.Prelude.Int.{ℤ, pos, negsuc, of_word}
use pico_ocaml.Prelude.Value.{Value, val_int, int_val}
use pico_ocaml.Net.World.{World}
use pico_ocaml.Net.State.{M, pure, ◌>>=◌, ◌>>◌, eq_ℤ, minus_two}
use pico_ocaml.Net.Stubs.{
  val_of, ocaml_tcp_create, ocaml_tcp_connect, ocaml_tcp_write, ocaml_tcp_read, ocaml_tcp_close,
  ocaml_dns_resolve, ocaml_net_poll, ocaml_lwip_service,
}

pub data Operation : Type 0 where
  connect read : Operation

-- `io_waiter`. `wake` and `on_timeout` are closures over the other fields and `fiber`.
pub record Waiter : Type 0 where
  pub sock_id : ℤ
  pub operation : Operation
  pub timeout_count : ℕ
  pub max_timeout : ℕ
  pub fiber : ℕ

-- What a fiber is resumed with: a result, or an exception.
pub data Outcome : Type 0 where
  connected : (sock_id : ℤ) → Outcome
  received : List ℕ → Outcome
  closed : Outcome
  connection_timeout read_timeout read_failed : Outcome
  create_failed connect_failed dns_failed : Outcome
  socket_closed : Outcome

-- What the run queue holds.
pub data Task : Type 0 where
  wake on_timeout : Waiter → Task
  resume : (fiber : ℕ) → Outcome → Task

-- `io_waiters`, `run_queue`, and the fibers resumed so far, the latest first.
pub record Sched : Type 0 where
  pub io_waiters : List Waiter
  pub run_queue : List Task
  pub resumed : List (ℕ × Outcome)

abbrev pub enqueue : Task → Sched → Sched
enqueue t s = record s { run_queue = s.run_queue ++ t ∷ [] }

abbrev pub continue : ℕ → Outcome → Sched → Sched
continue k o s = record s { resumed = (k, o) ∷ s.resumed }

-- An OCaml `int` as an integer
abbrev pub int_of : Value → ℤ
int_of v = of_word (int_val v)

abbrev pub is_positive : ℤ → Bool
is_positive (pos n) = ltb 0 n
is_positive (negsuc n) = false

abbrev pub is_negative : ℤ → Bool
is_negative (pos n) = false
is_negative (negsuc n) = true

unfoldable pub service_network : M (Unit {0})
unfolding ocaml_lwip_service ocaml_net_poll
service_network = do v ← ocaml_lwip_service; u ← ocaml_net_poll; pure tt

pub is_ready : World → Waiter → M Bool
is_ready w x = elim x.operation [
  | connect ↦ (do
    v ← ocaml_tcp_write w (val_of x.sock_id) (λ i. 0) (val_int 0)
    pure (not (is_negative (int_of v))))
  | read ↦ (do
    (v, out) ← ocaml_tcp_read (val_of x.sock_id) (val_int 0)
    pure (is_positive (int_of v) || eq_ℤ (int_of v) minus_two))
]

-- One step of the fold of `check_io_completions`.
pub process_waiter : World → List Waiter × List Task → Waiter → M (List Waiter × List Task)
process_waiter w (remaining, to_wake) x = do
  ready ← is_ready w x
  pure (
      if ready
      then (remaining, Task.wake x ∷ to_wake)
      else if leb x.max_timeout x.timeout_count
      then (remaining, Task.on_timeout x ∷ to_wake)
      else (record x { timeout_count = x.timeout_count + 1 } ∷ remaining, to_wake))

pub process_all : World → List Waiter × List Task → List Waiter → M (List Waiter × List Task)
process_all w acc [] = pure acc
process_all w acc (x ∷ xs) = do acc' ← process_waiter w acc x; process_all w acc' xs

pub check_io_completions : World → Sched → M Sched
check_io_completions w s = do
  service_network
  (remaining, to_wake) ← process_all w ([], []) s.io_waiters
  pure (record s { io_waiters = remaining; run_queue = s.run_queue ++ to_wake })

-- `handle_read_result`
abbrev pub read_result : ℤ → List ℕ → Outcome
read_result n out =
    if is_positive n
    then Outcome.received out
    else if eq_ℤ n minus_two
    then Outcome.socket_closed
    else Outcome.read_failed

pub run_task : World → Task → Sched → M Sched
run_task w (Task.wake x) s = elim x.operation [
  | connect ↦ pure (enqueue (Task.resume x.fiber (Outcome.connected x.sock_id)) s)
  | read ↦ (do
    (v, out) ← ocaml_tcp_read (val_of x.sock_id) (val_int 4096)
    pure (enqueue (Task.resume x.fiber (read_result (int_of v) out)) s))
]
run_task w (Task.on_timeout x) s = elim x.operation [
  | connect ↦ (do
    v ← ocaml_tcp_close (val_of x.sock_id)
    pure (enqueue (Task.resume x.fiber Outcome.connection_timeout) s))
  | read ↦ pure (enqueue (Task.resume x.fiber Outcome.read_timeout) s)
]
run_task w (Task.resume k o) s = pure (continue k o s)

-- One round of `scheduler`, of a switch with a fiber that has not ended; a fiber that is resumed
-- is back when it waits or ends. The sleep is left out.
pub scheduler_round : World → Sched → M Sched
scheduler_round w s = do
  s' ← check_io_completions w s
  elim s'.run_queue [
    | [] ↦ (do service_network; pure s')
    | t ∷ ts ↦ run_task w t (record s' { run_queue = ts })
  ]

-- `resolve_host`; `parse` is `ip_from_string`.
resolve_host : World → Others → (parse : List ℕ → ℕ) → List ℕ → M Value
resolve_host w others parse [] = ocaml_dns_resolve w others []
resolve_host w others parse (c ∷ cs) =
    if leb 48 c && leb c 57
    then pure (val_int (parse (c ∷ cs)))
    else ocaml_dns_resolve w others (c ∷ cs)

abbrev waiter_of : Operation → (fiber : ℕ) → ℤ → Waiter
waiter_of op k sock = record {
  sock_id = sock;
  operation = op;
  timeout_count = 0;
  max_timeout = 1000;
  fiber = k;
}

abbrev add_waiter : Waiter → Sched → Sched
add_waiter x s = record s { io_waiters = x ∷ s.io_waiters }

-- `Tcp_connect (host, port)`, performed by fiber `k`, up to the return to the scheduler
unfoldable tcp_connect :
    World → Others → (parse : List ℕ → ℕ) → (k : ℕ) → (host : List ℕ) → (port : ℕ) → Sched → M Sched
unfolding resolve_host
tcp_connect w others parse k host port s = do
  sock ← ocaml_tcp_create w
  if is_negative (int_of sock) then pure (continue k Outcome.create_failed s) else do
    ip ← resolve_host w others parse host
    if eq_ℤ (int_of ip) (pos 0)
        then (do v ← ocaml_tcp_close sock; pure (continue k Outcome.dns_failed s))
        else do
          r ← ocaml_tcp_connect w sock ip (val_int port)
          if is_negative (int_of r)
              then (do v ← ocaml_tcp_close sock; pure (continue k Outcome.connect_failed s))
              else pure (add_waiter (waiter_of Operation.connect k (int_of sock)) s)

-- `Tcp_read sock`, performed by fiber `k`, up to the return to the scheduler
pub tcp_read : (k : ℕ) → (sock_id : ℤ) → Sched → M Sched
tcp_read k sock_id s = do
  service_network
  (v, out) ← ocaml_tcp_read (val_of sock_id) (val_int 4096)
  pure (
      if is_positive (int_of v)
      then continue k (Outcome.received out) s
      else if eq_ℤ (int_of v) minus_two
      then continue k Outcome.socket_closed s
      else add_waiter (waiter_of Operation.read k sock_id) s)

-- The waiters on other sockets.
pub others : ℤ → List Waiter → List Waiter
others sock_id [] = []
others sock_id (x ∷ xs) =
    if eq_ℤ x.sock_id sock_id then others sock_id xs else x ∷ others sock_id xs

-- `Tcp_close sock`, performed by fiber `k`
pub tcp_close : (k : ℕ) → (sock_id : ℤ) → Sched → M Sched
unfolding others
tcp_close k sock_id s = do
  v ← ocaml_tcp_close (val_of sock_id)
  pure (continue k Outcome.closed (record s { io_waiters = others sock_id s.io_waiters }))
