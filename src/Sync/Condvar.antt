-- ===== src/Sync/Condvar.antt =====
-- ocaml_stubs.c, `pthread_cond_…`: condition variables that count generations. A waiter notes the
-- generation, and waits until it has changed.
pub mod Waiters
pub mod Wait
pub mod Tests
use pico_ocaml.Prelude.{
  ℕ, zero, suc, ◌+◌, ◌-◌, ◌%◌, ◌^◌, Bool, true, false, not, ◌&&◌, Option, none, some, List, [], ◌∷◌,
  ltb, leb, ◌==◌, if◌then◌else◌,
}
use pico_ocaml.Prelude.Int.{ℤ, pos, negsuc}
use pico_ocaml.Sync.Sdk.{Core, RecursiveMutex}
use pico_ocaml.Sync.Mutex.{Code, update, update_at, Mutexes, index_of, lock_loop}

-- MAX_CONDVARS
abbrev max_condvars : ℕ
max_condvars = 64

-- `condvar_storage`, with `ready` for `magic == CONDVAR_MAGIC`, and `condvar_count`. The counters
-- are 32-bit words. The lock of an entry makes each change of its counters one step.
pub record Condvars : Type 0 where
  pub ready : ℕ → Bool
  pub waiters : ℕ → ℕ
  pub generation : ℕ → ℕ
  pub count : ℕ

abbrev pub no_condvars : Condvars
no_condvars = record { ready = λ i. false; waiters = λ i. 0; generation = λ i. 0; count = 0 }

abbrev pub cond_index : ℤ → Condvars → Option ℕ
cond_index (pos i) s = if ltb i max_condvars && s.ready i then some i else none
cond_index (negsuc i) s = none

abbrev pub take_entry : Condvars → Condvars
take_entry s = record s {
  ready = update s.ready s.count true;
  waiters = update s.waiters s.count 0;
  generation = update s.generation s.count 0;
  count = s.count + 1;
}

pub ensure_condvar_init : ℤ → Condvars → Option ℕ × ℤ × Condvars
ensure_condvar_init v s = elim (cond_index v s) [
  | some i ↦ (some i, v, s)
  | none ↦
      if leb max_condvars s.count then (none, v, s) else (some s.count, pos s.count, take_entry s)
]

unfoldable pub pthread_cond_init : ℤ → Condvars → Code × ℤ × Condvars
pthread_cond_init v s =
    if leb max_condvars s.count
    then (Code.enomem, v, s)
    else (Code.success, pos s.count, take_entry s)

unfoldable pub pthread_cond_destroy : ℤ → Condvars → Code × ℤ × Condvars
pthread_cond_destroy v s = (Code.success, v, s)

abbrev add32 : ℕ → ℕ → ℕ
add32 a b = (a + b) % 2 ^ 32

-- `if (cv->waiters > 0) cv->generation++;` A count past 2 ^ 31 would be negative.
pub signal_at : ℕ → Condvars → Condvars
signal_at i s =
    if ltb 0 (s.waiters i) && ltb (s.waiters i) (2 ^ 31)
    then record s { generation = update s.generation i (add32 (s.generation i) 1) }
    else s

pub broadcast_at : ℕ → Condvars → Condvars
broadcast_at i s = record s { generation = update s.generation i (add32 (s.generation i) 1) }

unfoldable pub pthread_cond_signal : ℤ → Condvars → Code × ℤ × Condvars
unfolding ensure_condvar_init
pthread_cond_signal v s =
    let (index, v', s') = ensure_condvar_init v s in
    elim index [ none ↦ (Code.success, v', s') | some i ↦ (Code.success, v', signal_at i s') ]

unfoldable pub pthread_cond_broadcast : ℤ → Condvars → Code × ℤ × Condvars
unfolding ensure_condvar_init
pthread_cond_broadcast v s =
    let (index, v', s') = ensure_condvar_init v s in
    elim index [ none ↦ (Code.success, v', s') | some i ↦ (Code.success, v', broadcast_at i s') ]

-- `my_gen = cv->generation; cv->waiters++`: the generation noted, and the entry after.
pub register_at : ℕ → Condvars → ℕ × Condvars
register_at i s =
    (s.generation i, record s { waiters = update s.waiters i (add32 (s.waiters i) 1) })

-- `cv->generation != my_gen`
pub is_woken : ℕ → (my_gen : ℕ) → Condvars → Bool
is_woken i my_gen s = not (s.generation i == my_gen)

-- `cv->waiters--`
pub unregister_at : ℕ → Condvars → Condvars
unregister_at i s = record s { waiters = update s.waiters i ((s.waiters i + 2 ^ 32 - 1) % 2 ^ 32) }

module _ (R : RecursiveMutex) where
  open R use {exit}

  pub record State : Type 0 where
    pub mutexes : Mutexes R
    pub condvars : Condvars

  -- The release of the mutex inside `pthread_cond_wait`, which clears the bit of the mask whenever
  -- no hold is noted.
  pub wait_release : Core → ℕ → Mutexes R → Mutexes R
  wait_release c i s =
      let left = s.counts c i - 1 in
      record s {
        mtx = update s.mtx i (exit (s.mtx i));
        counts = update_at s.counts c i left;
        held = if left == 0 then update_at s.held c i false else s.held;
      }

  -- What other code does to the state between two looks at it.
  abbrev pub Round : Type 0
  Round = State → State

  -- The loop that looks at the generation; a round passes after each look that fails. `none` is a
  -- wait that is not over when the rounds are.
  pub poll_loop : ℕ → (my_gen : ℕ) → List Round → State → Option State
  poll_loop i my_gen [] s = elim (is_woken i my_gen s.condvars) [
    | true ↦ some (record s { condvars = unregister_at i s.condvars })
    | false ↦ none
  ]
  poll_loop i my_gen (round ∷ rounds) s = elim (is_woken i my_gen s.condvars) [
    | true ↦ some (record s { condvars = unregister_at i s.condvars })
    | false ↦ poll_loop i my_gen rounds (round s)
  ]

  -- The mutex taken again; while it waits, `tries` is what happens to the mutexes.
  pub reacquire : Core → Option ℕ → List (Mutexes R → Mutexes R) → State → Option State
  reacquire c none tries s = some s
  reacquire c (some i) tries s = elim (lock_loop R c i tries s.mutexes) [
    | none ↦ none
    | some m ↦ some (record s { mutexes = m })
  ]

  abbrev release_if : Core → Option ℕ → State → State
  release_if c none s = s
  release_if c (some i) s = record s { mutexes = wait_release c i s.mutexes }

  pub pthread_cond_wait :
      Core
      → (v m : ℤ) → List Round
      → List (Mutexes R → Mutexes R)
      → State
      → Option (Code × ℤ × State)
  pthread_cond_wait c v m rounds tries s =
      let (index, v', cs) = ensure_condvar_init v s.condvars in
      let s' = record s { condvars = cs } in
      elim index [
        | none ↦ some (Code.einval, v', s')
        | some i ↦
            let (my_gen, cs') = register_at i cs in
            let mutex = index_of R m s.mutexes in
            let released = release_if c mutex (record s { condvars = cs' }) in
            elim (poll_loop i my_gen rounds released) [
              | none ↦ none
              | some woken ↦ elim (reacquire c mutex tries woken) [
                | none ↦ none
                | some done ↦ some (Code.success, v', done)
              ]
            ]
      ]
