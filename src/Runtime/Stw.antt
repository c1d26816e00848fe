-- ===== src/Runtime/Stw.antt =====
-- ocaml_stubs.c, `try_handle_stw_interrupt`: a core that waits takes part in the collections of
-- the other.
pub mod Depth
pub mod Restores
use pico_ocaml.Prelude.{ℕ, zero, suc, Bool, true, false, Option, none, some, ◌≡◌, if◌then◌else◌}
use pico_ocaml.Prelude.Int.{ℤ, pos}
use pico_ocaml.Sync.Sdk.{Core, same_core, RecursiveMutex}
use pico_ocaml.Sync.Mutex.{Code, Mutexes, pthread_mutex_trylock, pthread_mutex_unlock}

abbrev pub is_success : Code → Bool
is_success Code.success = true
is_success _ = false

module _ (R : RecursiveMutex) (W : Type 0) where
  -- `handling_stw`; `caml_state` of this core; the mutexes; what `caml_get_domain_lock` points
  -- to, `none` for NULL; and the runtime's own state.
  pub record Machine : Type 0 where
    pub handling : Core → Bool
    pub caml_state : ℕ
    pub mutexes : Mutexes R
    pub domain_lock : Option ℤ
    pub runtime : W

  -- The runtime: `caml_incoming_interrupts_queued`, `caml_get_domain_state`, and
  -- `caml_handle_incoming_interrupts`, which may lock a mutex and so poll again, by its first
  -- argument.
  pub record Handlers : Type 0 where
    pub queued : Core → W → Bool
    pub domain_state : Core → W → ℕ
    pub handle : Core → (Machine → Option (Bool × Machine)) → Machine → Option Machine

  abbrev pub Poll : Type 0
  Poll = Machine → Option (Bool × Machine)

  abbrev pub set_handling : Core → Bool → Machine → Machine
  set_handling c b s = record s { handling = λ d. if same_core c d then b else s.handling d }

  -- `caml_state` of the domain, for the handler
  unfoldable pub enter_handler : Handlers → Core → Machine → Machine
  enter_handler H c s = record (set_handling c true s) { caml_state = H.domain_state c s.runtime }

  -- What comes after the handler; `saved` is the `caml_state` from before.
  unfoldable pub leave_handler : Core → (saved : ℕ) → Machine → Machine
  leave_handler c saved s =
      let s' = set_handling c false (record s { caml_state = saved }) in
      elim s'.domain_lock [
        | none ↦ s'
        | some m ↦ record s' { mutexes = (pthread_mutex_unlock R c m s'.mutexes).1 }
      ]

  -- The machine when `pthread_mutex_trylock` has returned.
  abbrev pub locked : Machine → Code × ℤ × Mutexes R → Machine
  locked s (code, m, mutexes) = record s { domain_lock = some m; mutexes = mutexes }

  -- `domain_lock` is not NULL: it is tried, and the interrupts are handled if it is got.
  unfoldable pub try_lock : Handlers → Core → Poll → Machine → ℤ → Option (Bool × Machine)
  unfolding enter_handler leave_handler
  try_lock H c nested s m =
      let tried = pthread_mutex_trylock R c m s.mutexes in
      let s' = locked s tried in
      if is_success tried.0
      then elim (H.handle c nested (enter_handler H c s')) [
        | none ↦ none
        | some s'' ↦ some (true, leave_handler c s.caml_state s'')
      ]
      else some (false, s')

  -- One call, with the polls that its handler makes; the result is whether interrupts were handled.
  unfoldable pub poll_once : Handlers → Core → Poll → Poll
  unfolding try_lock
  poll_once H c nested s =
      if s.handling c
      then some (false, s)
      else if H.queued c s.runtime
      then elim s.domain_lock [ none ↦ some (false, s) | some m ↦ try_lock H c nested s m ]
      else some (false, s)

  -- The call, whose handler calls it again: `none` if the calls are nested deeper than `depth`.
  unfoldable pub try_handle_stw_interrupt : Handlers → Core → (depth : ℕ) → Poll
  unfolding poll_once
  try_handle_stw_interrupt H c zero s = none
  try_handle_stw_interrupt H c (suc depth) s = poll_once H c (try_handle_stw_interrupt H c depth) s
