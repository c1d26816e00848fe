-- ===== src/Sync/Mutex.antt =====
-- ocaml_stubs.c, `pthread_mutex_…`: a table of recursive mutexes, which a `pthread_mutex_t` names
-- by its index, and for each core the mutexes that it holds.
pub mod Inv
pub mod Lock
pub mod Steps
pub mod Places
pub mod Invariant
pub mod Preserved
pub mod System
pub mod Race
pub mod Static
pub mod Tests
use pico_ocaml.Prelude.{
  ℕ, zero, suc, ◌+◌, ◌-◌, Bool, true, false, ◌&&◌, Option, none, some, List, [], ◌∷◌, ltb, leb,
  ◌==◌, if◌then◌else◌,
}
use pico_ocaml.Prelude.Int.{ℤ, pos, negsuc}
use pico_ocaml.Sync.Sdk.{Core, same_core, RecursiveMutex}

-- MAX_MUTEXES
abbrev pub max_mutexes : ℕ
max_mutexes = 64

pub data Code : Type 0 where
  success ebusy einval enomem : Code

abbrev pub update {ℓ} : {A : Type ℓ} → (ℕ → A) → ℕ → A → ℕ → A
update f i a j = if i == j then a else f j

abbrev pub update_at {ℓ} : {A : Type ℓ} → (Core → ℕ → A) → Core → ℕ → A → Core → ℕ → A
update_at f c i a d j = if same_core c d && i == j then a else f d j

module _ (R : RecursiveMutex) where
  open R use {Mutex, init, try_enter, exit}

  -- `mutex_storage`, with `ready` for `magic == MUTEX_MAGIC`; `mutex_count`; `held_counts`; and
  -- `held_mutexes`, whose bit `i` is `held c i`. An array is a function of its index.
  pub record Mutexes : Type 0 where
    pub ready : ℕ → Bool
    pub mtx : ℕ → Mutex
    pub count : ℕ
    pub counts : Core → ℕ → ℕ
    pub held : Core → ℕ → Bool

  -- The static variables at the start; a zeroed mutex is never used before its `init`.
  abbrev pub no_mutexes : Mutexes
  no_mutexes = record {
    ready = λ i. false;
    mtx = λ i. init;
    count = 0;
    counts = λ c i. 0;
    held = λ c i. false;
  }

  -- The index in a `pthread_mutex_t`, if it is in range and its slot is initialised.
  abbrev pub index_of : ℤ → Mutexes → Option ℕ
  index_of (pos i) s = if ltb i max_mutexes && s.ready i then some i else none
  index_of (negsuc i) s = none

  -- `idx = mutex_count++`, and the slot initialised.
  abbrev pub take_slot : Mutexes → Mutexes
  take_slot s = record s {
    ready = update s.ready s.count true;
    mtx = update s.mtx s.count init;
    count = s.count + 1;
  }

  -- The index, `none` for -1, and what `*m` is afterwards.
  unfoldable pub ensure_mutex_init : ℤ → Mutexes → Option ℕ × ℤ × Mutexes
  ensure_mutex_init m s = elim (index_of m s) [
    | some i ↦ (some i, m, s)
    | none ↦
        if leb max_mutexes s.count then (none, m, s) else (some s.count, pos s.count, take_slot s)
  ]

  unfoldable pub pthread_mutex_init : ℤ → Mutexes → Code × ℤ × Mutexes
  pthread_mutex_init m s =
      if leb max_mutexes s.count
      then (Code.enomem, m, s)
      else (Code.success, pos s.count, take_slot s)

  unfoldable pub pthread_mutex_destroy : ℤ → Mutexes → Code × ℤ × Mutexes
  pthread_mutex_destroy m s = (Code.success, m, s)

  -- `recursive_mutex_try_enter`, and on success the mutex noted as held by this core.
  unfoldable pub attempt : Core → ℕ → Mutexes → Bool × Mutexes
  attempt c i s =
      let (got, m) = try_enter c (s.mtx i) in
      (
        got,
        if got
            then record s {
              mtx = update s.mtx i m;
              counts = update_at s.counts c i (s.counts c i + 1);
              held = update_at s.held c i true;
            }
            else record s { mtx = update s.mtx i m },
      )

  unfoldable pub pthread_mutex_trylock : Core → ℤ → Mutexes → Code × ℤ × Mutexes
  pthread_mutex_trylock c m s =
      let (index, m', s') = ensure_mutex_init m s in
      elim index [
        | none ↦ (Code.einval, m', s')
        | some i ↦
            let (got, s'') = attempt c i s' in ((if got then Code.success else Code.ebusy), m', s'')
      ]

  -- The loop of `pthread_mutex_lock`. After each try that fails the code handles interrupts and
  -- sleeps, while the other core runs: `rounds` is what that does to the table, one entry for each
  -- failed try. `none` is a lock that is still waiting when the list ends.
  unfoldable pub lock_loop : Core → ℕ → List (Mutexes → Mutexes) → Mutexes → Option Mutexes
  lock_loop c i [] s = let (got, s') = attempt c i s in if got then some s' else none
  lock_loop c i (round ∷ rounds) s =
      let (got, s') = attempt c i s in
      let rest = lock_loop c i rounds (round s') in if got then some s' else rest

  unfoldable pub pthread_mutex_lock :
      Core → ℤ → List (Mutexes → Mutexes) → Mutexes → Option (Code × ℤ × Mutexes)
  unfolding ensure_mutex_init lock_loop
  pthread_mutex_lock c m rounds s =
      let (index, m', s') = ensure_mutex_init m s in
      elim index [
        | none ↦ some (Code.success, m', s')
        | some i ↦ elim (lock_loop c i rounds s') [
          | none ↦ none
          | some s'' ↦ some (Code.success, m', s'')
        ]
      ]

  -- `recursive_mutex_exit`, and one hold less noted for this core, if any is.
  unfoldable pub release : Core → ℕ → Mutexes → Mutexes
  release c i s =
      let s' = record s { mtx = update s.mtx i (exit (s.mtx i)) } in
      if ltb 0 (s.counts c i)
      then record s' {
        counts = update_at s.counts c i (s.counts c i - 1);
        held = if s.counts c i == 1 then update_at s.held c i false else s.held;
      }
      else s'

  unfoldable pub pthread_mutex_unlock : Core → ℤ → Mutexes → Code × Mutexes
  pthread_mutex_unlock c m s = elim (index_of m s) [
    | none ↦ (Code.success, s)
    | some i ↦ (Code.success, release c i s)
  ]
