-- ===== src/Sync/Mutex/Steps.antt =====
-- The functions of a mutex as steps of the two cores: each access to the count, to a slot of the
-- table or to the SDK's mutex is a step. What a core notes of its own holds, in its own counts
-- and its own mask, is one.
use pico_ocaml.Prelude.{
  ℕ, ◌+◌, ◌-◌, ◌<◌, ◌≡◌, refl, Bool, true, false, arith, ltb, ◌==◌, if◌then◌else◌,
}
use pico_ocaml.Sync.Sdk.{Core, other, same_core, RecursiveMutex}
use pico_ocaml.Sync.Mutex.{
  max_mutexes, Mutexes, no_mutexes, update, update_at, take_slot, attempt, release,
}

-- Where a core stands in the functions, with its `idx`.
pub data Place : Type 0 where
  outside : Place
  tested : Place  -- in a set-up: `mutex_count` was less than MAX_MUTEXES
  loaded : (idx : ℕ) → Place  -- in `mutex_count++`, before the store
  counted : (idx : ℕ) → Place  -- before `recursive_mutex_init`
  cleared : (idx : ℕ) → Place  -- before the magic is set
  entered : (idx : ℕ) → Place  -- in a lock or a try: before the hold is noted
  exited : (idx : ℕ) → Place  -- in an unlock: before the hold is struck off

-- Between the test of `mutex_count` and the magic
abbrev pub setting_up : Place → Bool
setting_up Place.outside = false
setting_up (Place.entered i) = false
setting_up (Place.exited i) = false
setting_up _ = true

module _ (R : RecursiveMutex) where
  open R use {init, try_enter, exit}

  pub record System : Type 0 where
    pub table : Mutexes R
    pub at : Core → Place

  abbrev pub move : Core → Place → System → System
  move c p s = record s { at = λ d. if same_core c d then p else s.at d }

  abbrev pub load_count : Core → System → System
  load_count c s = move c (Place.loaded s.table.count) s

  abbrev pub store_count : Core → ℕ → System → System
  store_count c i s =
      move c (Place.counted i) (record s { table = record s.table { count = i + 1 } })

  abbrev pub clear_at : Core → ℕ → System → System
  clear_at c i s =
      move c (Place.cleared i)
        (record s { table = record s.table { mtx = update s.table.mtx i init } })

  abbrev pub ready_at : Core → ℕ → System → System
  ready_at c i s =
      move c Place.outside
        (record s { table = record s.table { ready = update s.table.ready i true } })

  -- `recursive_mutex_try_enter`
  abbrev pub enter_at : Core → ℕ → System → System
  enter_at c i s =
      let (got, m) = try_enter c (s.table.mtx i) in
      move c (if got then Place.entered i else Place.outside)
        (record s { table = record s.table { mtx = update s.table.mtx i m } })

  abbrev pub note_at : Core → ℕ → System → System
  note_at c i s = move c Place.outside (record s {
    table = record s.table {
      counts = update_at s.table.counts c i (s.table.counts c i + 1);
      held = update_at s.table.held c i true;
    };
  })

  -- `recursive_mutex_exit`
  abbrev pub exit_at : Core → ℕ → System → System
  exit_at c i s =
      move c (Place.exited i)
        (record s { table = record s.table { mtx = update s.table.mtx i (exit (s.table.mtx i)) } })

  abbrev pub strike_at : Core → ℕ → System → System
  strike_at c i s = move c Place.outside (
      if ltb 0 (s.table.counts c i)
      then record s {
        table = record s.table {
          counts = update_at s.table.counts c i (s.table.counts c i - 1);
          held = if s.table.counts c i == 1 then update_at s.table.held c i false else s.table.held;
        };
      }
      else s)

  -- A step of core `c`. No core begins a set-up while the other is at one, only a core that holds
  -- a mutex leaves it, and none enters it more than the 255 times that the SDK counts.
  pub data Step (s : System) (c : Core) : System → Type 0 where
    tests :
        {t : System}
        → s.at c ≡ Place.outside
        → setting_up (s.at (other c)) ≡ false
        → s.table.count < max_mutexes
        → t ≡ move c Place.tested s
        → Step s c t
    loads : {t : System} → s.at c ≡ Place.tested → t ≡ load_count c s → Step s c t
    stores : (i : ℕ) {t : System} → s.at c ≡ Place.loaded i → t ≡ store_count c i s → Step s c t
    clears : (i : ℕ) {t : System} → s.at c ≡ Place.counted i → t ≡ clear_at c i s → Step s c t
    readies : (i : ℕ) {t : System} → s.at c ≡ Place.cleared i → t ≡ ready_at c i s → Step s c t
    enters :
        (i : ℕ) {t : System}
        → s.at c ≡ Place.outside
        → s.table.ready i ≡ true
        → s.table.counts c i < 255
        → t ≡ enter_at c i s
        → Step s c t
    notes : (i : ℕ) {t : System} → s.at c ≡ Place.entered i → t ≡ note_at c i s → Step s c t
    exits :
        (i : ℕ) {t : System}
        → s.at c ≡ Place.outside
        → s.table.ready i ≡ true
        → 0 < s.table.counts c i
        → t ≡ exit_at c i s
        → Step s c t
    strikes : (i : ℕ) {t : System} → s.at c ≡ Place.exited i → t ≡ strike_at c i s → Step s c t

  abbrev pub at_start : System
  at_start = record { table = no_mutexes R; at = λ c. Place.outside }

  -- The states that steps of both cores, in any order, lead to.
  pub data Reach : System → Type 0 where
    start : Reach at_start
    later : {s t : System} (c : Core) → Reach s → Step s c t → Reach t

  -- Taken one after the other, the steps of a core are the functions of the table.
  take_slot-steps :
      (c : Core) (s : System)
      → (ready_at c s.table.count
          (clear_at c s.table.count (store_count c s.table.count (load_count c s)))).table
        ≡ take_slot R s.table
  take_slot-steps c s = refl

  attempt-steps :
      (c : Core) (i : ℕ) (s : System)
      → (try_enter c (s.table.mtx i)).0 ≡ true
      → (note_at c i (enter_at c i s)).table ≡ (attempt R c i s.table).1
  unfolding attempt
  attempt-steps c i s got = ground (arith, got)

  release-steps :
      (c : Core) (i : ℕ) (s : System)
      → (strike_at c i (exit_at c i s)).table ≡ release R c i s.table
  unfolding release
  release-steps c i s = ground arith
