-- ===== src/Runtime/MallocLock.antt =====
-- ocaml_stubs.c, `__malloc_lock` and `__malloc_unlock`, which newlib calls around every use of
-- its heap.
use pico_ocaml.Prelude.{
  ℕ, suc, ◌+◌, ◌<◌, ◌≡◌, ap, ◌∙◌, inl, inr, Bool, true, false, Option, none, some, List, [], ◌∷◌,
  arith, Bool-cases, dec_lt, if◌then◌else◌,
}
use pico_ocaml.Sync.Sdk.{Core, other, RecursiveMutex}

module _ (R : RecursiveMutex) where
  open R use {
    Mutex, init, try_enter, exit, depth, init_free, enter_got, enter_deeper, enter_busy,
    enter_busy_same, enter_other, exit_own, exit_other,
  }

  -- `malloc_mutex` and `malloc_mutex_initialized`
  pub record Malloc : Type 0 where
    pub mutex : Mutex
    pub initialized : Bool

  unfoldable pub init_malloc_mutex : Malloc → Malloc
  init_malloc_mutex s = if s.initialized then s else record { mutex = init; initialized = true }

  -- `recursive_mutex_enter_blocking` tries until it gets the mutex; `rounds` is what the other
  -- core does to it after each try that fails. `none` is a core that still waits when the list
  -- ends.
  enter_blocking : Core → List (Mutex → Mutex) → Mutex → Option Mutex
  enter_blocking c [] m = let (got, m') = try_enter c m in if got then some m' else none
  enter_blocking c (round ∷ rounds) m =
      let (got, m') = try_enter c m in
      let rest = enter_blocking c rounds (round m') in if got then some m' else rest

  pub malloc_lock : Core → List (Mutex → Mutex) → Malloc → Option Malloc
  unfolding init_malloc_mutex enter_blocking
  malloc_lock c rounds s =
      let s' = init_malloc_mutex s in
      elim (enter_blocking c rounds s'.mutex) [
        | none ↦ none
        | some m ↦ some (record s' { mutex = m })
      ]

  pub malloc_unlock : Malloc → Malloc
  malloc_unlock s = if s.initialized then record s { mutex = exit s.mutex } else s

  -- How often core `c` is inside; before the first lock no core is.
  abbrev pub inside : Core → Malloc → ℕ
  inside c s = if s.initialized then depth c s.mutex else 0

  inside-init : (c : Core) (s : Malloc) → depth c (init_malloc_mutex s).mutex ≡ inside c s
  unfolding init_malloc_mutex
  inside-init c s = elim (Bool-cases s.initialized) [
    | inl ready ↦ ground (arith, ready)
    | inr fresh ↦ ground (arith, fresh, init_free c)
  ]

  initialized-init : (s : Malloc) → (init_malloc_mutex s).initialized ≡ true
  unfolding init_malloc_mutex
  initialized-init s = ground arith

  -- The core waits while the other is inside, whatever that is: what the other does keeps this
  -- core's own count.
  abbrev pub Fair : Core → List (Mutex → Mutex) → Type 0
  Fair c [] = Unit {0}
  Fair c (round ∷ rounds) = ((m : Mutex) → depth c (round m) ≡ depth c m) × Fair c rounds

  -- the mutex after all the rounds, if every try before them fails
  abbrev pub waited : Core → List (Mutex → Mutex) → Mutex → Mutex
  waited c [] m = m
  waited c (round ∷ rounds) m = waited c rounds (round (try_enter c m).1)

  free_of : (c : Core) (m : Mutex) → (try_enter c m).0 ≡ true → depth (other c) m ≡ 0
  free_of c m got = elim (dec_lt 0 (depth (other c) m)) [
    | yes busy ↦ cc (got, enter_busy c m busy)
    | no free ↦ omega arith
  ]

  busy_of :
      (c : Core) (m : Mutex) → (try_enter c m).0 ≡ false → depth c m < 255 → 0 < depth (other c) m
  busy_of c m failed few = elim (dec_lt 0 (depth (other c) m)) [
    | yes busy ↦ busy
    | no free ↦ cc (failed, enter_got c m (omega arith) few)
  ]

  enter_blocking-enters :
      (c : Core) (rounds : List (Mutex → Mutex)) (m : Mutex)
      → depth c m < 255
      → Fair c rounds
      → depth (other c) (waited c rounds m) ≡ 0
      → (m' : Mutex) × (enter_blocking c rounds m ≡ some m')
        × (depth c m' ≡ suc (depth c m))
        × (depth (other c) m' ≡ 0)
  unfolding enter_blocking
  enter_blocking-enters c [] m few f free = (
    (try_enter c m).1,
    ground (arith, enter_got c m free few),
    enter_deeper c m free few,
    enter_other c m ∙ free,
  )
  enter_blocking-enters c (round ∷ rounds) m few f free = elim (Bool-cases (try_enter c m).0) [
    | inl got ↦
        let alone = free_of c m got in
        (
          (try_enter c m).1,
          ground (arith, got),
          enter_deeper c m alone few,
          enter_other c m ∙ alone,
        )
    | inr failed ↦
        let kept = f.0 (try_enter c m).1 ∙ enter_busy_same c c m (busy_of c m failed few) in
        let (m', e, deeper, alone) =
          enter_blocking-enters c rounds (round (try_enter c m).1) (omega (arith, kept)) f.1 free in
        (m', ground (arith, failed, e), deeper ∙ ap suc kept, alone)
  ]

  -- When a core that is inside fewer than 255 times calls `__malloc_lock`, before or after the
  -- mutex was initialised, and the other core, if it was inside, leaves in the end: the call
  -- returns, with this core inside once more and the other outside; and `__malloc_unlock` then
  -- brings this core's count back to what it was and leaves the other outside.
  pub malloc_lock-unlock :
      (c : Core) (rounds : List (Mutex → Mutex)) (s : Malloc)
      → inside c s < 255
      → Fair c rounds
      → depth (other c) (waited c rounds (init_malloc_mutex s).mutex) ≡ 0
      → (s' : Malloc) × (malloc_lock c rounds s ≡ some s')
        × (inside c s' ≡ inside c s + 1)
        × (inside (other c) s' ≡ 0)
        × (inside c (malloc_unlock s') ≡ inside c s)
        × (inside (other c) (malloc_unlock s') ≡ 0)
  unfolding malloc_lock malloc_unlock
  malloc_lock-unlock c rounds s few f free =
      let (m', e, deeper, alone) =
        enter_blocking-enters c rounds (init_malloc_mutex s).mutex (omega (arith, inside-init c s))
          f free in
      let own = exit_own c m' (omega (arith, deeper)) in
      let others = exit_other c m' (omega (arith, deeper)) in
      let ready = initialized-init s in
      (
        record { mutex = m'; initialized = true },
        ground (arith, e, ready),
        omega (arith, deeper, inside-init c s),
        alone,
        omega (arith, own, deeper, inside-init c s),
        others ∙ alone,
      )
