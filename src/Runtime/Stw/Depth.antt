-- ===== src/Runtime/Stw/Depth.antt =====
-- How deep the calls of `try_handle_stw_interrupt` nest.
use pico_ocaml.Prelude.{
  ℕ, suc, ◌≡◌, refl, sym, ◌∙◌, inl, inr, true, false, some, Bool-cases, Option-cases,
}
use pico_ocaml.Prelude.Int.{ℤ}
use pico_ocaml.Sync.Sdk.{Core, same_core, RecursiveMutex}
use pico_ocaml.Sync.Mutex.{pthread_mutex_trylock}
use pico_ocaml.Runtime.Stw.{
  Machine, Handlers, Poll, is_success, locked, try_lock, enter_handler, poll_once,
  try_handle_stw_interrupt,
}

pub same_core_refl : (c : Core) → same_core c c ≡ true
same_core_refl Core.core0 = refl
same_core_refl Core.core1 = refl

module _ (R : RecursiveMutex) (W : Type 0) (H : Handlers R W) (c : Core) where
  -- The handler polls only while the flag of its core is set: it does what it does whatever a poll
  -- would do without the flag.
  abbrev PollsGuarded : Type 0
  PollsGuarded =
      (p q : Poll R W)
      → ((s : Machine R W) → s.handling c ≡ true → p s ≡ q s)
      → (s : Machine R W) → s.handling c ≡ true
      → H.handle c p s ≡ H.handle c q s

  pub guarded_poll :
      (depth : ℕ) (s : Machine R W)
      → s.handling c ≡ true
      → try_handle_stw_interrupt R W H c (suc depth) s ≡ some (false, s)
  unfolding try_handle_stw_interrupt poll_once
  guarded_poll depth s busy = rw busy refl

  pub entered : (s : Machine R W) → (enter_handler R W H c s).handling c ≡ true
  unfolding enter_handler
  entered s = rw (same_core_refl c) refl

  -- One poll does the same with either of two nested polls that agree where the flag is set.
  poll_once-same :
      PollsGuarded
      → (p q : Poll R W) → ((s : Machine R W) → s.handling c ≡ true → p s ≡ q s)
      → (s : Machine R W) → poll_once R W H c p s ≡ poll_once R W H c q s
  unfolding poll_once try_lock
  poll_once-same g p q same s = elim (Bool-cases (s.handling c)) [
    | inl busy ↦ rw busy refl
    | inr idle ↦ elim (Bool-cases (H.queued c s.runtime)) [
      | inr none_queued ↦ rw (idle, none_queued) refl
      | inl some_queued ↦ elim (Option-cases s.domain_lock) [
        | inl no_lock ↦ rw (idle, some_queued, no_lock) refl
        | inr (m, lock) ↦ rw (idle, some_queued, lock) (tried m)
      ]
    ]
  ]
    where
      tried : (m : ℤ) → try_lock R W H c p s m ≡ try_lock R W H c q s m
      tried m = elim (Bool-cases (is_success (pthread_mutex_trylock R c m s.mutexes).0)) [
        | inr failed ↦ rw failed refl
        | inl got ↦
            rw
              (
                got,
                g p q same
                    (enter_handler R W H c (locked R W s (pthread_mutex_trylock R c m s.mutexes)))
                    (entered (locked R W s (pthread_mutex_trylock R c m s.mutexes))),
              )
              refl
      ]

  -- A handler that polls only while the flag of its core is set may do so as often as it likes:
  -- every depth of nested calls from two on gives the same, so a poll inside a handler is refused
  -- and starts no handler of its own.
  pub poll_twice :
      PollsGuarded
      → (depth : ℕ) (s : Machine R W)
      → try_handle_stw_interrupt R W H c (suc (suc depth)) s ≡ try_handle_stw_interrupt R W H c 2 s
  unfolding try_handle_stw_interrupt
  poll_twice g depth s =
      poll_once-same g (try_handle_stw_interrupt R W H c (suc depth))
        (try_handle_stw_interrupt R W H c 1)
        (λ t busy. guarded_poll depth t busy ∙ sym (guarded_poll 0 t busy)) s
