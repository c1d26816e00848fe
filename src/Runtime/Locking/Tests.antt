-- ===== src/Runtime/Locking/Tests.antt =====
-- The lock with polls, of a mutex that core 0 holds and lets go of while core 1, with a lock of
-- its own domain, waits.
use pico_ocaml.Prelude.{
  ℕ, ◌≡◌, refl, ◌∙◌, inl, inr, false, ◌&&◌, some, [], ◌∷◌, arith, ltb, ltb→lt, Bool-cases,
  if◌then◌else◌,
}
use pico_ocaml.Prelude.Int.{pos}
use pico_ocaml.Sync.Sdk.{Core}
use pico_ocaml.Sync.Sdk.Owned.{sdk}
use pico_ocaml.Sync.Mutex.{
  Code, Mutexes, index_of, no_mutexes, take_slot, attempt, release, ensure_mutex_init,
  pthread_mutex_trylock, pthread_mutex_unlock,
}
use pico_ocaml.Sync.Mutex.Inv.{
  IsSync, no_mutexes-IsSync, take_slot-IsSync, attempt-IsSync, release-IsSync,
}
use pico_ocaml.Runtime.Stw.{
  Machine, enter_handler, leave_handler, try_lock, poll_once, try_handle_stw_interrupt,
}
use pico_ocaml.Runtime.Writing.{poll}
use pico_ocaml.Runtime.Stw.Restores.{HasLock}
use pico_ocaml.Runtime.Tests.{drain, drained}
use pico_ocaml.Runtime.Locking.{lock_and_poll, waited, Kept, Acquired, lock_and_poll-Acquired}

abbrev two_mutexes : Mutexes sdk
two_mutexes = take_slot sdk (take_slot sdk (no_mutexes sdk))

two_mutexes-IsSync : IsSync sdk two_mutexes
two_mutexes-IsSync =
    take_slot-IsSync sdk (take_slot-IsSync sdk (no_mutexes-IsSync sdk) (omega arith)) (omega arith)

-- Core 0 holds mutex 0, mutex 1 is the lock of core 1's domain, and interrupts are queued for it.
abbrev blocked : Machine sdk ℕ
blocked = record {
  handling = λ d. false;
  caml_state = 7;
  mutexes = (attempt sdk Core.core0 0 two_mutexes).1;
  domain_lock = some (pos 1);
  runtime = 3;
}

blocked-HasLock : HasLock sdk ℕ drain Core.core1 blocked (pos 1) 1
unfolding attempt
blocked-HasLock = record {
  sync = attempt-IsSync sdk Core.core0 0 two_mutexes-IsSync refl (omega arith);
  lock = refl;
  index = refl;
  few = omega arith;
}

-- Core 0 lets go of mutex 0 if it holds it.
abbrev lets_go : Machine sdk ℕ → Machine sdk ℕ
lets_go s =
    if ltb 0 (s.mutexes.counts Core.core0 0) && s.mutexes.ready 0
    then record s { mutexes = release sdk Core.core0 0 s.mutexes }
    else s

unchanged : (s : Machine sdk ℕ) → IsSync sdk s.mutexes → Kept sdk ℕ drain Core.core1 s s
unchanged s v = record {
  sync = v;
  ready = λ j e. e;
  counts = λ j. refl;
  flag = refl;
  state = refl;
  lock = refl;
}

release_same :
    (t : Mutexes sdk) (j : ℕ)
    → ((release sdk Core.core0 0 t).ready j ≡ t.ready j)
      × ((release sdk Core.core0 0 t).counts Core.core1 j ≡ t.counts Core.core1 j)
unfolding release
release_same t j = (ground arith, ground arith)

lets_go-Kept :
    (s : Machine sdk ℕ) → IsSync sdk s.mutexes → Kept sdk ℕ drain Core.core1 s (lets_go s)
lets_go-Kept s v = elim (Bool-cases (ltb 0 (s.mutexes.counts Core.core0 0))) [
  | inr none_held ↦ rw none_held (unchanged s v)
  | inl mine ↦ elim (Bool-cases (s.mutexes.ready 0)) [
    | inr not_ready ↦ rw (mine, not_ready) (unchanged s v)
    | inl ready ↦
        rw (mine, ready)
          record {
            sync =
                release-IsSync sdk Core.core0 0 v ready
                  (ltb→lt 0 (s.mutexes.counts Core.core0 0) mine);
            ready = λ j e. (release_same s.mutexes j).0 ∙ e;
            counts = λ j. (release_same s.mutexes j).1;
            flag = refl;
            state = refl;
            lock = refl;
          }
  ]
]

let_go : (waited sdk ℕ drain Core.core1 0 (lets_go ∷ []) blocked).mutexes.counts Core.core0 0 ≡ 0
unfolding attempt release pthread_mutex_trylock ensure_mutex_init pthread_mutex_unlock enter_handler
    leave_handler try_lock poll_once try_handle_stw_interrupt poll
let_go = refl

set_up : index_of sdk (pos 0) blocked.mutexes ≡ some 0
unfolding attempt
set_up = refl

lock_and_poll-Acquired_example :
    (s' : Machine sdk ℕ) × (lock_and_poll sdk ℕ drain Core.core1 (pos 0) (lets_go ∷ []) blocked
      ≡ some (Code.success, pos 0, s'))
    × Acquired sdk ℕ drain Core.core1 0 blocked s'
unfolding attempt
lock_and_poll-Acquired_example =
    lock_and_poll-Acquired sdk ℕ drain Core.core1 (drained Core.core1) (pos 1) 1 (pos 0) 0
      (lets_go ∷ []) blocked blocked-HasLock set_up (omega arith) (lets_go-Kept, tt) let_go
