-- ===== src/Runtime/Tests.antt =====
-- The theorems on the runtime's support, at a machine whose only mutex is the lock of the domain.
use pico_ocaml.Prelude.{
  ◌++◌, take, ℕ, ◌+◌, ◌≡◌, refl, ap, Bool, true, false, not, Option, none, some, [], ◌∷◌, arith,
  ◌==◌,
}
use pico_ocaml.Prelude.Int.{pos}
use pico_ocaml.Sync.Sdk.{Core}
use pico_ocaml.Sync.Sdk.Owned.{sdk, Sdk, depth_sdk}
use pico_ocaml.Sync.Mutex.{Mutexes, no_mutexes, take_slot}
use pico_ocaml.Sync.Mutex.Inv.{IsSync, no_mutexes-IsSync, take_slot-IsSync}
use pico_ocaml.Libc.{Errno, Sys, write}
use pico_ocaml.Runtime.Writing.{poll, write-Restored}
use pico_ocaml.Runtime.Stw.{Machine, Handlers, Poll, try_handle_stw_interrupt}
use pico_ocaml.Runtime.Stw.Depth.{poll_twice}
use pico_ocaml.Runtime.Stw.Restores.{
  IsRefused, Result, HasLock, Restored, Due, Balanced, try_handle_stw_interrupt_lem,
}
use pico_ocaml.Runtime.MallocLock.{
  Malloc, init_malloc_mutex, malloc_lock, malloc_unlock, inside, malloc_lock-unlock,
}

-- The runtime's state is the number of interrupts queued. The handler polls once, in vain, and
-- takes them all.
abbrev poll_and_drain : Poll sdk ℕ → Machine sdk ℕ → Option (Machine sdk ℕ)
poll_and_drain p s = elim (p s) [ none ↦ none | some (b, s') ↦ some (record s' { runtime = 0 }) ]

abbrev pub drain : Handlers sdk ℕ
drain = record {
  queued = λ c w. not (w == 0);
  domain_state = λ c w. 100;
  handle = λ c p s. poll_and_drain p s;
}

abbrev one_mutex : Mutexes sdk
one_mutex = take_slot sdk (no_mutexes sdk)

one_mutex-IsSync : IsSync sdk one_mutex
one_mutex-IsSync = take_slot-IsSync sdk (no_mutexes-IsSync sdk) (omega arith)

abbrev waiting : Machine sdk ℕ
waiting = record {
  handling = λ d. false;
  caml_state = 7;
  mutexes = one_mutex;
  domain_lock = some (pos 0);
  runtime = 3;
}

poll_twice_example :
    try_handle_stw_interrupt sdk ℕ drain Core.core0 5 waiting
    ≡ try_handle_stw_interrupt sdk ℕ drain Core.core0 2 waiting
poll_twice_example =
    poll_twice sdk ℕ drain Core.core0
      (λ p q same s busy.
        ap (λ o. elim o [ none ↦ none | some (b, s') ↦ some (record s' { runtime = 0 }) ])
          (same s busy))
      3 waiting

pub drained :
    (c : Core) (p : Poll sdk ℕ) (s : Machine sdk ℕ)
    → IsRefused sdk ℕ drain c p
    → s.handling c ≡ true
    → IsSync sdk s.mutexes
    → (s' : Machine sdk ℕ) × (poll_and_drain p s ≡ some s') × Balanced sdk ℕ drain c s s'
drained c p s refused busy v = (
  record s { runtime = 0 },
  ap (λ o. elim o [ none ↦ none | some (b, s') ↦ some (record s' { runtime = 0 }) ])
      (refused s busy),
  record { flags = refl; lock = refl; sync = v; ready = refl; counts = refl },
)

waiting-HasLock : HasLock sdk ℕ drain Core.core0 waiting (pos 0) 0
waiting-HasLock = record { sync = one_mutex-IsSync; lock = refl; index = refl; few = omega arith }

try_handle_stw_interrupt_lem_example :
    (b : Bool) × (s' : Machine sdk ℕ) × (try_handle_stw_interrupt sdk ℕ drain Core.core0 2 waiting
      ≡ some (b, s'))
    × Restored sdk ℕ drain Core.core0 waiting s'
    × (Due sdk ℕ drain Core.core0 waiting 0 → b ≡ true)
    × Result sdk ℕ drain Core.core0
        (try_handle_stw_interrupt sdk ℕ drain Core.core0 1)
        0
        b
        waiting
        s'
try_handle_stw_interrupt_lem_example =
    try_handle_stw_interrupt_lem sdk ℕ drain Core.core0 (drained Core.core0) (pos 0) 0 waiting
      waiting-HasLock 0

-- Core 1 is inside once and leaves while core 0 waits.
abbrev in_use : Malloc sdk
in_use = record { mutex = Sdk.owned Core.core1 0; initialized = true }

leaves : Sdk → Sdk
leaves (Sdk.owned Core.core1 k) = Sdk.free
leaves m = m

leaves-fair : (m : Sdk) → depth_sdk Core.core0 (leaves m) ≡ depth_sdk Core.core0 m
unfolding leaves
leaves-fair Sdk.free = refl
leaves-fair (Sdk.owned Core.core0 k) = refl
leaves-fair (Sdk.owned Core.core1 k) = refl

malloc_lock-unlock_example :
    (s' : Malloc sdk) × (malloc_lock sdk Core.core0 (leaves ∷ []) in_use ≡ some s')
    × (inside sdk Core.core0 s' ≡ 0 + 1)
    × (inside sdk Core.core1 s' ≡ 0)
    × (inside sdk Core.core0 (malloc_unlock sdk s') ≡ 0)
    × (inside sdk Core.core1 (malloc_unlock sdk s') ≡ 0)
unfolding leaves init_malloc_mutex
malloc_lock-unlock_example =
    malloc_lock-unlock sdk Core.core0 (leaves ∷ []) in_use (omega arith) (leaves-fair, tt) refl

abbrev printing : Sys (Machine sdk ℕ)
printing = record { out = b'>' ∷ []; errno = Errno.unset; rest = waiting }

write-Restored_example :
    (s' : Sys (Machine sdk ℕ)) × (write
        (poll sdk ℕ drain Core.core0)
        (pos 1)
        (b'h' ∷ b'i' ∷ [])
        (pos 2)
        printing
      ≡ some (pos 2, s'))
    × (s'.out ≡ printing.out ++ take 2 (b'h' ∷ b'i' ∷ []))
    × Restored sdk ℕ drain Core.core0 printing.rest s'.rest
write-Restored_example =
    write-Restored sdk ℕ drain Core.core0 (drained Core.core0) (pos 0) 0 (pos 1) (b'h' ∷ b'i' ∷ [])
      2 printing refl (omega arith) waiting-HasLock
