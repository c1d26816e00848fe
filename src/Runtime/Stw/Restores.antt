-- ===== src/Runtime/Stw/Restores.antt =====
-- What a poll leaves as it was.
use pico_ocaml.Prelude.{
  ℕ, suc, ◌+◌, ◌<◌, ◌≡◌, refl, sym, ap, ◌∙◌, inl, inr, Bool, true, false, none, some, arith,
  Bool-cases, ltb, ◌&&◌, if◌then◌else◌,
}
use pico_ocaml.Prelude.Int.{ℤ, pos, negsuc}
use pico_ocaml.Sync.Sdk.{Core, other, same_core, RecursiveMutex}
use pico_ocaml.Sync.Mutex.{
  max_mutexes, Mutexes, index_of, ensure_mutex_init, attempt, release, pthread_mutex_trylock,
  pthread_mutex_unlock,
}
use pico_ocaml.Sync.Mutex.Inv.{
  IsSync, attempt-got, attempt-IsSync, attempt-ready, attempt-failed, attempt-counts,
  release-IsSync,
}
use pico_ocaml.Sync.Mutex.Lock.{ready_of_index, release-attempt-counts}
use pico_ocaml.Runtime.Stw.Depth.{guarded_poll, entered}
use pico_ocaml.Runtime.Stw.{
  Machine, Handlers, Poll, set_handling, try_lock, enter_handler, leave_handler, poll_once,
  try_handle_stw_interrupt,
}

same_core→≡ : (c d : Core) → same_core c d ≡ true → c ≡ d
same_core→≡ Core.core0 Core.core0 e = refl
same_core→≡ Core.core1 Core.core1 e = refl
same_core→≡ Core.core0 Core.core1 e = cc
same_core→≡ Core.core1 Core.core0 e = cc

module _ (R : RecursiveMutex) (W : Type 0) (H : Handlers R W) (c : Core) where
  -- A poll is refused while the flag of its core is set.
  abbrev pub IsRefused : Poll R W → Type 0
  IsRefused p = (s : Machine R W) → s.handling c ≡ true → p s ≡ some (false, s)

  -- The handler, called with the flag set, comes back, the mutexes and the flags are as it found
  -- them, and the table of mutexes is well-formed. What it does to `caml_state` and to the
  -- runtime does not matter.
  pub record Balanced (s s' : Machine R W) : Type 0 where
    pub flags : s'.handling ≡ s.handling
    pub lock : s'.domain_lock ≡ s.domain_lock
    pub sync : IsSync R s'.mutexes
    pub ready : s'.mutexes.ready ≡ s.mutexes.ready
    pub counts : s'.mutexes.counts ≡ s.mutexes.counts

  abbrev pub HandlesBalanced : Type 0
  HandlesBalanced =
      (p : Poll R W) (s : Machine R W)
      → IsRefused p
      → s.handling c ≡ true
      → IsSync R s.mutexes
      → (s' : Machine R W) × (H.handle c p s ≡ some s') × Balanced s s'

  -- There is a domain lock, set up, that this core holds less often than it can.
  pub record HasLock (s : Machine R W) (m : ℤ) (i : ℕ) : Type 0 where
    pub sync : IsSync R s.mutexes
    pub lock : s.domain_lock ≡ some m
    pub index : index_of R m s.mutexes ≡ some i
    pub few : s.mutexes.counts c i < 255

  -- What a poll leaves as it was.
  pub record Restored (s s' : Machine R W) : Type 0 where
    pub flags : (d : Core) → s'.handling d ≡ s.handling d
    pub state : s'.caml_state ≡ s.caml_state
    pub lock : s'.domain_lock ≡ s.domain_lock
    pub sync : IsSync R s'.mutexes
    pub ready : s'.mutexes.ready ≡ s.mutexes.ready
    pub counts : (d : Core) (j : ℕ) → s'.mutexes.counts d j ≡ s.mutexes.counts d j

  -- The runtime's handler was called, with the flag of this core set, `caml_state` the domain's
  -- and one hold of the domain lock more, polls within it being `p`; and the runtime is as the
  -- handler left it.
  pub record Handled (p : Poll R W) (i : ℕ) (s s' : Machine R W) : Type 0 where
    pub before : Machine R W
    pub after : Machine R W
    pub called : H.handle c p before ≡ some after
    pub flag : before.handling c ≡ true
    pub state : before.caml_state ≡ H.domain_state c s.runtime
    pub holds : before.mutexes.counts c i ≡ s.mutexes.counts c i + 1
    pub given : before.runtime ≡ s.runtime
    pub left : s'.runtime ≡ after.runtime

  -- What the result says: the interrupts were handled, or nothing was done about them.
  abbrev pub Result : Poll R W → ℕ → Bool → Machine R W → Machine R W → Type 0
  Result p i true s s' = Handled p i s s'
  Result p i false s s' = s'.runtime ≡ s.runtime

  set_back :
      (s s' : Machine R W) (d : Core)
      → s.handling c ≡ false
      → s'.handling ≡ (set_handling R W c true s).handling
      → (set_handling R W c false s').handling d ≡ s.handling d
  set_back s s' d idle e = elim (Bool-cases (same_core c d)) [
    | inl mine ↦ rw mine (sym idle ∙ ap s.handling (same_core→≡ c d mine))
    | inr not_mine ↦ ground (arith, not_mine, ap (λ h. h d) e)
  ]

  pub index_of-ready :
      (m : ℤ) (x y : Mutexes R) → x.ready ≡ y.ready → index_of R m x ≡ index_of R m y
  index_of-ready (pos k) x y e = ap (λ f. if ltb k max_mutexes && f k then some k else none) e
  index_of-ready (negsuc k) x y e = refl

  release-counts :
      (i : ℕ) (x y : Mutexes R)
      → x.counts ≡ y.counts
      → (d : Core) (j : ℕ) → (release R c i x).counts d j ≡ (release R c i y).counts d j
  unfolding release
  release-counts i x y e d j = ground (arith, ap (λ f. f c i) e, ap (λ f. f d j) e)

  release-ready : (i : ℕ) (x : Mutexes R) → (release R c i x).ready ≡ x.ready
  unfolding release
  release-ready i x = ground arith

  -- What is left when the handler has come back and the lock is released.
  finished : (i : ℕ) (saved : ℕ) → Machine R W → Machine R W
  finished i saved s = record (set_handling R W c false (record s { caml_state = saved })) {
    mutexes = release R c i s.mutexes;
  }

  leave_handler-finished :
      (m : ℤ) (i saved : ℕ) (s : Machine R W)
      → s.domain_lock ≡ some m
      → index_of R m s.mutexes ≡ some i
      → leave_handler R W c saved s ≡ finished i saved s
  unfolding leave_handler finished pthread_mutex_unlock
  leave_handler-finished m i saved s lock index = ground (arith, lock, index)

  -- Interrupts are queued, no handler of this core is at work, and the other core does not hold
  -- the lock.
  abbrev pub Due : Machine R W → ℕ → Type 0
  Due s i =
      (s.handling c ≡ false) × (H.queued c s.runtime ≡ true) × (s.mutexes.counts (other c) i ≡ 0)

  poll_Restored :
      HandlesBalanced
      → (m : ℤ) (i : ℕ) (s : Machine R W) → HasLock s m i
      → (p : Poll R W) → IsRefused p
      → (b : Bool) × (s' : Machine R W) × (poll_once R W H c p s ≡ some (b, s'))
        × Restored s s'
        × (Due s i → b ≡ true)
        × Result p i b s s'
  unfolding poll_once try_lock pthread_mutex_trylock ensure_mutex_init enter_handler finished
  poll_Restored g m i s h p refused = elim (Bool-cases (s.handling c)) [
    | inl busy ↦ (
      false,
      s,
      rw busy refl,
      record {
        flags = λ d. refl;
        state = refl;
        lock = refl;
        sync = h.sync;
        ready = refl;
        counts = λ d j. refl;
      },
      λ due. cc (due.0, busy),
      refl,
    )
    | inr idle ↦ elim (Bool-cases (H.queued c s.runtime)) [
      | inr none_queued ↦ (
        false,
        s,
        rw (idle, none_queued) refl,
        record {
          flags = λ d. refl;
          state = refl;
          lock = refl;
          sync = h.sync;
          ready = refl;
          counts = λ d j. refl;
        },
        λ due. cc (due.1, none_queued),
        refl,
      )
      | inl some_queued ↦ elim (Bool-cases (attempt R c i s.mutexes).0) [
        | inr failed ↦ (
          false,
          record s { domain_lock = some m; mutexes = (attempt R c i s.mutexes).1 },
          ground (arith, idle, some_queued, h.lock, h.index, failed),
          record {
            flags = λ d. refl;
            state = refl;
            lock = sym h.lock;
            sync = attempt-IsSync R c i h.sync ready h.few;
            ready = attempt-ready R c i h.sync ready h.few;
            counts = λ d j. ap (λ f. f d j) (attempt-failed R c i h.sync ready failed);
          },
          λ due. cc (failed, attempt-got R c i h.sync ready due.2 h.few),
          refl,
        )
        | inl got ↦
            let s1 = record s { domain_lock = some m; mutexes = (attempt R c i s.mutexes).1 } in
            let (s2, e, bal) =
              g p (enter_handler R W H c s1) refused (entered R W H c s1)
                (attempt-IsSync R c i h.sync ready h.few) in
            let index =
              index_of-ready m s2.mutexes s.mutexes
                (bal.ready ∙ attempt-ready R c i h.sync ready h.few)
              ∙ h.index in
            let counts = ap (λ f. f c i) bal.counts ∙ attempt-counts R c i h.sync ready h.few got in
            (
              true,
              finished i s.caml_state s2,
              ground (
                arith,
                idle,
                some_queued,
                h.lock,
                h.index,
                got,
                e,
                leave_handler-finished m i s.caml_state s2 bal.lock index,
              ),
              record {
                flags = λ d. set_back s s2 d idle bal.flags;
                state = refl;
                lock = bal.lock ∙ sym h.lock;
                sync =
                    release-IsSync R c i bal.sync
                      (ap (λ f. f i) (bal.ready ∙ attempt-ready R c i h.sync ready h.few) ∙ ready)
                      (omega (arith, counts));
                ready =
                    release-ready i s2.mutexes ∙ bal.ready ∙ attempt-ready R c i h.sync ready h.few;
                counts = λ d j.
                    release-counts i s2.mutexes (attempt R c i s.mutexes).1 bal.counts d j
                    ∙ release-attempt-counts R c i s.mutexes got d j;
              },
              λ due. refl,
              record {
                before = enter_handler R W H c s1;
                after = s2;
                called = e;
                flag = entered R W H c s1;
                state = refl;
                holds = attempt-counts R c i h.sync ready h.few got;
                given = refl;
                left = refl;
              },
            )
      ]
    ]
  ]
    where
      ready : s.mutexes.ready i ≡ true
      ready = (ready_of_index R m s.mutexes i h.index).0

  -- With a domain lock that is set up, and a handler that comes back with every lock and flag as
  -- it found it: `try_handle_stw_interrupt` returns, and leaves both cores' flags, this core's
  -- `caml_state` and every mutex as held as before. It returns 1 if some interrupts are queued,
  -- its core is not at that already and the other core does not hold the lock. When it returns 1,
  -- it has called the runtime's handler, with the flag of its core set, `caml_state` the domain's
  -- and the domain lock held once more, and the runtime's state is what the handler made of the
  -- one it found; when it returns 0, that is as before.
  pub try_handle_stw_interrupt_lem :
      HandlesBalanced
      → (m : ℤ) (i : ℕ) (s : Machine R W) → HasLock s m i
      → (depth : ℕ)
      → (b : Bool) × (s' : Machine R W) × (try_handle_stw_interrupt R W H c (suc (suc depth)) s
          ≡ some (b, s'))
        × Restored s s'
        × (Due s i → b ≡ true)
        × Result (try_handle_stw_interrupt R W H c (suc depth)) i b s s'
  unfolding try_handle_stw_interrupt
  try_handle_stw_interrupt_lem g m i s h depth =
      poll_Restored g m i s h (try_handle_stw_interrupt R W H c (suc depth))
        (guarded_poll R W H c depth)
