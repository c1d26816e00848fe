-- ===== src/Runtime/Locking.antt =====
-- `pthread_mutex_lock` with the polls that it makes: a core that waits for a mutex takes part in
-- the collections of the other.
mod Tests
use pico_ocaml.Prelude.{
  ℕ, ◌+◌, ◌<◌, ◌≡◌, ◌≢◌, refl, sym, ap, subst, ◌∙◌, inl, inr, Option, none, some, List, [], ◌∷◌,
  arith, Bool, true, false, Bool-cases, if◌then◌else◌,
}
use pico_ocaml.Prelude.Int.{ℤ, pos, negsuc}
use pico_ocaml.Sync.Sdk.{Core, other, RecursiveMutex}
use pico_ocaml.Sync.Mutex.{Code, Mutexes, index_of, ensure_mutex_init, attempt}
use pico_ocaml.Sync.Mutex.Inv.{
  IsSync, attempt-got, attempt-IsSync, attempt-ready, attempt-failed, attempt-counts,
}
use pico_ocaml.Sync.Mutex.Lock.{ready_of_index}
use pico_ocaml.Runtime.Stw.{Machine, Handlers, try_handle_stw_interrupt}
use pico_ocaml.Runtime.Stw.Restores.{
  HandlesBalanced, HasLock, Restored, try_handle_stw_interrupt_lem,
}
use pico_ocaml.Runtime.Writing.{poll}

module _ (R : RecursiveMutex) (W : Type 0) (H : Handlers R W) (c : Core) where
  -- One `recursive_mutex_try_enter`, and the machine after it.
  abbrev tried : ℕ → Machine R W → Machine R W
  tried i s = record s { mutexes = (attempt R c i s.mutexes).1 }

  -- The loop of `pthread_mutex_lock` for the slot `i`: after a try that fails, the core polls and
  -- then sleeps. `sleeps` is what the other core does meanwhile, one entry for each failed try.
  -- `none` is a lock that is still waiting when the list ends.
  lock_polling :
      ℕ → (sleeps : List (Machine R W → Machine R W)) → Machine R W → Option (Machine R W)
  lock_polling i [] s = if (attempt R c i s.mutexes).0 then some (tried i s) else none
  lock_polling i (sleep ∷ sleeps) s =
      let rest : Option (Machine R W) = elim (try_handle_stw_interrupt R W H c 2 (tried i s)) [
        | none ↦ none
        | some (handled, s') ↦ lock_polling i sleeps (sleep s')
      ] in
      if (attempt R c i s.mutexes).0 then some (tried i s) else rest

  -- `pthread_mutex_lock` as the runtime runs it, with what `*m` is afterwards.
  pub lock_and_poll :
      ℤ
      → (sleeps : List (Machine R W → Machine R W)) → Machine R W
      → Option (Code × ℤ × Machine R W)
  unfolding ensure_mutex_init lock_polling
  lock_and_poll m sleeps s =
      let (index, m', t) = ensure_mutex_init R m s.mutexes in
      let s' = record s { mutexes = t } in
      elim index [
        | none ↦ some (Code.success, m', s')
        | some i ↦ elim (lock_polling i sleeps s') [
          | none ↦ none
          | some s'' ↦ some (Code.success, m', s'')
        ]
      ]

  -- What waiting leaves as it was: this core's holds, its flag and its `caml_state`, the domain lock,
  -- and that a mutex is set up.
  pub record Kept (s s' : Machine R W) : Type 0 where
    pub sync : IsSync R s'.mutexes
    pub ready : (j : ℕ) → s.mutexes.ready j ≡ true → s'.mutexes.ready j ≡ true
    pub counts : (j : ℕ) → s'.mutexes.counts c j ≡ s.mutexes.counts c j
    pub flag : s'.handling c ≡ s.handling c
    pub state : s'.caml_state ≡ s.caml_state
    pub lock : s'.domain_lock ≡ s.domain_lock

  Kept-trans : {s t u : Machine R W} → Kept s t → Kept t u → Kept s u
  Kept-trans a b = record {
    sync = b.sync;
    ready = λ j e. b.ready j (a.ready j e);
    counts = λ j. b.counts j ∙ a.counts j;
    flag = b.flag ∙ a.flag;
    state = b.state ∙ a.state;
    lock = b.lock ∙ a.lock;
  }

  Restored-Kept : {s t : Machine R W} → Restored R W H c s t → Kept s t
  Restored-Kept r = record {
    sync = r.sync;
    ready = λ j e. ap (λ f. f j) r.ready ∙ e;
    counts = r.counts c;
    flag = r.flags c;
    state = r.state;
    lock = r.lock;
  }

  -- While this core sleeps the other one changes nothing of this one's.
  abbrev pub Fair : List (Machine R W → Machine R W) → Type 0
  Fair [] = Unit {0}
  Fair (sleep ∷ sleeps) = ((s : Machine R W) → IsSync R s.mutexes → Kept s (sleep s)) × Fair sleeps

  -- The machine after all the rounds, if every try before them fails.
  abbrev pub waited : ℕ → List (Machine R W → Machine R W) → Machine R W → Machine R W
  waited i [] s = s
  waited i (sleep ∷ sleeps) s = waited i sleeps (sleep (poll R W H c (tried i s)))

  -- One hold of mutex `i` more, and the rest of this core's as it was.
  pub record Acquired (i : ℕ) (s s' : Machine R W) : Type 0 where
    pub sync : IsSync R s'.mutexes
    pub once_more : s'.mutexes.counts c i ≡ s.mutexes.counts c i + 1
    pub excluded : s'.mutexes.counts (other c) i ≡ 0
    pub others : (j : ℕ) → i ≢ j → s'.mutexes.counts c j ≡ s.mutexes.counts c j
    pub flag : s'.handling c ≡ s.handling c
    pub state : s'.caml_state ≡ s.caml_state

  Kept-Acquired : {i : ℕ} {s t u : Machine R W} → Kept s t → Acquired i t u → Acquired i s u
  Kept-Acquired {i} k a = record {
    sync = a.sync;
    once_more = a.once_more ∙ ap (λ n. n + 1) (k.counts i);
    excluded = a.excluded;
    others = λ j apart. a.others j apart ∙ k.counts j;
    flag = a.flag ∙ k.flag;
    state = a.state ∙ k.state;
  }

  attempt-others : (i j : ℕ) (t : Mutexes R) → i ≢ j → (attempt R c i t).1.counts c j ≡ t.counts c j
  unfolding attempt
  attempt-others i j t apart = ground (arith, apart)

  tried-Acquired :
      (i : ℕ) (s : Machine R W)
      → IsSync R s.mutexes
      → s.mutexes.ready i ≡ true
      → s.mutexes.counts c i < 255
      → (attempt R c i s.mutexes).0 ≡ true
      → Acquired i s (tried i s)
  tried-Acquired i s v ready few got =
      let more = attempt-counts R c i v ready few got in
      let kept = attempt-IsSync R c i v ready few in
      record {
        sync = kept;
        once_more = more;
        excluded = kept.exclusive c i (omega (arith, more));
        others = λ j apart. attempt-others i j s.mutexes apart;
        flag = refl;
        state = refl;
      }

  tried-Kept :
      (i : ℕ) (s : Machine R W)
      → IsSync R s.mutexes
      → s.mutexes.ready i ≡ true
      → s.mutexes.counts c i < 255
      → (attempt R c i s.mutexes).0 ≡ false
      → Kept s (tried i s)
  tried-Kept i s v ready few failed = record {
    sync = attempt-IsSync R c i v ready few;
    ready = λ j e. ap (λ f. f j) (attempt-ready R c i v ready few) ∙ e;
    counts = λ j. ap (λ f. f c j) (attempt-failed R c i v ready failed);
    flag = refl;
    state = refl;
    lock = refl;
  }

  index_of-set_up :
      (m : ℤ) (k : ℕ) (x y : Mutexes R)
      → index_of R m x ≡ some k
      → y.ready k ≡ true
      → index_of R m y ≡ some k
  index_of-set_up (pos n) k x y e ready = ground (arith, e, ready)
  index_of-set_up (negsuc n) k x y e ready = cc

  Kept-HasLock :
      (m : ℤ) (k : ℕ) {s t : Machine R W} → HasLock R W H c s m k → Kept s t → HasLock R W H c t m k
  Kept-HasLock m k {s} {t} h r = record {
    sync = r.sync;
    lock = r.lock ∙ h.lock;
    index =
        index_of-set_up m k s.mutexes t.mutexes h.index
          (r.ready k (ready_of_index R m s.mutexes k h.index).0);
    few = omega (arith, r.counts k, h.few);
  }

  poll-returned :
      (b : Bool) (s s' : Machine R W)
      → try_handle_stw_interrupt R W H c 2 s ≡ some (b, s')
      → poll R W H c s ≡ s'
  unfolding poll
  poll-returned b s s' e = ap (λ o. elim o [ none ↦ s | some (b, s'') ↦ s'' ]) e

  -- A poll that does not go wrong, in a round of waiting.
  polled :
      HandlesBalanced R W H c
      → (m : ℤ) (k : ℕ) (s : Machine R W) → HasLock R W H c s m k
      → (handled : Bool) × (try_handle_stw_interrupt R W H c 2 s ≡ some (handled, poll R W H c s))
        × Kept s (poll R W H c s)
  polled g m k s h =
      let (b, s', e, r, due, result) = try_handle_stw_interrupt_lem R W H c g m k s h 0 in
      let done : poll R W H c s ≡ s' = poll-returned b s s' e in
      (b, e ∙ ap (λ t. some (b, t)) (sym done), subst (Kept s) (sym done) (Restored-Kept r))

  lock_polling-acquires :
      HandlesBalanced R W H c
      → (m : ℤ) (k i : ℕ) (sleeps : List (Machine R W → Machine R W)) (s : Machine R W)
      → HasLock R W H c s m k
      → s.mutexes.ready i ≡ true
      → s.mutexes.counts c i < 255
      → Fair sleeps
      → (waited i sleeps s).mutexes.counts (other c) i ≡ 0
      → (s' : Machine R W) × (lock_polling i sleeps s ≡ some s') × Acquired i s s'
  unfolding lock_polling
  lock_polling-acquires g m k i [] s h ready few f free =
      let got = attempt-got R c i h.sync ready free few in
      (tried i s, rw got refl, tried-Acquired i s h.sync ready few got)
  lock_polling-acquires g m k i (sleep ∷ sleeps) s h ready few f free =
      elim (Bool-cases (attempt R c i s.mutexes).0) [
        | inl got ↦ (tried i s, rw got refl, tried-Acquired i s h.sync ready few got)
        | inr failed ↦
            let before = tried-Kept i s h.sync ready few failed in
            let (handled, e, during) = polled g m k (tried i s) (Kept-HasLock m k h before) in
            let s1 = poll R W H c (tried i s) in
            let kept = Kept-trans before (Kept-trans during (f.0 s1 during.sync)) in
            let (s', e', a) =
              lock_polling-acquires g m k i sleeps (sleep s1) (Kept-HasLock m k h kept)
                (kept.ready i ready) (omega (arith, kept.counts i, few)) f.1 free in
            (s', rw (failed, e) e', Kept-Acquired kept a)
      ]

  -- A core with a domain lock waits for a mutex that is set up and that it holds fewer than 255
  -- times. If the handler comes back with every lock and flag as it found it, the other core
  -- changes nothing of this one's while this one sleeps, and after some rounds the other core does
  -- not hold the mutex: `pthread_mutex_lock` has returned 0 by then, this core has one hold of the
  -- mutex more and the other has none, and this core's holds of all other mutexes, its flag and its
  -- `caml_state` are as before, whatever interrupts were handled meanwhile.
  pub lock_and_poll-Acquired :
      HandlesBalanced R W H c
      → (d : ℤ) (k : ℕ) (m : ℤ) (i : ℕ) (sleeps : List (Machine R W → Machine R W))
        (s : Machine R W)
      → HasLock R W H c s d k
      → index_of R m s.mutexes ≡ some i
      → s.mutexes.counts c i < 255
      → Fair sleeps
      → (waited i sleeps s).mutexes.counts (other c) i ≡ 0
      → (s' : Machine R W) × (lock_and_poll m sleeps s ≡ some (Code.success, m, s'))
        × Acquired i s s'
  unfolding lock_and_poll ensure_mutex_init
  lock_and_poll-Acquired g d k m i sleeps s h set_up few f free =
      let ready = (ready_of_index R m s.mutexes i set_up).0 in
      let (s', e, a) = lock_polling-acquires g d k i sleeps s h ready few f free in
      (s', ground (arith, set_up, e), a)
