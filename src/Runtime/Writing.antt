-- ===== src/Runtime/Writing.antt =====
-- `_write` with the polls that it makes: a core that prints takes part in collections, and the
-- text comes out whole.
use pico_ocaml.Prelude.{
  ℕ, zero, suc, ◌+◌, ◌%◌, ◌≤◌, ◌≡◌, refl, sym, ap, subst, ◌∙◌, inl, inr, true, none, some, List, [],
  ◌∷◌, ◌++◌, append-nil, append_assoc, arith, Bool-cases, ◌==◌, if◌then◌else◌, length, take, drop,
  get_elem?-some,
}
use pico_ocaml.Prelude.Int.{ℤ, pos}
use pico_ocaml.Sync.Sdk.{Core, RecursiveMutex}
use pico_ocaml.Sync.Mutex.Inv.{IsSync}
use pico_ocaml.Runtime.Stw.{Machine, Handlers, try_handle_stw_interrupt}
use pico_ocaml.Runtime.Stw.Restores.{
  HandlesBalanced, HasLock, Restored, index_of-ready, try_handle_stw_interrupt_lem,
}
use pico_ocaml.Libc.{Sys, is_output, write_loop, write}
use pico_ocaml.Libc.Console.{take-drop-suc}

module _ (R : RecursiveMutex) (W : Type 0) (H : Handlers R W) (c : Core) where
  -- The poll of `_write`, its result dropped. With a balanced handler no poll goes wrong.
  unfoldable pub poll : Machine R W → Machine R W
  poll s = elim (try_handle_stw_interrupt R W H c 2 s) [ none ↦ s | some (b, s') ↦ s' ]

  Restored-refl : (s : Machine R W) → IsSync R s.mutexes → Restored R W H c s s
  Restored-refl s v = record {
    flags = λ d. refl;
    state = refl;
    lock = refl;
    sync = v;
    ready = refl;
    counts = λ d j. refl;
  }

  Restored-trans :
      (s t u : Machine R W) → Restored R W H c s t → Restored R W H c t u → Restored R W H c s u
  Restored-trans s t u a b = record {
    flags = λ d. b.flags d ∙ a.flags d;
    state = b.state ∙ a.state;
    lock = b.lock ∙ a.lock;
    sync = b.sync;
    ready = b.ready ∙ a.ready;
    counts = λ d j. b.counts d j ∙ a.counts d j;
  }

  -- A core that could poll can poll again.
  Restored-HasLock :
      (m : ℤ) (i : ℕ) (s t : Machine R W)
      → HasLock R W H c s m i
      → Restored R W H c s t
      → HasLock R W H c t m i
  Restored-HasLock m i s t h r = record {
    sync = r.sync;
    lock = r.lock ∙ h.lock;
    index = index_of-ready R W H c m t.mutexes s.mutexes r.ready ∙ h.index;
    few = omega (arith, r.counts c i, h.few);
  }

  poll-Restored :
      HandlesBalanced R W H c
      → (m : ℤ) (i : ℕ) (s : Machine R W) → HasLock R W H c s m i
      → Restored R W H c s (poll s)
  unfolding poll
  poll-Restored g m i s h =
      let (b, s', e, r, d, result) = try_handle_stw_interrupt_lem R W H c g m i s h 0 in
      subst (λ o. Restored R W H c s (elim o [ none ↦ s | some (b, s') ↦ s' ])) (sym e) r

  write_loop-Restored :
      HandlesBalanced R W H c
      → (m : ℤ) (i : ℕ) (buf : List ℕ) (rounds k : ℕ) (s : Sys (Machine R W))
      → k + rounds ≤ length buf
      → HasLock R W H c s.rest m i
      → (s' : Sys (Machine R W)) × (write_loop poll buf rounds k s ≡ some s')
        × (s'.out ≡ s.out ++ take rounds (drop k buf))
        × Restored R W H c s.rest s'.rest
  unfolding write_loop
  write_loop-Restored g m i buf zero k s h l =
      (s, refl, sym (append-nil s.out), Restored-refl s.rest l.sync)
  write_loop-Restored g m i buf (suc rounds) k s h l =
      let (x, at) = get_elem?-some buf k (omega arith) in
      let s1 = record s {
        out = s.out ++ (x ∷ []);
        rest = if k % 32 == 0 then poll s.rest else s.rest;
      } in
      let (s', e, text, r) =
        write_loop-Restored g m i buf rounds (k + 1) s1 (omega arith)
          (Restored-HasLock m i s.rest s1.rest l (polled k s l)) in
      (
        s',
        rw (at, write_loop) e,
        text
            ∙ append_assoc s.out (x ∷ []) (take rounds (drop (k + 1) buf))
            ∙ ap (λ o. s.out ++ o) (sym (take-drop-suc buf k rounds x at)),
        Restored-trans s.rest s1.rest s'.rest (polled k s l) r,
      )
    where
      polled :
          (k : ℕ) (s : Sys (Machine R W))
          → HasLock R W H c s.rest m i
          → Restored R W H c s.rest (if k % 32 == 0 then poll s.rest else s.rest)
      polled k s l = elim (Bool-cases (k % 32 == 0)) [
        | inl turn ↦ rw turn (poll-Restored g m i s.rest l)
        | inr not_turn ↦ rw not_turn (Restored-refl s.rest l.sync)
      ]

  -- A core with a domain lock that writes the first `count` bytes of a buffer of at least as many
  -- to the console, with a handler that comes back with every lock and flag as it found it:
  -- `_write` returns the count, the bytes come out in order behind what was there, and the polls
  -- leave flags, `caml_state` and every mutex as held as before.
  pub write-Restored :
      HandlesBalanced R W H c
      → (m : ℤ) (i : ℕ) (fd : ℤ) (buf : List ℕ) (count : ℕ) (s : Sys (Machine R W))
      → is_output fd ≡ true
      → count ≤ length buf
      → HasLock R W H c s.rest m i
      → (s' : Sys (Machine R W)) × (write poll fd buf (pos count) s ≡ some (pos count, s'))
        × (s'.out ≡ s.out ++ take count buf)
        × Restored R W H c s.rest s'.rest
  unfolding write
  write-Restored g m i fd buf count s output h l =
      let (s', e, text, r) = write_loop-Restored g m i buf count 0 s (omega arith) l in
      (s', ground (arith, output, e), text, r)
