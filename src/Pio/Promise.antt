-- ===== src/Pio/Promise.antt =====
-- pio.ml, promises: `resolve`, `fail` and `add_waiter`, over the run queue. A promise is for a
-- value of `A`, an exception is one of `E`, and a waker one of `T`.
use mathlib.Core.List.Perm
use mathlib.Core.List.{Perm, perm_middle}
use pico_ocaml.Prelude.{
  ◌≡◌, ◌≢◌, refl, sym, ap, subst, ◌∙◌, ◌⊎◌, inl, inr, Option, none, some, List, [], ◌∷◌, ◌++◌,
  append-nil, append_assoc,
}

pub data Settled (A E : Type 0) : Type 0 where
  value : A → Settled A E
  failure : E → Settled A E

pub data Promise (A E T : Type 0) : Type 0 where
  pending : List T → Promise A E T
  settled : Settled A E → Promise A E T

pub data Use (A E T : Type 0) : Type 0 where
  add : T → Use A E T
  settle_as : Settled A E → Use A E T

module _ {A E T : Type 0} where
  -- `resolve` and `fail`, with the run queue
  pub settle : Settled A E → Promise A E T → List T → Promise A E T × List T
  settle v (pending waiters) q = (settled v, q ++ waiters)
  settle v (settled u) q = (settled u, q)

  pub add_waiter : T → Promise A E T → List T → Promise A E T × List T
  add_waiter t (pending waiters) q = (pending (t ∷ waiters), q)
  add_waiter t (settled u) q = (settled u, q ++ t ∷ [])

  -- What is done with one promise, in order.
  pub run : List (Use A E T) → Promise A E T → List T → Promise A E T × List T
  unfolding settle add_waiter
  run [] p q = (p, q)
  run (add t ∷ uses) p q = let (p', q') = add_waiter t p q in run uses p' q'
  run (settle_as v ∷ uses) p q = let (p', q') = settle v p q in run uses p' q'

  pub added : List (Use A E T) → List T
  added [] = []
  added (add t ∷ uses) = t ∷ added uses
  added (settle_as v ∷ uses) = added uses

  -- The first value or exception that a promise is given.
  pub first_settled : List (Use A E T) → Option (Settled A E)
  first_settled [] = none
  first_settled (add t ∷ uses) = first_settled uses
  first_settled (settle_as v ∷ uses) = some v

  abbrev pub waiters_of : Promise A E T → List T
  waiters_of (pending waiters) = waiters
  waiters_of (settled u) = []

  abbrev pub outcome : Promise A E T → Option (Settled A E)
  outcome (pending waiters) = none
  outcome (settled u) = some u

  run-settled :
      (uses : List (Use A E T)) (u : Settled A E) (q : List T)
      → run uses (settled u) q ≡ (settled u, q ++ added uses)
  unfolding run added
  run-settled [] u q = ap (λ r. (settled u, r)) (sym (append-nil q))
  run-settled (add t ∷ uses) u q =
      run-settled uses u (q ++ t ∷ [])
      ∙ ap (λ r. (settled u, r)) (append_assoc q (t ∷ []) (added uses))
  run-settled (settle_as v ∷ uses) u q = run-settled uses u q

  run_from :
      (uses : List (Use A E T)) (ws q : List T)
      → let (p, q') = run uses (pending ws) q in
        (outcome p ≡ first_settled uses)
        × Perm (q' ++ waiters_of p) ((q ++ ws) ++ added uses)
        × (((outcome p ≡ none) × (q' ≡ q)) ⊎ ((outcome p ≢ none) × (waiters_of p ≡ [])))
  unfolding run added first_settled
  run_from [] ws q = (
    refl,
    subst (λ r. Perm (q ++ ws) r) (sym (append-nil (q ++ ws))) (Perm.refl (q ++ ws)),
    inl (refl, refl),
  )
  run_from (add t ∷ uses) ws q =
      let (o, m, l) = run_from uses (t ∷ ws) q in
      (
        o,
        Perm.trans m (
            Perm.trans (Perm.append_right (added uses) (perm_middle q ws))
              (Perm.symm (perm_middle (q ++ ws) (added uses)))),
        l,
      )
  run_from (settle_as v ∷ uses) ws q =
      let e = run-settled uses v (q ++ ws) in
      (
        ap (λ r. outcome r.0) e,
        subst (λ r. Perm (r.1 ++ waiters_of r.0) ((q ++ ws) ++ added uses)) (sym e)
            (subst (λ r. Perm r ((q ++ ws) ++ added uses))
              (sym (append-nil ((q ++ ws) ++ added uses))) (Perm.refl ((q ++ ws) ++ added uses))),
        inr ((λ none_left. cc (none_left, ap (λ r. outcome r.0) e)), ap (λ r. waiters_of r.0) e),
      )

  -- Whatever is done with a promise that has no waiter yet, in any order: it ends with the first
  -- value or exception that it was given, or with none; every waker is, once for each time it was
  -- added, on the run queue behind what was there or still with the promise; and as long as the
  -- promise has no value, none is on the queue.
  pub run-once :
      (uses : List (Use A E T)) (q : List T)
      → let (p, q') = run uses (pending []) q in
        (outcome p ≡ first_settled uses)
        × Perm (q' ++ waiters_of p) (q ++ added uses)
        × (((outcome p ≡ none) × (q' ≡ q)) ⊎ ((outcome p ≢ none) × (waiters_of p ≡ [])))
  run-once uses q =
      let (o, m, l) = run_from uses [] q in
      let (p, q') = run uses (pending []) q in
      (o, subst (λ r. Perm (q' ++ waiters_of p) (r ++ added uses)) (append-nil q) m, l)
