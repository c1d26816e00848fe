-- ===== src/Sync/Mutex/Invariant.antt =====
-- What the steps of both cores keep true, and the two shapes that their steps have.
use pico_ocaml.Prelude.{ℕ, ◌+◌, ◌<◌, ◌≡◌, refl, sym, ap, subst, ◌∙◌, Bool, true, false, arith, ltb}
use pico_ocaml.Sync.Sdk.{Core, other, RecursiveMutex}
use pico_ocaml.Sync.Mutex.Steps.{Place, setting_up, System, move}
use pico_ocaml.Sync.Mutex.Places.{entering, leaving, Fits, Fits-more, none_entering, both_cores}

module _ (R : RecursiveMutex) where
  open R use {
    Mutex, init, try_enter, exit, depth, init_free, enter_got, enter_deeper, enter_busy,
    enter_busy_same, enter_other, exit_own, exit_other,
  }

  -- What holds of the core that moves and of the other holds of both.
  pub on_move :
      (Q : Core → Place → Type 0) (c : Core) (p : Place) (s : System R)
      → Q c p
      → Q (other c) (s.at (other c))
      → (d : Core) → Q d ((move R c p s).at d)
  on_move Q Core.core0 p s q q' Core.core0 = q
  on_move Q Core.core0 p s q q' Core.core1 = q'
  on_move Q Core.core1 p s q q' Core.core0 = q'
  on_move Q Core.core1 p s q q' Core.core1 = q

  pub record IsSystem (s : System R) : Type 0 where
    pub size : ℕ
    pub filled : (i : ℕ) → s.table.ready i ≡ ltb i size
    pub tracked :
        (c : Core) (i : ℕ)
        → s.table.ready i ≡ true
        → s.table.counts c i + entering (s.at c) i ≡ depth c (s.table.mtx i) + leaving (s.at c) i
    pub idle : (c : Core) (i : ℕ) → s.table.ready i ≡ false → s.table.counts c i ≡ 0
    pub noted : (c : Core) (i : ℕ) → s.table.held c i ≡ ltb 0 (s.table.counts c i)
    pub exclusive :
        (c : Core) (i : ℕ)
        → s.table.ready i ≡ true
        → 0 < depth c (s.table.mtx i)
        → depth (other c) (s.table.mtx i) ≡ 0
    pub place : (c : Core) → Fits size s.table.count (s.at c)
    pub alone : (c : Core) → setting_up (s.at c) ≡ true → setting_up (s.at (other c)) ≡ false
    pub settled : ((c : Core) → setting_up (s.at c) ≡ false) → s.table.count ≡ size
    pub fresh :
        (c : Core) (i : ℕ) → s.at c ≡ Place.cleared i → (d : Core) → depth d (s.table.mtx i) ≡ 0

  pub alone-move :
      (c : Core) (p : Place) (s : System R)
      → (setting_up p ≡ true → setting_up (s.at (other c)) ≡ false)
      → (d : Core) → setting_up ((move R c p s).at d) ≡ true
      → setting_up ((move R c p s).at (other d)) ≡ false
  alone-move Core.core0 p s h Core.core0 q = h q
  alone-move Core.core0 p s h Core.core1 q = ground (arith, h, q)
  alone-move Core.core1 p s h Core.core0 q = ground (arith, h, q)
  alone-move Core.core1 p s h Core.core1 q = h q

  at_move : (c : Core) (p : Place) (s : System R) → (move R c p s).at c ≡ p
  at_move Core.core0 p s = refl
  at_move Core.core1 p s = refl

  at_move-other :
      (c : Core) (p : Place) (s : System R) → (move R c p s).at (other c) ≡ s.at (other c)
  at_move-other Core.core0 p s = refl
  at_move-other Core.core1 p s = refl

  pub index_of_cleared : (i k : ℕ) → Place.cleared i ≡ Place.cleared k → i ≡ k
  index_of_cleared i k q = cc (q)

  pub not_cleared : (p : Place) (i : ℕ) → setting_up p ≡ false → p ≡ Place.cleared i → ⊥
  not_cleared p i q e = ground (arith, q, sym (ap setting_up e))

  module _ (c : Core) (p : Place) {s : System R} (v : IsSystem s) where
    -- A step of a set-up, up to the magic.
    pub sets_up :
        (k : ℕ) (m : ℕ → Mutex)
        → ((j : ℕ) → (entering (s.at c) j ≡ 0) × (leaving (s.at c) j ≡ 0))
        → setting_up p ≡ true
        → setting_up (s.at (other c)) ≡ false
        → ((j : ℕ) → s.table.ready j ≡ true → m j ≡ s.table.mtx j)
        → Fits v.size k p
        → ((i : ℕ) → p ≡ Place.cleared i → (d : Core) → depth d (m i) ≡ 0)
        → IsSystem (move R c p (record s { table = record s.table { count = k; mtx = m } }))
    sets_up k m before setting apart same fits clear =
        let s1 = record s { table = record s.table { count = k; mtx = m } } in
        record {
          size = v.size;
          filled = v.filled;
          tracked =
              on_move
                (λ d pl.
                  (j : ℕ)
                  → s.table.ready j ≡ true
                  → s.table.counts d j + entering pl j ≡ depth d (m j) + leaving pl j)
                c p s1
                (λ j r.
                  ground (arith, v.tracked c j r, before j, none_entering p setting j, same j r))
                (λ j r. ground (arith, v.tracked (other c) j r, same j r));
          idle = v.idle;
          noted = v.noted;
          exclusive = λ d j r h. ground (arith, v.exclusive d j r, same j r, h);
          place =
              on_move (λ d pl. Fits v.size k pl) c p s1 fits
                (Fits-more v.size s.table.count v.size k (s.at (other c)) apart (omega arith)
                  (v.place (other c)));
          alone = alone-move c p s1 (λ q. apart);
          settled = λ free. absurd (ground (arith, free c, at_move c p s1, setting));
          fresh =
              on_move (λ d pl. (i : ℕ) → pl ≡ Place.cleared i → (e : Core) → depth e (m i) ≡ 0) c p
                s1 clear (λ i q e. absurd (not_cleared (s.at (other c)) i apart q));
        }

    -- A step of a lock, a try or an unlock of a mutex that is set up.
    pub works :
        (m : ℕ → Mutex) (counts : Core → ℕ → ℕ) (held : Core → ℕ → Bool)
        → setting_up (s.at c) ≡ false
        → setting_up p ≡ false
        → Fits v.size s.table.count p
        → ((j : ℕ)
            → s.table.ready j ≡ false
            → (m j ≡ s.table.mtx j) × ((d : Core) → counts d j ≡ s.table.counts d j))
        → ((j : ℕ)
            → s.table.ready j ≡ true
            → (counts c j + entering p j ≡ depth c (m j) + leaving p j)
              × (counts (other c) j ≡ s.table.counts (other c) j)
              × (depth (other c) (m j) ≡ depth (other c) (s.table.mtx j)))
        → ((d : Core) (j : ℕ) → held d j ≡ ltb 0 (counts d j))
        → ((d : Core) (j : ℕ)
            → s.table.ready j ≡ true
            → 0 < depth d (m j)
            → depth (other d) (m j) ≡ 0)
        → IsSystem (
            move R c p
              (record s { table = record s.table { mtx = m; counts = counts; held = held } }))
    works m counts held before after fits unready track noted excl =
        let s1 = record s { table = record s.table { mtx = m; counts = counts; held = held } } in
        record {
          size = v.size;
          filled = v.filled;
          tracked =
              on_move
                (λ d pl.
                  (j : ℕ)
                  → s.table.ready j ≡ true
                  → counts d j + entering pl j ≡ depth d (m j) + leaving pl j)
                c p s1 (λ j r. (track j r).0)
                (λ j r. ground (arith, v.tracked (other c) j r, track j r));
          idle = λ d j r. (unready j r).1 d ∙ v.idle d j r;
          noted = noted;
          exclusive = excl;
          place = on_move (λ d pl. Fits v.size s.table.count pl) c p s1 fits (v.place (other c));
          alone = alone-move c p s1 (λ q. absurd (ground (arith, q, after)));
          settled = λ free. v.settled (
              both_cores (λ d. setting_up (s.at d) ≡ false) c before
                (sym (ap setting_up (at_move-other c p s1)) ∙ free (other c)));
          fresh =
              on_move (λ d pl. (i : ℕ) → pl ≡ Place.cleared i → (e : Core) → depth e (m i) ≡ 0) c p
                s1 (λ i q e. absurd (not_cleared p i after q))
                (λ i q e.
                  let r : s.table.ready i ≡ false =
                    v.filled i
                    ∙ ground (arith, subst (Fits v.size s.table.count) q (v.place (other c))) in
                  ap (depth e) (unready i r).0 ∙ v.fresh (other c) i q e);
        }
