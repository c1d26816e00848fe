-- ===== src/Sync/Mutex/Preserved.antt =====
-- Each step keeps the invariant.
use pico_ocaml.Prelude.{
  ℕ, ◌+◌, ◌-◌, ◌<◌, ◌≡◌, refl, ap, subst, ◌∙◌, true, false, arith, dec_lt, ◌==◌, if◌then◌else◌,
}
use pico_ocaml.Sync.Sdk.{Core, other, RecursiveMutex}
use pico_ocaml.Sync.Mutex.{max_mutexes, update, update_at}
use pico_ocaml.Sync.Mutex.Steps.{
  Place, setting_up, System, move, load_count, store_count, clear_at, ready_at, enter_at, note_at,
  exit_at, strike_at, at_start,
}
use pico_ocaml.Sync.Mutex.Places.{
  entering, leaving, Fits, Fits-more, Fits-none, both_cores, ltb-true,
}
use pico_ocaml.Sync.Mutex.Invariant.{
  IsSystem, on_move, alone-move, not_cleared, index_of_cleared, sets_up, works,
}

module _ (R : RecursiveMutex) where
  open R use {
    Mutex, init, try_enter, exit, depth, init_free, enter_got, enter_deeper, enter_busy,
    enter_busy_same, enter_other, exit_own, exit_other,
  }

  pub start-IsSystem : IsSystem R (at_start R)
  start-IsSystem = record {
    size = 0;
    filled = λ i. ground arith;
    tracked = λ c i r. absurd (ground (arith, r));
    idle = λ c i r. refl;
    noted = λ c i. refl;
    exclusive = λ c i r h. absurd (ground (arith, r));
    place = λ c. tt;
    alone = λ c q. absurd (ground (arith, q));
    settled = λ free. refl;
    fresh = λ c i q d. absurd (not_cleared R Place.outside i refl q);
  }

  module _ (c : Core) {s : System R} (v : IsSystem R s) where
    -- Where the core stands, by what it is about to do.
    here : {p : Place} → s.at c ≡ p → Fits v.size s.table.count p
    here {p} a = subst (Fits v.size s.table.count) a (v.place c)

    apart : {p : Place} → s.at c ≡ p → setting_up p ≡ true → setting_up (s.at (other c)) ≡ false
    apart {p} a q = v.alone c (ap setting_up a ∙ q)

    before :
        {p : Place}
        → s.at c ≡ p
        → ((j : ℕ) → (entering p j ≡ 0) × (leaving p j ≡ 0))
        → (j : ℕ) → (entering (s.at c) j ≡ 0) × (leaving (s.at c) j ≡ 0)
    before {p} a none j =
        (ap (λ q. entering q j) a ∙ (none j).0, ap (λ q. leaving q j) a ∙ (none j).1)

    pub tests-IsSystem :
        s.at c ≡ Place.outside
        → setting_up (s.at (other c)) ≡ false
        → s.table.count < max_mutexes
        → IsSystem R (move R c Place.tested s)
    tests-IsSystem a free few =
        let same : s.table.count ≡ v.size =
          v.settled (both_cores (λ d. setting_up (s.at d) ≡ false) c (ap setting_up a) free) in
        sets_up R c Place.tested v s.table.count s.table.mtx (before a λ j. (refl, refl)) refl free
          (λ j r. refl) (same, omega (arith, same, few)) (λ i q. absurd (cc (q)))

    pub loads-IsSystem : s.at c ≡ Place.tested → IsSystem R (load_count R c s)
    loads-IsSystem a =
        let f = here a in
        sets_up R c (Place.loaded s.table.count) v s.table.count s.table.mtx
          (before a λ j. (refl, refl)) refl (apart a refl) (λ j r. refl) (f.0, f.0, f.1)
          (λ i q. absurd (cc (q)))

    pub stores-IsSystem : (i : ℕ) → s.at c ≡ Place.loaded i → IsSystem R (store_count R c i s)
    stores-IsSystem i a =
        let f = here a in
        sets_up R c (Place.counted i) v (i + 1) s.table.mtx (before a λ j. (refl, refl)) refl
          (apart a refl) (λ j r. refl) (f.0, ap (λ k. k + 1) f.0, f.2) (λ i q. absurd (cc (q)))

    pub clears-IsSystem : (i : ℕ) → s.at c ≡ Place.counted i → IsSystem R (clear_at R c i s)
    clears-IsSystem i a =
        let f = here a in
        sets_up R c (Place.cleared i) v s.table.count (update s.table.mtx i init)
          (before a λ j. (refl, refl)) refl (apart a refl) (λ j r. ground (arith, v.filled j, f, r))
          f (λ k q d. ground (arith, index_of_cleared R i k q, init_free d))

    pub readies-IsSystem : (i : ℕ) → s.at c ≡ Place.cleared i → IsSystem R (ready_at R c i s)
    readies-IsSystem i a =
        let f = here a in
        let none = before a (λ j. (refl, refl)) in
        let free = apart a refl in
        let s1 = record s { table = record s.table { ready = update s.table.ready i true } } in
        record {
          size = v.size + 1;
          filled = λ j. ground (arith, v.filled j, f);
          tracked =
              on_move R
                (λ d pl.
                  (j : ℕ)
                  → update s.table.ready i true j ≡ true
                  → s.table.counts d j + entering pl j ≡ depth d (s.table.mtx j) + leaving pl j)
                c Place.outside s1
                (λ j r. ground (arith, v.tracked c j, v.idle c j, none j, v.fresh c i a c, r))
                (λ j r. ground (
                  arith,
                  v.tracked (other c) j,
                  v.idle (other c) j,
                  Fits-none v.size s.table.count (s.at (other c)) j (v.place (other c)),
                  v.filled j,
                  v.fresh c i a (other c),
                  r,
                ));
          idle = λ d j r. ground (arith, v.idle d j, r);
          noted = v.noted;
          exclusive = λ d j r h. ground (arith, v.exclusive d j, v.fresh c i a d, h, r);
          place =
              on_move R (λ d pl. Fits (v.size + 1) s.table.count pl) c Place.outside s1 tt
                (Fits-more v.size s.table.count (v.size + 1) s.table.count (s.at (other c)) free
                  (omega arith) (v.place (other c)));
          alone = alone-move R c Place.outside s1 (λ q. free);
          settled = λ q. f.1;
          fresh =
              on_move R
                (λ d pl. (k : ℕ) → pl ≡ Place.cleared k → (e : Core) → depth e (s.table.mtx k) ≡ 0)
                c Place.outside s1 (λ k q e. absurd (cc (q)))
                (λ k q e. absurd (not_cleared R (s.at (other c)) k free q));
        }

    -- What a try does to the depths.
    enter_depth :
        (i : ℕ)
        → s.at c ≡ Place.outside
        → s.table.ready i ≡ true
        → s.table.counts c i < 255
        → depth c (try_enter c (s.table.mtx i)).1
          ≡ depth c (s.table.mtx i) + (if (try_enter c (s.table.mtx i)).0 then 1 else 0)
    enter_depth i a ready few =
        let none = before a (λ j. (refl, refl)) i in
        elim (dec_lt 0 (depth (other c) (s.table.mtx i))) [
          | yes busy ↦
              ground
                (arith, enter_busy c (s.table.mtx i) busy, enter_busy_same c c (s.table.mtx i) busy)
          | no free ↦
              let shallow : depth c (s.table.mtx i) < 255 =
                omega (arith, v.tracked c i ready, none, few) in
              ground (
                arith,
                enter_got c (s.table.mtx i) (omega arith) shallow,
                enter_deeper c (s.table.mtx i) (omega arith) shallow,
              )
        ]

    enter_exclusive :
        (i : ℕ)
        → s.table.ready i ≡ true
        → (d : Core) → 0 < depth d (try_enter c (s.table.mtx i)).1
        → depth (other d) (try_enter c (s.table.mtx i)).1 ≡ 0
    enter_exclusive i ready d h = elim (dec_lt 0 (depth (other c) (s.table.mtx i))) [
      | yes busy ↦
          let same = λ (e : Core). enter_busy_same c e (s.table.mtx i) busy in
          same (other d) ∙ v.exclusive d i ready (ground (arith, same d, h))
      | no free ↦
          both_cores
            (λ d.
              0 < depth d (try_enter c (s.table.mtx i)).1
              → depth (other d) (try_enter c (s.table.mtx i)).1 ≡ 0)
            c (λ h. ground (arith, enter_other c (s.table.mtx i), free))
            (λ h. absurd (omega (arith, enter_other c (s.table.mtx i), free, h))) d h
    ]

    pub enters-IsSystem :
        (i : ℕ)
        → s.at c ≡ Place.outside
        → s.table.ready i ≡ true
        → s.table.counts c i < 255
        → IsSystem R (enter_at R c i s)
    enters-IsSystem i a ready few =
        let (got, m) = try_enter c (s.table.mtx i) in
        let none = before a (λ j. (refl, refl)) in
        works R c (if got then Place.entered i else Place.outside) v (update s.table.mtx i m)
          s.table.counts s.table.held (ap setting_up a) (ground arith)
          (ground (arith, v.filled i, ready)) (λ j r. (ground (arith, ready, r), λ d. refl))
          (λ j r. (
            ground (arith, v.tracked c j r, none j, enter_depth i a ready few),
            refl,
            ground (arith, enter_other c (s.table.mtx i)),
          ))
          v.noted (λ d j r h. ground (arith, v.exclusive d j r, enter_exclusive i ready d, h))

    pub notes-IsSystem : (i : ℕ) → s.at c ≡ Place.entered i → IsSystem R (note_at R c i s)
    notes-IsSystem i a =
        let f = here a in
        works R c Place.outside v s.table.mtx
          (update_at s.table.counts c i (s.table.counts c i + 1)) (update_at s.table.held c i true)
          (ap setting_up a) refl tt (λ j r. (refl, λ d. ground (arith, v.filled j, f, r)))
          (λ j r. (
            ground (arith, v.tracked c j r, ap (λ q. entering q j) a, ap (λ q. leaving q j) a),
            ground arith,
            refl,
          ))
          (λ d j. ground (arith, v.noted d j)) v.exclusive

    pub exits-IsSystem :
        (i : ℕ)
        → s.at c ≡ Place.outside
        → s.table.ready i ≡ true
        → 0 < s.table.counts c i
        → IsSystem R (exit_at R c i s)
    exits-IsSystem i a ready mine =
        let none = before a (λ j. (refl, refl)) in
        let m = s.table.mtx i in
        let inside : 0 < depth c m = omega (arith, v.tracked c i ready, none i, mine) in
        let stays = exit_other c m inside in
        let free = v.exclusive c i ready inside in
        works R c (Place.exited i) v (update s.table.mtx i (exit m)) s.table.counts s.table.held
          (ap setting_up a) refl (ground (arith, v.filled i, ready))
          (λ j r. (ground (arith, ready, r), λ d. refl))
          (λ j r. (
            ground (arith, v.tracked c j r, none j, exit_own c m inside, inside),
            refl,
            ground (arith, stays),
          ))
          v.noted
          (λ d j r.
            both_cores
              (λ d.
                0 < depth d (update s.table.mtx i (exit m) j)
                → depth (other d) (update s.table.mtx i (exit m) j) ≡ 0)
              c (λ h. ground (arith, v.exclusive c j r, stays, free, h))
              (λ h. ground (arith, v.exclusive (other c) j r, stays, free, h)) d)

    pub strikes-IsSystem : (i : ℕ) → s.at c ≡ Place.exited i → IsSystem R (strike_at R c i s)
    strikes-IsSystem i a =
        let f = here a in
        let ready : s.table.ready i ≡ true = ground (arith, v.filled i, f) in
        let some_held : 0 < s.table.counts c i =
          ground (arith, v.tracked c i ready, ap (λ q. entering q i) a, ap (λ q. leaving q i) a) in
        rw (ltb-true some_held) (
          works R c Place.outside v s.table.mtx
            (update_at s.table.counts c i (s.table.counts c i - 1))
            (if s.table.counts c i == 1 then update_at s.table.held c i false else s.table.held)
            (ap setting_up a) refl tt (λ j r. (refl, λ d. ground (arith, ready, r)))
            (λ j r. (
              ground (arith, v.tracked c j r, ap (λ q. entering q j) a, ap (λ q. leaving q j) a),
              ground arith,
              refl,
            ))
            (λ d j. ground (arith, v.noted d j)) v.exclusive)
