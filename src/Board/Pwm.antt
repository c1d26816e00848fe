-- ===== src/Board/Pwm.antt =====
-- The wrap and the level that `ocaml_pwm_init` and `ocaml_pwm_set_duty` program.
use pico_ocaml.Prelude.{
  ℕ, ◌+◌, ◌*◌, ◌/◌, ◌^◌, ◌≤◌, ◌<◌, ◌≡◌, ◌↔◌, ◌⊎◌, inl, inr, Option, none, some, List, [], ◌∷◌,
  arith, true, dec_lt, ap, subst,
}
use pico_ocaml.Prelude.Value.{val_int, int_val, val_unit}
use pico_ocaml.Board.{
  SdkCall, Does, PwmPins, wrap_for, level_for, ocaml_pwm_init, ocaml_pwm_set_duty,
}
use native.Mathlib.Nat.{div-add-mod, mod-lt, mul-le-mul_left, mul-le-mul_right}

wrap_for-le : (freq : ℕ) → wrap_for freq ≤ 65535
wrap_for-le freq = ground arith

-- The level is the share of the wrap that the duty is of 65535, rounded down.
pub record IsShare (wrap duty level : ℕ) : Type 0 where
  pub below : 65535 * level ≤ wrap * duty
  pub above : wrap * duty < 65535 * (level + 1)

level_for-IsShare :
    (wrap duty : ℕ) → wrap ≤ 65535 → duty ≤ 65535 → IsShare wrap duty (level_for wrap duty)
level_for-IsShare wrap duty hw hd = record {
  below = omega (arith, no_wrap);
  above = omega (arith, no_wrap);
}
  where
    no_wrap : wrap * duty ≤ 65535 * 65535
    no_wrap = omega (arith, mul-le-mul_right duty hw, mul-le-mul_left 65535 hd)

share-le : (wrap duty level : ℕ) → duty ≤ 65535 → IsShare wrap duty level → level ≤ wrap
share-le wrap duty level hd s = omega (arith, s.below, mul-le-mul_left wrap hd)

-- the level that a list of calls sets last
abbrev last_level : List SdkCall → Option ℕ
last_level [] = none
last_level (SdkCall.pwm_set_chan_level slice chan level ∷ cs) = elim (last_level cs) [
  | none ↦ some level
  | some l ↦ some l
]
last_level (_ ∷ cs) = last_level cs

abbrev pub level_of : Option Does → Option ℕ
level_of none = none
level_of (some (v, cs)) = last_level cs

wrap_for-full : (freq : ℕ) → 0 < freq → freq ≤ 1907 → wrap_for freq ≡ 65535
wrap_for-full freq h hf =
    ground (
      arith,
      div-add-mod 125000000 freq,
      mod-lt 125000000 h,
      mul-le-mul_right (125000000 / freq) hf,
    )

wrap_for-part : (freq : ℕ) → 1907 < freq → wrap_for freq < 65535
wrap_for-part freq hf =
    ground (arith, div-add-mod 125000000 freq, mul-le-mul_right (125000000 / freq) (more freq hf))
  where
    more : (x : ℕ) → 1907 < x → 1908 ≤ x
    more x h = omega arith

-- The share of the wrap is the duty itself only for a wrap of 65535, or for no duty.
share-duty : (wrap duty : ℕ) → IsShare wrap duty duty → wrap < 65535 → duty ≡ 0
share-duty wrap duty s h = omega (arith, s.below, mul-le-mul_right duty (below_it wrap h))
  where
    below_it : (x : ℕ) → x < 65535 → x ≤ 65534
    below_it x h = omega arith

module _ (pins : PwmPins) (pin freq duty : ℕ) where
  abbrev pub init_calls : ℕ → List SdkCall
  init_calls level =
      SdkCall.gpio_set_function_pwm pin
      ∷ SdkCall.pwm_set_wrap (pins.slice_of pin) (wrap_for freq)
      ∷ SdkCall.pwm_set_chan_level (pins.slice_of pin) (pins.channel_of pin) level
      ∷ SdkCall.pwm_set_enabled (pins.slice_of pin) true
      ∷ []

  -- For a frequency that is not 0 and a duty of at most 65535, `ocaml_pwm_init` programs the wrap
  -- min(125000000 / freq, 65535) and a level that is the share of the wrap that the duty is of
  -- 65535, rounded down: nothing overflows or is cut off, the level is at most the wrap, and it
  -- is the wrap for the duty 65535.
  pub ocaml_pwm_init_lem :
      pin < 2 ^ 30
      → 0 < freq
      → freq < 2 ^ 30
      → duty ≤ 65535
      → (level : ℕ) × (ocaml_pwm_init pins (val_int pin) (val_int freq) (val_int duty)
          ≡ some (val_unit, init_calls level))
        × IsShare (wrap_for freq) duty level
        × (level ≤ wrap_for freq)
        × (wrap_for freq ≤ 65535)
        × ((duty ≡ 65535) → level ≡ wrap_for freq)
  unfolding ocaml_pwm_init
  ocaml_pwm_init_lem hp hf hf' hd =
      let level = level_for (wrap_for freq) duty in
      let share = level_for-IsShare (wrap_for freq) duty (wrap_for-le freq) hd in
      let le = share-le (wrap_for freq) duty level hd share in
      (
        level,
        ground (
          arith,
          carried pin hp,
          carried freq hf',
          carried duty (omega arith),
          le,
          wrap_for-le freq,
        ),
        share,
        le,
        wrap_for-le freq,
        λ full. omega (arith, ap (λ d. wrap_for freq * d) full, le, share.above),
      )
    where
      carried : (x : ℕ) → x < 2 ^ 30 → int_val (val_int x) ≡ x
      carried x h = ground arith

  -- The duty that `ocaml_pwm_set_duty` writes as the level is the level that `ocaml_pwm_init`
  -- sets for it, for a frequency that is not 0 and a duty of at most 65535, if and only if the
  -- duty is 0 or the frequency is at most 1907 Hz.
  pub ocaml_pwm_set_duty-agrees :
      pin < 2 ^ 30
      → 0 < freq
      → freq < 2 ^ 30
      → duty ≤ 65535
      → (level_of (ocaml_pwm_init pins (val_int pin) (val_int freq) (val_int duty))
          ≡ level_of (some (ocaml_pwm_set_duty pins (val_int pin) (val_int duty))))
        ↔ ((freq ≤ 1907) ⊎ (duty ≡ 0))
  unfolding ocaml_pwm_init ocaml_pwm_set_duty
  ocaml_pwm_set_duty-agrees hp hf hf' hd =
      let (level, e, share, le, _, _) = ocaml_pwm_init_lem hp hf hf' hd in
      (
        (λ same. elim (dec_lt 1907 freq) [
          | yes part ↦ inr (
              share-duty (wrap_for freq) duty
                (subst (IsShare (wrap_for freq) duty) (agree level e same) share)
                (wrap_for-part freq part))
          | no full ↦ inl (omega arith)
        ]),
        λ c. elim c [
          | inl full ↦ rw (ap level_of e) (
              ap some (
                omega (
                  arith,
                  wrap_for-full freq hf full,
                  carried duty,
                  ap (λ x. x * duty) (wrap_for-full freq hf full),
                  share.below,
                  share.above,
                )))
          | inr zero_duty ↦ rw (ap level_of e) (
              ap some (
                omega (
                  arith,
                  zero_duty,
                  carried duty,
                  ap (λ x. wrap_for freq * x) zero_duty,
                  share.below,
                )))
        ],
      )
    where
      carried : (x : ℕ) → x < 2 ^ 30 → int_val (val_int x) ≡ x
      carried x h = ground arith

      agree :
          (level : ℕ)
          → ocaml_pwm_init pins (val_int pin) (val_int freq) (val_int duty)
            ≡ some (val_unit, init_calls level)
          → level_of (ocaml_pwm_init pins (val_int pin) (val_int freq) (val_int duty))
            ≡ level_of (some (ocaml_pwm_set_duty pins (val_int pin) (val_int duty)))
          → level ≡ duty
      agree level e same = ground (arith, e, same, carried duty)
