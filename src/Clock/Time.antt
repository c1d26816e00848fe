-- ===== src/Clock/Time.antt =====
-- The time that the clock takes from NTP and keeps, and the backlight that goes with it.
use pico_ocaml.Prelude.{
  ℕ, ◌+◌, ◌-◌, ◌*◌, ◌/◌, ◌%◌, ◌^◌, ◌≤◌, ◌<◌, ◌≡◌, ap, ◌⊎◌, inl, inr, dec_lt, arith,
}
use pico_ocaml.Board.{ocaml_time_ms}
use pico_ocaml.Clock.{time_of, base_of, gap, day_secs_at, backlight_of_time}

-- For a time of NTP, the seconds since a midnight as four bytes, from the highest: the hours,
-- minutes and seconds are those of an hour later, and `base_secs` is that time modulo a day. No
-- step passes 2 ^ 30.
pub time_of_lem :
    (b0 b1 b2 b3 : ℕ)
    → b0 < 256
    → b1 < 256
    → b2 < 256
    → b3 < 256
    → let ntp = ((b0 * 256 + b1) * 256 + b2) * 256 + b3 in
      let (h, m, s) = time_of b0 b1 b2 b3 in
      (base_of (h, m, s) ≡ (ntp + 3600) % 86400)
      × (h < 24)
      × (m < 60)
      × (s < 60)
      × (b0 * 15616 + b1 * 65536 + b2 * 256 + b3 < 2 ^ 30)
unfolding time_of base_of
time_of_lem b0 b1 b2 b3 h0 h1 h2 h3 =
    (omega arith, omega arith, omega arith, omega arith, omega arith)

-- A reading of `ocaml_time_ms`, as the 31 bits of an `int`.
abbrev reading : (us : ℕ) → ℕ
reading us = ocaml_time_ms us 1 / 2

-- When the clock was set at `us` microseconds and shows the time at `us'`, less than 2 ^ 30
-- milliseconds later, the time shown is the one it was set to and the seconds between the
-- readings, modulo a day, even when the reading has wrapped meanwhile.
pub day_secs_at_lem :
    (bs us us' : ℕ)
    → us ≤ us'
    → us' / 1000 - us / 1000 < 2 ^ 30
    → (gap (reading us') (reading us) < 2 ^ 30)
      × (day_secs_at bs (reading us') (reading us) ≡ (bs + (us' / 1000 - us / 1000) / 1000) % 86400)
unfolding gap day_secs_at ocaml_time_ms
day_secs_at_lem bs us us' later short = (omega arith, ap (λ g. (bs + g / 1000) % 86400) same)
  where
    same : gap (reading us') (reading us) ≡ us' / 1000 - us / 1000
    same = omega arith

-- At every second of the day the backlight is between 7935 and 65535; it differs from that of the
-- next second, which after the last is the first of the next day, by at most 16; it is full from
-- seven to nine in the evening, and least before six and from ten on.
pub backlight_of_time_lem :
    (d : ℕ)
    → d < 86400
    → let b = backlight_of_time d in
      let b' = backlight_of_time ((d + 1) % 86400) in
      (7935 ≤ b)
      × (b ≤ 65535)
      × (b' ≤ b + 16)
      × (b ≤ b' + 16)
      × ((d < 7 * 3600) ⊎ (21 * 3600 ≤ d) ⊎ (b ≡ 65535))
      × (((6 * 3600 ≤ d) × (d < 22 * 3600)) ⊎ (b ≡ 7935))
unfolding backlight_of_time
backlight_of_time_lem d h = (ground arith, ground arith, ground arith, ground arith, day, night)
  where
    day : (d < 7 * 3600) ⊎ (21 * 3600 ≤ d) ⊎ (backlight_of_time d ≡ 65535)
    day = elim (dec_lt d (7 * 3600)) [
      | yes early ↦ inl early
      | no rest ↦ elim (dec_lt d (21 * 3600)) [
        | yes high ↦ inr (inr (ground arith))
        | no late ↦ inr (inl (omega arith))
      ]
    ]

    night : ((6 * 3600 ≤ d) × (d < 22 * 3600)) ⊎ (backlight_of_time d ≡ 7935)
    night = elim (dec_lt d (6 * 3600)) [
      | yes early ↦ inr (ground arith)
      | no rest ↦ elim (dec_lt d (22 * 3600)) [
        | yes awake ↦ inl (omega arith, awake)
        | no late ↦ inr (ground arith)
      ]
    ]
