-- ===== src/Sync/Mutex/Places.antt =====
-- Where a core can stand in the functions of a mutex, and what that says of the holds it has noted.
use pico_ocaml.Prelude.{
  ℕ, ◌+◌, ◌≤◌, ◌<◌, ◌≡◌, refl, ap, ◌≢◌, ℕ_discrete, true, false, ◌⊎◌, inl, inr, arith, ltb, ◌==◌,
  if◌then◌else◌,
}
use pico_ocaml.Sync.Sdk.{Core, other}
use pico_ocaml.Sync.Mutex.{max_mutexes}
use pico_ocaml.Sync.Mutex.Steps.{Place, setting_up}

-- The holds of a mutex that the core has entered and not noted, and those that it has left and
-- not struck off.
abbrev pub entering : Place → ℕ → ℕ
entering (Place.entered i) j = if i == j then 1 else 0
entering _ j = 0

abbrev pub leaving : Place → ℕ → ℕ
leaving (Place.exited i) j = if i == j then 1 else 0
leaving _ j = 0

-- Where a core can stand when `n` slots are set up and the count is `k`.
abbrev pub Fits : (n k : ℕ) → Place → Type 0
Fits n k Place.outside = Unit {0}
Fits n k Place.tested = (k ≡ n) × (n < max_mutexes)
Fits n k (Place.loaded i) = (i ≡ n) × (k ≡ n) × (n < max_mutexes)
Fits n k (Place.counted i) = (i ≡ n) × (k ≡ n + 1) × (n < max_mutexes)
Fits n k (Place.cleared i) = (i ≡ n) × (k ≡ n + 1) × (n < max_mutexes)
Fits n k (Place.entered i) = i < n
Fits n k (Place.exited i) = i < n

-- A core that is not at a set-up stands as well when more slots are set up.
pub Fits-more :
    (n k n' k' : ℕ) (p : Place) → setting_up p ≡ false → n ≤ n' → Fits n k p → Fits n' k' p
Fits-more n k n' k' Place.outside q h f = tt
Fits-more n k n' k' Place.tested q h f = absurd (ground (arith, q))
Fits-more n k n' k' (Place.loaded i) q h f = absurd (ground (arith, q))
Fits-more n k n' k' (Place.counted i) q h f = absurd (ground (arith, q))
Fits-more n k n' k' (Place.cleared i) q h f = absurd (ground (arith, q))
Fits-more n k n' k' (Place.entered i) q h f = omega (arith, h, f)
Fits-more n k n' k' (Place.exited i) q h f = omega (arith, h, f)

pub none_entering :
    (p : Place) → setting_up p ≡ true → (j : ℕ) → (entering p j ≡ 0) × (leaving p j ≡ 0)
none_entering Place.outside q j = (refl, refl)
none_entering Place.tested q j = (refl, refl)
none_entering (Place.loaded i) q j = (refl, refl)
none_entering (Place.counted i) q j = (refl, refl)
none_entering (Place.cleared i) q j = (refl, refl)
none_entering (Place.entered i) q j = absurd (ground (arith, q))
none_entering (Place.exited i) q j = absurd (ground (arith, q))

-- A core works on slots that are set up.
pub Fits-none :
    (n k : ℕ) (p : Place) (j : ℕ)
    → Fits n k p
    → ltb j n ≡ false
    → (entering p j ≡ 0) × (leaving p j ≡ 0)
Fits-none n k Place.outside j f h = (refl, refl)
Fits-none n k Place.tested j f h = (refl, refl)
Fits-none n k (Place.loaded i) j f h = (refl, refl)
Fits-none n k (Place.counted i) j f h = (refl, refl)
Fits-none n k (Place.cleared i) j f h = (refl, refl)
Fits-none n k (Place.entered i) j f h = (ground (arith, f, h), refl)
Fits-none n k (Place.exited i) j f h = (refl, ground (arith, f, h))

pub leaving-cases : (p : Place) (i : ℕ) → (p ≡ Place.exited i) ⊎ (leaving p i ≡ 0)
leaving-cases (Place.exited k) i = elim (ℕ_discrete k i) [
  | yes e ↦ inl (ap Place.exited e)
  | no n ↦ inr (ground (arith, n))
]
leaving-cases Place.outside i = inr refl
leaving-cases Place.tested i = inr refl
leaving-cases (Place.loaded k) i = inr refl
leaving-cases (Place.counted k) i = inr refl
leaving-cases (Place.cleared k) i = inr refl
leaving-cases (Place.entered k) i = inr refl

pub not_leaving : (p : Place) (i : ℕ) → p ≢ Place.exited i → leaving p i ≡ 0
not_leaving p i n = elim (leaving-cases p i) [ inl e ↦ absurd (n e) | inr none ↦ none ]

-- With nothing to strike off a core that has just entered is inside.
pub not_entered :
    (p : Place) (i k d : ℕ) → k + entering p i ≡ d + leaving p i → d ≡ 0 → p ≢ Place.entered i
not_entered p i k d h free e =
    absurd (ground (arith, h, free, ap (λ q. entering q i) e, ap (λ q. leaving q i) e))

pub ltb-true : {k n : ℕ} → k < n → ltb k n ≡ true
ltb-true {k} {n} h = ground (arith, h)

pub both_cores : (Q : Core → Type 0) (c : Core) → Q c → Q (other c) → (d : Core) → Q d
both_cores Q Core.core0 q q' Core.core0 = q
both_cores Q Core.core0 q q' Core.core1 = q'
both_cores Q Core.core1 q q' Core.core0 = q'
both_cores Q Core.core1 q q' Core.core1 = q
