-- ===== src/Lcd/Bus.antt =====
-- What an HD44780 sees of the calls: it takes the four data pins, and `rs`, when `en` falls.
use pico_ocaml.Prelude.{
  ℕ, ◌+◌, ◌^◌, ◌<◌, ◌≡◌, ◌≢◌, refl, ap, ◌∙◌, Bool, true, false, not, ◌&&◌, List, [], ◌∷◌, ◌++◌,
  ◌==◌, if◌then◌else◌, arith,
}
use pico_ocaml.Board.{SdkCall}
use pico_ocaml.Lcd.{Lcd, Calls, gpio_put, sleep_us, sleep_ms}

-- The levels of the pins, and the nibbles taken so far, each with the level of `rs`.
pub record Bus : Type 0 where
  pub rs : Bool
  pub en : Bool
  pub d4 : Bool
  pub d5 : Bool
  pub d6 : Bool
  pub d7 : Bool
  pub seen : List (Bool × ℕ)

abbrev weight : Bool → ℕ → ℕ
weight b n = if b then n else 0

abbrev pub nibble : Bus → ℕ
nibble b = weight b.d7 8 + weight b.d6 4 + weight b.d5 2 + weight b.d4 1

-- A change of `en`.
abbrev pub enable : Bool → Bus → Bus
enable on b = record b {
  en = on;
  seen = if b.en && not on then b.seen ++ (b.rs, nibble b) ∷ [] else b.seen;
}

abbrev level : Lcd → ℕ → Bool → Bus → Bus
level t pin on b = if pin == t.en then enable on b else record b {
  rs = if pin == t.rs then on else b.rs;
  d4 = if pin == t.d4 then on else b.d4;
  d5 = if pin == t.d5 then on else b.d5;
  d6 = if pin == t.d6 then on else b.d6;
  d7 = if pin == t.d7 then on else b.d7;
}

step : Lcd → SdkCall → Bus → Bus
step t (SdkCall.gpio_put pin on) b = level t pin on b
step t _ b = b

pub watch : Lcd → Calls → Bus → Bus
unfolding step
watch t [] b = b
watch t (c ∷ cs) b = watch t cs (step t c b)

pub watch-nil : (t : Lcd) (b : Bus) → watch t [] b ≡ b
unfolding watch
watch-nil t b = refl

pub watch-append :
    (t : Lcd) (cs ds : Calls) (b : Bus) → watch t (cs ++ ds) b ≡ watch t ds (watch t cs b)
unfolding watch
watch-append t [] ds b = refl
watch-append t (c ∷ cs) ds b = watch-append t cs ds (step t c b)

-- The six pins are different ones, and exist.
pub record IsWired (t : Lcd) : Type 0 where
  pub rs_small : t.rs < 2 ^ 30
  pub en_small : t.en < 2 ^ 30
  pub d4_small : t.d4 < 2 ^ 30
  pub d5_small : t.d5 < 2 ^ 30
  pub d6_small : t.d6 < 2 ^ 30
  pub d7_small : t.d7 < 2 ^ 30
  pub rs_en : t.rs ≢ t.en
  pub rs_d4 : t.rs ≢ t.d4
  pub rs_d5 : t.rs ≢ t.d5
  pub rs_d6 : t.rs ≢ t.d6
  pub rs_d7 : t.rs ≢ t.d7
  pub en_d4 : t.en ≢ t.d4
  pub en_d5 : t.en ≢ t.d5
  pub en_d6 : t.en ≢ t.d6
  pub en_d7 : t.en ≢ t.d7
  pub d4_d5 : t.d4 ≢ t.d5
  pub d4_d6 : t.d4 ≢ t.d6
  pub d4_d7 : t.d4 ≢ t.d7
  pub d5_d6 : t.d5 ≢ t.d6
  pub d5_d7 : t.d5 ≢ t.d7
  pub d6_d7 : t.d6 ≢ t.d7

gpio_put_lem : (pin : ℕ) (on : Bool) → pin < 2 ^ 30 → gpio_put pin on ≡ SdkCall.gpio_put pin on ∷ []
unfolding gpio_put
gpio_put_lem pin true h = ap (λ p. SdkCall.gpio_put p true ∷ []) (ground arith)
gpio_put_lem pin false h = ap (λ p. SdkCall.gpio_put p false ∷ []) (ground arith)

watch_put :
    (t : Lcd) (pin : ℕ) (on : Bool) (b : Bus)
    → pin < 2 ^ 30
    → watch t (gpio_put pin on) b ≡ level t pin on b
unfolding watch
watch_put t pin on b h = ap (λ cs. watch t cs b) (gpio_put_lem pin on h)

module _ (t : Lcd) (w : IsWired t) (on : Bool) (b : Bus) where
  pub watch-rs : watch t (gpio_put t.rs on) b ≡ record b { rs = on }
  watch-rs = watch_put t t.rs on b w.rs_small ∙ ground (arith, w)

  pub watch-en : watch t (gpio_put t.en on) b ≡ enable on b
  watch-en = watch_put t t.en on b w.en_small ∙ ground (arith, w)

  pub watch-d4 : watch t (gpio_put t.d4 on) b ≡ record b { d4 = on }
  watch-d4 = watch_put t t.d4 on b w.d4_small ∙ ground (arith, w)

  pub watch-d5 : watch t (gpio_put t.d5 on) b ≡ record b { d5 = on }
  watch-d5 = watch_put t t.d5 on b w.d5_small ∙ ground (arith, w)

  pub watch-d6 : watch t (gpio_put t.d6 on) b ≡ record b { d6 = on }
  watch-d6 = watch_put t t.d6 on b w.d6_small ∙ ground (arith, w)

  pub watch-d7 : watch t (gpio_put t.d7 on) b ≡ record b { d7 = on }
  watch-d7 = watch_put t t.d7 on b w.d7_small ∙ ground (arith, w)

pub watch-sleep_us : (t : Lcd) (n : ℕ) (b : Bus) → watch t (sleep_us n) b ≡ b
unfolding watch sleep_us
watch-sleep_us t n b = refl

pub watch-sleep_ms : (t : Lcd) (n : ℕ) (b : Bus) → watch t (sleep_ms n) b ≡ b
unfolding watch sleep_ms
watch-sleep_ms t n b = refl
