-- ===== src/Lcd/Receives.antt =====
-- What the display has received after the functions of the driver.
use pico_ocaml.Prelude.{
  ℕ, ◌+◌, ◌*◌, ◌/◌, ◌%◌, ◌<◌, ◌≡◌, refl, sym, ap, subst, ◌∙◌, Bool, true, false, List, [], ◌∷◌,
  ◌++◌, map, append-nil, append_assoc, arith, leb, if◌then◌else◌,
}
use pico_ocaml.Lcd.{
  Lcd, gpio_put, sleep_ms, pulse_enable, has_bit, write_4bits, write_8bits, write_command,
  write_data, print_string,
}
use pico_ocaml.Lcd.Bus.{
  Bus, nibble, watch, watch-nil, watch-append, IsWired, watch-rs, watch-en, watch-d4, watch-d5,
  watch-d6, watch-d7, watch-sleep_us, watch-sleep_ms,
}

-- `en` is low, `rs` is at `data`, and `l` has been taken since `b`.
pub record Took (b b' : Bus) (data? : Bool) (l : List (Bool × ℕ)) : Type 0 where
  pub idle : b'.en ≡ false
  pub select : b'.rs ≡ data?
  pub taken : b'.seen ≡ b.seen ++ l

-- The nibbles of a byte.
abbrev pub halves : Bool → ℕ → List (Bool × ℕ)
halves data? v = (data?, v / 16 % 16) ∷ (data?, v % 16) ∷ []

module _ (t : Lcd) (w : IsWired t) where
  watch-pulse :
      (b : Bus)
      → b.en ≡ false
      → watch t (pulse_enable t) b ≡ record b { en = false; seen = b.seen ++ (b.rs, nibble b) ∷ [] }
  unfolding pulse_enable
  watch-pulse b idle = simp (watch-append, watch-en t w, watch-sleep_us, idle)

  -- After the data pins are set, they stand for the nibble.
  set_pins : ℕ → Bus → Bus
  set_pins n b = record b { d7 = has_bit n 8; d6 = has_bit n 4; d5 = has_bit n 2; d4 = has_bit n 1 }

  nibble-set_pins : (n : ℕ) (b : Bus) → nibble (set_pins n b) ≡ n % 16
  unfolding set_pins
  nibble-set_pins n b = ground arith

  write_4bits-Took :
      (n : ℕ) (b : Bus)
      → b.en ≡ false
      → Took b (watch t (write_4bits t n) b) b.rs ((b.rs, n % 16) ∷ [])
  unfolding write_4bits set_pins
  write_4bits-Took n b idle = rw seen (record {
    idle = refl;
    select = refl;
    taken = ap (λ k. b.seen ++ (b.rs, k) ∷ []) (nibble-set_pins n b);
  })
    where
      seen : watch t (write_4bits t n) b ≡ record (set_pins n b) {
        en = false;
        seen = b.seen ++ (b.rs, nibble (set_pins n b)) ∷ [];
      }
      seen =
          simp (watch-append, watch-d7 t w, watch-d6 t w, watch-d5 t w, watch-d4 t w)
            (watch-pulse (set_pins n b) idle)

  Took-trans :
      {b c d : Bus} {x y : Bool} {l m : List (Bool × ℕ)}
      → Took b c x l
      → Took c d y m
      → Took b d y (l ++ m)
  Took-trans {b} {l = l} {m} p q = record {
    idle = q.idle;
    select = q.select;
    taken = q.taken ∙ ap (λ s. s ++ m) p.taken ∙ append_assoc b.seen l m;
  }

  write_8bits-Took :
      (v : ℕ) (b : Bus) → b.en ≡ false → Took b (watch t (write_8bits t v) b) b.rs (halves b.rs v)
  unfolding write_8bits
  write_8bits-Took v b idle =
      let first = write_4bits-Took (v / 16) b idle in
      let c = watch t (write_4bits t (v / 16)) b in
      let second = write_4bits-Took v c first.idle in
      rw (watch-append t (write_4bits t (v / 16)) (write_4bits t v) b) (
        Took-trans first (
          subst (λ r. Took c (watch t (write_4bits t v) c) r ((r, v % 16) ∷ [])) first.select
            second))

  -- `rs` is set first.
  selected :
      (data? : Bool) (v : ℕ) (b : Bus)
      → b.en ≡ false
      → Took b (watch t (gpio_put t.rs data? ++ write_8bits t v) b) data? (halves data? v)
  selected data? v b idle =
      rw (watch-append t (gpio_put t.rs data?) (write_8bits t v) b, watch-rs t w data? b)
        (let p = write_8bits-Took v (record b { rs = data? }) idle in
          record { idle = p.idle; select = p.select; taken = p.taken })

  pub write_command-Took :
      (cmd : ℕ) (b : Bus)
      → b.en ≡ false
      → Took b (watch t (write_command t cmd) b) false (halves false cmd)
  unfolding write_command
  write_command-Took cmd b idle =
      subst (λ c. Took b c false (halves false cmd)) (sym quiet) (selected false cmd b idle)
    where
      delay : (slow : Bool) (c : Bus) → watch t (if slow then sleep_ms 5 else []) c ≡ c
      delay true c = watch-sleep_ms t 5 c
      delay false c = watch-nil t c

      quiet : watch t (write_command t cmd) b ≡ watch t (gpio_put t.rs false ++ write_8bits t cmd) b
      quiet =
          ap (λ cs. watch t cs b)
            (sym (
              append_assoc (gpio_put t.rs false) (write_8bits t cmd)
                (if leb cmd 3 then sleep_ms 5 else [])))
          ∙ watch-append t (gpio_put t.rs false ++ write_8bits t cmd)
              (if leb cmd 3 then sleep_ms 5 else []) b
          ∙ delay (leb cmd 3) (watch t (gpio_put t.rs false ++ write_8bits t cmd) b)

  write_data-Took :
      (d : ℕ) (b : Bus) → b.en ≡ false → Took b (watch t (write_data t d) b) true (halves true d)
  unfolding write_data
  write_data-Took d b idle = selected true d b idle

-- The bytes that the display puts together from the nibbles, with the level of `rs` at the second.
pub received : List (Bool × ℕ) → List (Bool × ℕ)
received ((r, high) ∷ (data?, low) ∷ l) = (data?, high * 16 + low) ∷ received l
received _ = []

halves_of : Bool → List ℕ → List (Bool × ℕ)
halves_of data? [] = []
halves_of data? (v ∷ vs) = (data?, v / 16 % 16) ∷ (data?, v % 16) ∷ halves_of data? vs

-- All are bytes.
abbrev pub AllBytes : List ℕ → Type 0
AllBytes [] = Unit {0}
AllBytes (v ∷ vs) = (v < 256) × AllBytes vs

pub received-halves : (data? : Bool) (v : ℕ) → v < 256 → received (halves data? v) ≡ (data?, v) ∷ []
unfolding received
received-halves data? v h = λ i. (data?, whole i) ∷ []
  where
    whole : v / 16 % 16 * 16 + v % 16 ≡ v
    whole = omega arith

received-halves_of :
    (data? : Bool) (vs : List ℕ)
    → AllBytes vs
    → received (halves_of data? vs) ≡ map (λ v. (data?, v)) vs
unfolding received halves_of
received-halves_of data? [] h = refl
received-halves_of data? (v ∷ vs) h = λ i. (data?, whole i) ∷ received-halves_of data? vs h.1 i
  where
    whole : v / 16 % 16 * 16 + v % 16 ≡ v
    whole = omega (arith, h.0)

print_string-Took :
    (t : Lcd) (w : IsWired t) (s : List ℕ) (b : Bus)
    → b.en ≡ false
    → (b' : Bus) × (watch t (print_string t s) b ≡ b')
      × (b'.en ≡ false)
      × (b'.seen ≡ b.seen ++ halves_of true s)
unfolding print_string halves_of
print_string-Took t w [] b idle = (b, watch-nil t b, idle, sym (append-nil b.seen))
print_string-Took t w (c ∷ s) b idle =
    let first = write_data-Took t w c b idle in
    let (b', e, idle', rest) = print_string-Took t w s (watch t (write_data t c) b) first.idle in
    (
      b',
      watch-append t (write_data t c) (print_string t s) b ∙ e,
      idle',
      rest
          ∙ ap (λ l. l ++ halves_of true s) first.taken
          ∙ append_assoc b.seen (halves true c) (halves_of true s),
    )

-- With the six pins different and `en` low, whatever the pins were at before: a display that
-- takes a nibble whenever `en` falls has after `print_string` received, as data, the bytes of the
-- string in order, and no more; `en` is low again.
pub print_string-received :
    (t : Lcd) (s : List ℕ) (b : Bus)
    → IsWired t
    → b.en ≡ false
    → AllBytes s
    → (l : List (Bool × ℕ)) × ((watch t (print_string t s) b).seen ≡ b.seen ++ l)
      × (received l ≡ map (λ c. (true, c)) s)
      × ((watch t (print_string t s) b).en ≡ false)
print_string-received t s b w idle bytes =
    let (b', e, idle', seen) = print_string-Took t w s b idle in
    (
      halves_of true s,
      ap (λ c. c.seen) e ∙ seen,
      received-halves_of true s bytes,
      ap (λ c. c.en) e ∙ idle',
    )
