-- ===== src/Lcd/Places.antt =====
-- `move_to` on a display of 20 columns and four rows.
use Prim.Native.Nat.{bit_or}
use pico_ocaml.Prelude.{
  if◌then◌else◌, ℕ_discrete, ℕ, zero, suc, ◌+◌, ◌<◌, ◌≡◌, refl, ap, ◌∙◌, Bool, false, List, [], ◌∷◌,
  ◌++◌, arith, ◌==◌,
}
use pico_ocaml.Lcd.{Lcd, address_of, move_to}
use pico_ocaml.Lcd.Bus.{Bus, watch, IsWired}
use pico_ocaml.Lcd.Receives.{halves, received, received-halves, write_command-Took}

-- Where the rows begin in the memory of such a display.
pub row_start : ℕ → ℕ
row_start zero = 0
row_start (suc zero) = 64
row_start (suc (suc zero)) = 20
row_start (suc (suc (suc row))) = 84

address_of-row_start :
    (t : Lcd) (col row : ℕ)
    → t.columns ≡ 20
    → col < 20
    → row < 4
    → address_of t col row ≡ row_start row + col
unfolding address_of row_start
address_of-row_start t col zero c h k = ground arith
address_of-row_start t col (suc zero) c h k = ground arith
address_of-row_start t col (suc (suc zero)) c h k = ground arith
address_of-row_start t col (suc (suc (suc zero))) c h k = ground arith
address_of-row_start t col (suc (suc (suc (suc row)))) c h k = absurd (omega arith)

-- How many of the first `bound` numbers `0x80 lor` does not raise by 128.
not_raised : (bound : ℕ) → ℕ
not_raised zero = 0
not_raised (suc bound) = (if bit_or 128 bound == 128 + bound then 0 else 1) + not_raised bound

raised : (bound addr : ℕ) → not_raised bound ≡ 0 → addr < bound → bit_or 128 addr ≡ 128 + addr
unfolding not_raised
raised zero addr none_left h = absurd (omega arith)
raised (suc bound) addr none_left h = elim (ℕ_discrete addr bound) [
  | yes e ↦ rw e (ground (arith, none_left))
  | no n ↦ raised bound addr (ground (arith, none_left)) (omega (arith, n))
]

bit_or-top : (addr : ℕ) → addr < 128 → bit_or 128 addr ≡ 128 + addr
unfolding not_raised
bit_or-top addr h = raised 128 addr refl h

row_start_small : (row : ℕ) → row_start row < 85
unfolding row_start
row_start_small zero = omega arith
row_start_small (suc zero) = omega arith
row_start_small (suc (suc zero)) = omega arith
row_start_small (suc (suc (suc row))) = omega arith

-- On a display of 20 columns, wired to different pins and with `en` low: `move_to` of a column and
-- one of the four rows makes it receive one command, which sets the address to where the row
-- begins, 0, 64, 20 or 84, and the column.
pub move_to-received :
    (t : Lcd) (col row : ℕ) (b : Bus)
    → IsWired t
    → t.columns ≡ 20
    → col < 20
    → row < 4
    → b.en ≡ false
    → (l : List (Bool × ℕ)) × ((watch t (move_to t col row) b).seen ≡ b.seen ++ l)
      × (received l ≡ (false, 128 + (row_start row + col)) ∷ [])
      × ((watch t (move_to t col row) b).en ≡ false)
unfolding move_to
move_to-received t col row b w twenty h k idle =
    let took = write_command-Took t w (bit_or 128 (address_of t col row)) b idle in
    let place = address_of-row_start t col row twenty h k in
    let small : row_start row + col < 128 = omega (arith, row_start_small row) in
    let command : bit_or 128 (address_of t col row) ≡ 128 + (row_start row + col) =
      ap (bit_or 128) place ∙ bit_or-top (row_start row + col) small in
    (
      halves false (bit_or 128 (address_of t col row)),
      took.taken,
      ap (λ v. received (halves false v)) command
          ∙ received-halves false (128 + (row_start row + col)) (omega (arith, small)),
      took.idle,
    )
