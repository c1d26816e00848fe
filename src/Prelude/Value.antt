-- ===== src/Prelude/Value.antt =====
-- OCaml values on a 32-bit target: the macros of the runtime, which net_stubs.c repeats.
use Prim.Native.Nat.{ℕ, ◌+◌, ◌*◌, ◌/◌, ◌%◌, ◌^◌}
use mathlib.Core.Bool.{Bool}
use pico_ocaml.Prelude.Tests.{leb, if◌then◌else◌}

abbrev pub Value : Type 0
Value = ℕ

-- `Val_int(x)` of a word: `((value)x << 1) + 1`
abbrev pub val_int : ℕ → Value
val_int x = (x * 2 + 1) % 2 ^ 32

-- `Int_val(x)`, the arithmetic shift `x >> 1`, as the bit pattern of the result
abbrev pub int_val : Value → ℕ
int_val x = x / 2 + (if leb (2 ^ 31) x then 2 ^ 31 else 0)

abbrev pub val_unit : Value
val_unit = 1

abbrev pub val_bool : Bool → Value
val_bool b = if b then 3 else 1
