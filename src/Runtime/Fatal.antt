-- ===== src/Runtime/Fatal.antt =====
-- ocaml_stubs.c, the functions that report an error and never return, and those of the runtime
-- that do nothing here. What the former put out is text; they then loop for ever, and have no
-- result.
use pico_ocaml.Prelude.{ℕ, List, [], ◌∷◌, ◌++◌, Option, none}
use pico_ocaml.Prelude.Int.{ℤ, pos}

-- The text put out before the loop, on the console or, as words, at an address.
pub data Halt : Type 0 where
  printed : List ℕ → Halt
  stored : (address : ℕ) → List ℕ → Halt

abbrev line_end : ℕ
line_end = 10

-- "FATAL ERROR: "
abbrev fatal_text : List ℕ
fatal_text =
    b'F' ∷ b'A' ∷ b'T' ∷ b'A' ∷ b'L' ∷ b' ' ∷ b'E' ∷ b'R' ∷ b'R' ∷ b'O' ∷ b'R' ∷ b':' ∷ b' ' ∷ []

-- `message` is what `vprintf` makes of the format and the arguments.
unfoldable caml_fatal_error : (message : List ℕ) → Halt
caml_fatal_error message = Halt.printed (fatal_text ++ (message ++ line_end ∷ []))

-- "FATAL: bad caml state\n  __aeabi_read_tp() = "
abbrev state_text : List ℕ
state_text =
    b'F' ∷ b'A' ∷ b'T' ∷ b'A' ∷ b'L' ∷ b':' ∷ b' ' ∷ b'b' ∷ b'a' ∷ b'd' ∷ b' ' ∷ b'c' ∷ b'a' ∷ b'm'
    ∷ b'l' ∷ b' ' ∷ b's' ∷ b't' ∷ b'a' ∷ b't' ∷ b'e' ∷ line_end ∷ b' ' ∷ b' ' ∷ b'_' ∷ b'_' ∷ b'a'
    ∷ b'e' ∷ b'a' ∷ b'b' ∷ b'i' ∷ b'_' ∷ b'r' ∷ b'e' ∷ b'a' ∷ b'd' ∷ b'_' ∷ b't' ∷ b'p' ∷ b'('
    ∷ b')' ∷ b' ' ∷ b'=' ∷ b' ' ∷ []

-- `pointer` is what `printf` makes of the address.
unfoldable caml_bad_caml_state : (pointer : List ℕ) → Halt
caml_bad_caml_state pointer = Halt.printed (state_text ++ (pointer ++ line_end ∷ []))

-- "\n!!! HARD FAULT !!!\n", character by character, to the data register of the UART
unfoldable hard_fault_handler : Halt
hard_fault_handler = Halt.stored 0x40034000 (
    line_end ∷ b'!' ∷ b'!' ∷ b'!' ∷ b' ' ∷ b'H' ∷ b'A' ∷ b'R' ∷ b'D' ∷ b' ' ∷ b'F' ∷ b'A' ∷ b'U'
    ∷ b'L' ∷ b'T' ∷ b' ' ∷ b'!' ∷ b'!' ∷ b'!' ∷ line_end ∷ [])

module _ {S : Type 0} where
  -- Runtime events: the state of whatever there is stays as it is.
  unfoldable caml_ev_begin : (ev : ℤ) → S → S
  caml_ev_begin ev s = s

  unfoldable caml_ev_end : (ev : ℤ) → S → S
  caml_ev_end ev s = s

  unfoldable caml_ev_counter : (ev : ℤ) → (val : ℕ) → S → S
  caml_ev_counter ev val s = s

  unfoldable caml_ev_lifecycle : (ev data? : ℤ) → S → S
  caml_ev_lifecycle ev data? s = s

  unfoldable caml_runtime_events_init : S → S
  caml_runtime_events_init s = s

  unfoldable caml_runtime_events_destroy : S → S
  caml_runtime_events_destroy s = s

  unfoldable caml_gc_log : (fmt : List ℕ) → S → S
  caml_gc_log fmt s = s

  unfoldable caml_gc_message : (level : ℤ) → (fmt : List ℕ) → S → S
  caml_gc_message level fmt s = s

  -- The tables of extensions.
  unfoldable caml_ext_table_init : (init_cap : ℤ) → S → S
  caml_ext_table_init init_cap s = s

  unfoldable caml_ext_table_add : (entry : ℕ) → S → S
  caml_ext_table_add entry s = s

  unfoldable caml_ext_table_free : (free_entries : ℤ) → S → S
  caml_ext_table_free free_entries s = s

unfoldable caml_runtime_events_enabled : ℤ
caml_runtime_events_enabled = pos 0

unfoldable caml_runtime_warnings_active : ℤ
caml_runtime_warnings_active = pos 0

-- Pointers are numbers, `none` for NULL.
unfoldable caml_read_section_descriptors : (fd len : ℕ) → Option ℕ
caml_read_section_descriptors fd len = none

unfoldable caml_seek_optional_section : (fd sd : ℕ) → (name : List ℕ) → Option ℕ
caml_seek_optional_section fd sd name = none

unfoldable caml_attempt_open : (name trail : ℕ) → (mode : ℤ) → Option ℕ
caml_attempt_open name trail mode = none

unfoldable caml_read_directory : (path : List ℕ) → (entries : ℕ) → Option ℕ
caml_read_directory path entries = none
