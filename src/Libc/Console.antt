-- ===== src/Libc/Console.antt =====
-- What the descriptors are good for, and that the C library and the runtime write alike.
use pico_ocaml.Prelude.{
  ℕ, zero, suc, ◌+◌, ◌≤◌, ◌≡◌, refl, sym, ap, ◌∙◌, inl, inr, true, false, Option, none, some, List,
  [], ◌∷◌, ◌++◌, append-nil, append_assoc, arith, if◌then◌else◌, Bool-cases, Option-cases, length,
  get_elem?, take, drop, take_of_le, get_elem?-some,
}
use pico_ocaml.Prelude.Int.{ℤ, pos}
use pico_ocaml.Libc.{
  Errno, Sys, bad_result, is_output, is_std, is_fd, count_of, write_loop, write, read, fstat,
  isatty, close, caml_write_loop, caml_write_fd,
}
use mathlib.Core.Option

module _ {W : Type 0} (stw : W → W) where
  -- What a caller and the console see of a call.
  abbrev pub seen : {A : Type 0} → A × Sys W → A × List ℕ
  seen (a, s) = (a, s.out)

  abbrev out_of : Sys W → List ℕ
  out_of s = s.out

  loops_agree :
      (buf : List ℕ) (rounds i : ℕ) (s t : Sys W)
      → s.out ≡ t.out
      → Option.map out_of (write_loop stw buf rounds i s)
        ≡ Option.map out_of (caml_write_loop buf rounds i t)
  unfolding write_loop caml_write_loop
  loops_agree buf zero i s t e = ap some e
  loops_agree buf (suc rounds) i s t e = elim (Option-cases (get_elem? buf i)) [
    | inl outside ↦ ground (arith, outside)
    | inr (c, at) ↦
        rw (at, Option.map) (loops_agree buf rounds (i + 1) _ _ (ap (λ o. o ++ (c ∷ [])) e))
  ]

  with_code : ℤ → Option (Sys W) → Option (ℤ × Sys W)
  with_code n none = none
  with_code n (some s) = some (n, s)

  seen-with_code :
      (n : ℤ) (x y : Option (Sys W))
      → Option.map out_of x ≡ Option.map out_of y
      → Option.map seen (with_code n x) ≡ Option.map seen (with_code n y)
  unfolding with_code
  seen-with_code n none none e = refl
  seen-with_code n (some s) none e = cc
  seen-with_code n none (some t) e = cc
  seen-with_code n (some s) (some t) e = ground (arith, e)

  -- Whatever is written to whatever descriptor, the C library's `_write`, which lets interrupts
  -- in, and the runtime's `caml_write_fd` return the same result and put out the same text, or
  -- both read outside the buffer.
  pub write-caml_write_fd :
      (fd flags : ℤ) (buf : List ℕ) (count : ℤ) (s : Sys W)
      → Option.map seen (write stw fd buf count s)
        ≡ Option.map seen (caml_write_fd fd flags buf count s)
  unfolding write caml_write_fd with_code
  write-caml_write_fd fd flags buf count s = elim (Bool-cases (is_output fd)) [
    | inr other ↦ ground (arith, other)
    | inl output ↦
        rw (output, Option.map)
          (seen-with_code count _ _ (loops_agree buf (count_of count) 0 s s refl))
  ]

pub take-drop-suc :
    (buf : List ℕ) (i k c : ℕ)
    → get_elem? buf i ≡ some c
    → take (suc k) (drop i buf) ≡ c ∷ take k (drop (i + 1) buf)
take-drop-suc [] i k c e = cc
take-drop-suc (b ∷ buf) zero k c e = ground (arith, e)
take-drop-suc (b ∷ buf) (suc i) k c e =
    take-drop-suc buf i k c e ∙ ap (λ j. c ∷ take k (drop j (b ∷ buf))) next
  where
    next : suc (i + 1) ≡ suc i + 1
    next = omega arith

module _ {W : Type 0} where
  caml_write_loop-out :
      (buf : List ℕ) (rounds i : ℕ) (s : Sys W)
      → i + rounds ≤ length buf
      → caml_write_loop buf rounds i s ≡ some (record s { out = s.out ++ take rounds (drop i buf) })
  unfolding caml_write_loop
  caml_write_loop-out buf zero i s h =
      ap (λ o. some (record s { out = o })) (sym (append-nil s.out))
  caml_write_loop-out buf (suc rounds) i s h =
      let (c, at) = get_elem?-some buf i (omega arith) in
      rw (at, caml_write_loop)
        (caml_write_loop-out buf rounds (i + 1) _ (omega arith)
          ∙ ap (λ o. some (record s { out = o }))
              (append_assoc s.out (c ∷ []) (take rounds (drop (i + 1) buf))
                ∙ ap (λ o. s.out ++ o) (sym (take-drop-suc buf i rounds c at))))

  -- The runtime writes the whole of a buffer to the console, in order and behind what is there, and
  -- returns its length, if the descriptor is 1 or 2; for any other it returns -1 and writes nothing.
  caml_write_fd-out :
      (fd flags : ℤ) (buf : List ℕ) (s : Sys W)
      → caml_write_fd fd flags buf (pos (length buf)) s
        ≡ some (
            if is_output fd
            then (pos (length buf), record s { out = s.out ++ buf })
            else (bad_result, s))
  unfolding caml_write_fd
  caml_write_fd-out fd flags buf s = elim (Bool-cases (is_output fd)) [
    | inr other ↦ ground (arith, other)
    | inl output ↦ ground (
      arith,
      output,
      caml_write_loop-out buf (length buf) 0 s (omega arith),
      take_of_le (length buf) buf,
    )
  ]

  -- `_isatty`, `_fstat` and `_close` take the same descriptors for those of the console, 0, 1 and
  -- 2: for these the results are 1, 0 with a character device, and 0, and `errno` stays as it
  -- was; for any other they are 0, -1 and -1, and the two that fail set EBADF. `_read` takes 0
  -- alone, `_lseek` none.
  std_fds :
      (fd offset whence count : ℤ) (s : Sys W)
      → let bad = record s { errno = Errno.ebadf } in
        (isatty fd s ≡ some ((if is_std fd then pos 1 else pos 0), s))
        × (fstat fd s ≡ some (if is_std fd then ((pos 0, true), s) else ((bad_result, false), bad)))
        × (close fd s ≡ some (if is_std fd then (pos 0, s) else (bad_result, bad)))
        × (read fd count s ≡ some (if is_fd 0 fd then (pos 0, s) else (bad_result, bad)))
  unfolding isatty fstat close read
  std_fds fd offset whence count s = (refl, ground arith, ground arith, ground arith)
