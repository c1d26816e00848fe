-- ===== src/Libc.antt =====
-- ocaml_stubs.c, the system calls that newlib makes for the C library and the runtime's own read
-- and write: the console for the three standard descriptors, and errors for the rest.
pub mod Console
pub mod Time
pub mod Signals
use pico_ocaml.Prelude.{
  ℕ, zero, suc, ◌+◌, ◌*◌, ◌/◌, ◌%◌, ◌^◌, Bool, not, true, false, ◌||◌, ◌&&◌, Option, none, some,
  List, [], ◌∷◌, ◌++◌, leb, ltb, ◌==◌, if◌then◌else◌, get_elem?, replicate,
}
use pico_ocaml.Prelude.Int.{ℤ, pos, negsuc}

-- `errno`
pub data Errno : Type 0 where
  unset ebadf espipe enosys : Errno

-- The text put out, `errno`, and the rest of the machine.
pub record Sys (W : Type 0) : Type 0 where
  pub out : List ℕ
  pub errno : Errno
  pub rest : W

abbrev pub bad_result : ℤ
bad_result = negsuc 0

-- `fd == k`
abbrev pub is_fd : ℕ → ℤ → Bool
is_fd k (pos n) = n == k
is_fd k (negsuc n) = false

-- `fd == 1 || fd == 2`
abbrev pub is_output : ℤ → Bool
is_output fd = is_fd 1 fd || is_fd 2 fd

-- `fd >= 0 && fd <= 2`
abbrev pub is_std : ℤ → Bool
is_std (pos n) = leb n 2
is_std (negsuc n) = false

-- A result and the state after it; `none` is a read outside a buffer.
abbrev SysCall : Type 0 → Type 0 → Type 0
SysCall W A = Sys W → Option (A × Sys W)

abbrev fail : {W A : Type 0} → Errno → A → SysCall W A
fail e a s = some (a, record s { errno = e })

-- No round of a loop runs for a count below 1.
abbrev pub count_of : ℤ → ℕ
count_of (pos n) = n
count_of (negsuc n) = 0

module _ {W : Type 0} where
  abbrev put : ℕ → Sys W → Sys W
  put c s = record s { out = s.out ++ (c ∷ []) }

  -- The loop of `_write` from character `i` on, with `rounds` characters left. `stw` is what
  -- `try_handle_stw_interrupt` does to the rest of the machine. `none` is a read outside `buf`.
  unfoldable pub write_loop :
      (stw : W → W) → (buf : List ℕ) → (rounds i : ℕ) → Sys W → Option (Sys W)
  write_loop stw buf zero i s = some s
  write_loop stw buf (suc rounds) i s = elim (get_elem? buf i) [
    | none ↦ none
    | some c ↦
        let s' = put c s in
        write_loop stw buf rounds (i + 1)
          (record s' { rest = if i % 32 == 0 then stw s'.rest else s'.rest })
  ]

  unfoldable pub write : (stw : W → W) → (fd : ℤ) → (buf : List ℕ) → (count : ℤ) → SysCall W ℤ
  unfolding write_loop
  write stw fd buf count s =
      if is_output fd
      then elim (write_loop stw buf (count_of count) 0 s) [
        | none ↦ none
        | some s' ↦ some (count, s')
      ]
      else fail Errno.ebadf bad_result s

  pub read : (fd count : ℤ) → SysCall W ℤ
  read fd count s = if is_fd 0 fd then some (pos 0, s) else fail Errno.ebadf bad_result s

  unfoldable lseek : (fd offset whence : ℤ) → SysCall W ℤ
  lseek fd offset whence = fail Errno.espipe bad_result

  -- With whether `*st` has become that of a character device.
  pub fstat : (fd : ℤ) → SysCall W (ℤ × Bool)
  fstat fd s = if is_std fd then some ((pos 0, true), s) else fail Errno.ebadf (bad_result, false) s

  pub isatty : (fd : ℤ) → SysCall W ℤ
  isatty fd s = some ((if is_std fd then pos 1 else pos 0), s)

  pub close : (fd : ℤ) → SysCall W ℤ
  close fd s = if is_std fd then some (pos 0, s) else fail Errno.ebadf bad_result s

  -- The runtime's own. They leave `errno` alone.
  unfoldable caml_read_fd : (fd flags n : ℤ) → SysCall W ℤ
  caml_read_fd fd flags n s = some ((if is_fd 0 fd then pos 0 else bad_result), s)

  pub caml_write_loop : (buf : List ℕ) → (rounds i : ℕ) → Sys W → Option (Sys W)
  caml_write_loop buf zero i s = some s
  caml_write_loop buf (suc rounds) i s = elim (get_elem? buf i) [
    | none ↦ none
    | some c ↦ caml_write_loop buf rounds (i + 1) (put c s)
  ]

  pub caml_write_fd : (fd flags : ℤ) → (buf : List ℕ) → (n : ℤ) → SysCall W ℤ
  unfolding caml_write_loop
  caml_write_fd fd flags buf n s =
      if is_output fd
      then elim (caml_write_loop buf (count_of n) 0 s) [ none ↦ none | some s' ↦ some (n, s') ]
      else some (bad_result, s)

  -- There is no file system. A result that is a pointer is NULL.
  unfoldable chdir : (path : List ℕ) → SysCall W ℤ
  chdir path = fail Errno.enosys bad_result

  unfoldable getcwd : (size : ℕ) → SysCall W (Option (List ℕ))
  getcwd size = fail Errno.enosys none

  unfoldable mkdir : (path : List ℕ) → (mode : ℕ) → SysCall W ℤ
  mkdir path mode = fail Errno.enosys bad_result

  unfoldable rmdir : (path : List ℕ) → SysCall W ℤ
  rmdir path = fail Errno.enosys bad_result
