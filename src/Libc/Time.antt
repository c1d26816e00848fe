-- ===== src/Libc/Time.antt =====
-- ocaml_stubs.c, delays, the time of day, entropy, and the calls that report on the process and the
-- system.
use pico_ocaml.Prelude.{
  ℕ, zero, suc, ◌+◌, ◌*◌, ◌/◌, ◌%◌, ◌^◌, ◌≤◌, ◌<◌, ◌≡◌, refl, ◌↔◌, Option, none, some, List, [],
  ◌∷◌, arith, ltb, ◌==◌, if◌then◌else◌, Bool-cases, inl, inr,
}
use pico_ocaml.Prelude.Int.{ℤ, pos, negsuc}

-- `struct timespec` and `struct timeval`, of times that are not negative
pub record Timespec : Type 0 where
  pub tv_sec : ℕ
  pub tv_nsec : ℕ

record Timeval : Type 0 where
  pub tv_sec : ℕ
  pub tv_usec : ℕ

-- `req->tv_sec * 1000 + req->tv_nsec / 1000000`, kept in a `uint32_t`
abbrev sleep_time : Timespec → ℕ
sleep_time req = (req.tv_sec * 1000 + req.tv_nsec / 1000000) % 2 ^ 32

-- The milliseconds that are slept, if any, and what is written through `rem`. A pointer that is
-- NULL is `none`.
pub record Slept : Type 0 where
  pub result : ℤ
  pub slept : Option ℕ
  pub remaining : Option Timespec

abbrev no_time : Timespec
no_time = record { tv_sec = 0; tv_nsec = 0 }

pub nanosleep : (req rem : Option Timespec) → Slept
nanosleep req rem = record {
  result = pos 0;
  slept = elim req [
    | none ↦ none
    | some r ↦ if ltb 0 (sleep_time r) then some (sleep_time r) else none
  ];
  remaining = elim rem [ none ↦ none | some old ↦ some no_time ];
}

-- `us` is what `time_us_64` returns.
gettimeofday : (us : ℕ) → (tv : Option Timeval) → ℤ × Option Timeval
gettimeofday us none = (pos 0, none)
gettimeofday us (some old) =
    (pos 0, some (record { tv_sec = us / 1000000; tv_usec = us % 1000000 }))

-- The loop of `getentropy` from byte `i` on.
entropy_from : (rounds i : ℕ) → List ℕ
entropy_from zero i = []
entropy_from (suc rounds) i = (i * 17 + 42) % 2 ^ 8 ∷ entropy_from rounds (i + 1)

-- The result and the bytes written to `buf`.
getentropy : (len : ℕ) → ℤ × List ℕ
unfolding entropy_from
getentropy len = (pos 0, entropy_from len 0)

unfoldable getpid : ℤ
getpid = pos 1

unfoldable getppid : ℤ
getppid = pos 0

-- The names that unistd.h gives numbers.
record SysconfNames : Type 0 where
  pub sc_pagesize : ℕ
  pub sc_nprocessors_onln : ℕ
  pub sc_nprocessors_conf : ℕ

unfoldable sysconf : SysconfNames → (name : ℤ) → ℤ
sysconf names (negsuc n) = negsuc 0
sysconf names (pos n) =
    if n == names.sc_pagesize
    then pos 4096
    else if n == names.sc_nprocessors_onln
    then pos 2
    else if n == names.sc_nprocessors_conf
    then pos 2
    else negsuc 0

module _ (sec nsec : ℕ) where
  -- the nanoseconds asked for
  abbrev pub asked : ℕ
  asked = sec * 1000000000 + nsec

  abbrev pub asked_time : Option Timespec
  asked_time = some (record { tv_sec = sec; tv_nsec = nsec })

  -- the nanoseconds slept
  abbrev pub slept_ns : Slept → ℕ
  slept_ns r = elim r.slept [ none ↦ 0 | some ms ↦ ms * 1000000 ]

  slept_time :
      (rem : Option Timespec)
      → slept_ns (nanosleep asked_time rem)
        ≡ sleep_time (record { tv_sec = sec; tv_nsec = nsec }) * 1000000
  unfolding nanosleep
  slept_time rem =
      elim (Bool-cases (ltb 0 (sleep_time (record { tv_sec = sec; tv_nsec = nsec })))) [
        | inl some_time ↦ ground (arith, some_time)
        | inr none_left ↦ ground (arith, none_left)
      ]

  -- `nanosleep` succeeds, reports no time left, and sleeps for the time asked for, cut down to
  -- whole milliseconds, if and only if that is less than 2 ^ 32 milliseconds; it never sleeps
  -- longer than asked.
  pub nanosleep_lem :
      (rem : Option Timespec)
      → let r = nanosleep asked_time rem in
        (r.result ≡ pos 0)
        × (slept_ns r ≤ asked)
        × ((asked < slept_ns r + 1000000) ↔ (asked / 1000000 < 2 ^ 32))
  unfolding nanosleep
  nanosleep_lem rem = (
    refl,
    omega (arith, slept_time rem),
    ((λ h. omega (arith, slept_time rem)), λ h. omega (arith, slept_time rem)),
  )

-- The time that `gettimeofday` writes is the clock's: the seconds and microseconds together are
-- the number that the clock counts, and the microseconds are less than a second.
gettimeofday-whole :
    (us : ℕ) (old : Timeval)
    → let (r, tv) = gettimeofday us (some old) in
      (t : Timeval) × (tv ≡ some t) × (t.tv_sec * 1000000 + t.tv_usec ≡ us) × (t.tv_usec < 1000000)
unfolding gettimeofday
gettimeofday-whole us old = (_, refl, omega arith, omega arith)
