-- ===== src/Clock/Tests.antt =====
-- The theorems on the clock at concrete times.
use pico_ocaml.Prelude.{
  ◌+◌, ◌*◌, ◌%◌, ◌^◌, ◌<◌, ◌≡◌, arith, some, none, [], ◌∷◌, ◌++◌, replicate, refl,
}
use pico_ocaml.Net.State.{Net}
use pico_ocaml.Net.Create.{HasRoom}
use pico_ocaml.Net.Tests.{good, online, block}
use pico_ocaml.Clock.Ntp.{Incoming, ntp_query}
use pico_ocaml.Clock.Ntp.Listening.{IsFree}
use pico_ocaml.Clock.Ntp.Times.{ntp_query-answered, ntp_query_short}
use pico_ocaml.Clock.{time_of, base_of}
use pico_ocaml.Clock.Time.{time_of_lem}

-- 232 times 2 ^ 24 and some seconds after 1900
time_of_lem_example :
    let ntp = ((232 * 256 + 10) * 256 + 20) * 256 + 30 in
    let (h, m, s) = time_of 232 10 20 30 in
    (base_of (h, m, s) ≡ (ntp + 3600) % 86400)
    × (h < 24)
    × (m < 60)
    × (s < 60)
    × (232 * 15616 + 10 * 65536 + 20 * 256 + 30 < 2 ^ 30)
time_of_lem_example =
    time_of_lem 232 10 20 30 (omega arith) (omega arith) (omega arith) (omega arith)

online-HasRoom : HasRoom good online 1
online-HasRoom = record { all = refl; free = refl }

-- An answer of 48 bytes, which comes before the fourth read, and one of three.
abbrev answer : Incoming
answer = record {
  bytes = replicate 40 28 ++ (232 ∷ 10 ∷ 20 ∷ 30 ∷ 0 ∷ 0 ∷ 0 ∷ 0 ∷ []);
  addr = 16909060;
  port = 123;
}

abbrev short_answer : Incoming
short_answer = record { bytes = 1 ∷ 2 ∷ 3 ∷ []; addr = 16909060; port = 123 }

ntp_query-answered_example :
    ((n' : Net) × (ntp_query good [] (replicate 3 [] ++ (answer ∷ []) ∷ []) online
        ≡ some (some (time_of 232 10 20 30), n'))
      × IsFree n' 1)
    × ((n' : Net) × (ntp_query good [] [] online ≡ some (none, n')) × IsFree n' 1)
ntp_query-answered_example =
    ntp_query-answered good 1 3 online [] answer [] 1 16909060 block 232 10 20 30 online-HasRoom
      refl refl refl (λ t. refl) (omega arith) tt (omega arith) refl refl refl refl refl

ntp_query_short_example :
    (n' : Net) × (ntp_query good [] (replicate 3 [] ++ (short_answer ∷ []) ∷ []) online
      ≡ some (some (1, 0, 0), n'))
    × IsFree n' 1
ntp_query_short_example =
    ntp_query_short good 1 3 online [] short_answer [] 1 16909060 block online-HasRoom refl refl
      refl (λ t. refl) (omega arith) tt (omega arith) (omega arith) (omega arith)
