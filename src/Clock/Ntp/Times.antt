-- ===== src/Clock/Ntp/Times.antt =====
-- The time that `ntp_query` returns for a datagram.
use pico_ocaml.Prelude.{
  ℕ, zero, suc, ◌%◌, ◌^◌, ◌≤◌, ◌<◌, ◌≡◌, ◌≢◌, refl, ap, ◌∙◌, true, false, none, some, List, [], ◌∷◌,
  ◌++◌, length, replicate, get_elem?, append-nil, arith,
}
use pico_ocaml.Net.World.{World, Trace}
use pico_ocaml.Net.State.{max_recv_buffer, Net}
use pico_ocaml.Net.Create.{HasRoom, allocated}
use pico_ocaml.Net.Dns.Wait.{resolved, AllKeep}
use pico_ocaml.Net.Dns.{Others}
use pico_ocaml.Clock.{time_of}
use pico_ocaml.Clock.Ntp.{Incoming, filled, time_in, empty_buf, ntp_query}
use pico_ocaml.Clock.Ntp.Listening.{Listens, IsFree}
use pico_ocaml.Clock.Ntp.Answers.{ntp_query-ends, answers, silence}

filled-whole : (p : List ℕ) → length p ≡ 48 → filled p empty_buf ≡ p
filled-whole p h = rw h (append-nil p)

-- Behind the bytes of a short datagram the buffer is 0.
replicate-zero : (k m : ℕ) → k < m → get_elem? (replicate {A = ℕ} m 0) k ≡ some 0
replicate-zero k zero h = absurd (omega arith)
replicate-zero zero (suc m) h = refl
replicate-zero (suc k) (suc m) h = replicate-zero k m (omega arith)

zero_behind :
    (p : List ℕ) (k m : ℕ)
    → length p ≤ k
    → k < m
    → get_elem? (filled p (replicate {A = ℕ} m 0)) k ≡ some 0
zero_behind [] k m h lt = replicate-zero k m lt
zero_behind (x ∷ p) zero m h lt = absurd (omega (arith, h))
zero_behind (x ∷ p) (suc k) zero h lt = absurd (omega arith)
zero_behind (x ∷ p) (suc k) (suc m) h lt = zero_behind p k m (omega (arith, h)) (omega arith)

time_in_bytes :
    (buf : List ℕ) (b0 b1 b2 b3 : ℕ)
    → get_elem? buf 40 ≡ some b0
    → get_elem? buf 41 ≡ some b1
    → get_elem? buf 42 ≡ some b2
    → get_elem? buf 43 ≡ some b3
    → time_in buf ≡ some (time_of b0 b1 b2 b3)
unfolding time_in
time_in_bytes buf b0 b1 b2 b3 at0 at1 at2 at3 = ground (arith, at0, at1, at2, at3)

time_in-filled_short : (p : List ℕ) → length p ≤ 40 → time_in (filled p empty_buf) ≡ some (1, 0, 0)
unfolding time_of
time_in-filled_short p h =
    time_in_bytes (filled p empty_buf) 0 0 0 0 (zero_behind p 40 48 h (omega arith))
      (zero_behind p 41 48 (omega (arith, h)) (omega arith))
      (zero_behind p 42 48 (omega (arith, h)) (omega arith))
      (zero_behind p 43 48 (omega (arith, h)) (omega arith))

-- With a slot and a pcb to be had, the lock free and the name of the server resolved to an
-- address that is not 0 as an OCaml integer, whatever lwIP answers to the bind and to the
-- question, and whatever its other callbacks do while the name is resolved, as long as each
-- returns and leaves the new socket open with nothing received. When nothing comes before the
-- first `j` reads, at most 1000, and then a datagram of 48 bytes, `ntp_query` returns the time in
-- its bytes 40 to 43; when none ever comes, it returns `None`. Either way it ends, and the slot
-- is free again, with no buffer or pcb.
pub ntp_query-answered :
    (w : World) (i j : ℕ) (n : Net) (others : Others) (d : Incoming) (rest : List (List Incoming))
    (h a : ℕ) (b : List ℕ) (b0 b1 b2 b3 : ℕ)
    → HasRoom w n i
    → n.net_lock ≡ false
    → w.malloc_result n.trace max_recv_buffer ≡ some b
    → w.udp_new_result (allocated w n i) ≡ some h
    → ((t : Trace) → resolved w (w.lookup_result t) ≡ some a)
    → a % 2 ^ 31 ≢ 0
    → AllKeep (λ m. Listens m i []) others
    → j ≤ 1000
    → length d.bytes ≡ 48
    → get_elem? d.bytes 40 ≡ some b0
    → get_elem? d.bytes 41 ≡ some b1
    → get_elem? d.bytes 42 ≡ some b2
    → get_elem? d.bytes 43 ≡ some b3
    → ((n' : Net) × (ntp_query w others (replicate j [] ++ (d ∷ []) ∷ rest) n
          ≡ some (some (time_of b0 b1 b2 b3), n'))
        × IsFree n' i)
      × ((n' : Net) × (ntp_query w others [] n ≡ some (none, n')) × IsFree n' i)
ntp_query-answered w i j n others d rest h a b b0 b1 b2 b3 room unlocked memory pcb found address
      keep few size at0 at1 at2 at3 =
    let (n', e, free) =
      ntp_query-ends w i (replicate j [] ++ (d ∷ []) ∷ rest) true (filled d.bytes empty_buf)
        (answers i j d rest few (omega (arith, size)) (omega (arith, size))) n others h a b room
        unlocked memory pcb found address keep in
    let time : time_in (filled d.bytes empty_buf) ≡ some (time_of b0 b1 b2 b3) =
      ap time_in (filled-whole d.bytes size) ∙ time_in_bytes d.bytes b0 b1 b2 b3 at0 at1 at2 at3 in
    (
      (n', e ∙ ap (λ t. some (t, n')) time, free),
      ntp_query-ends w i [] false empty_buf (silence i) n others h a b room unlocked memory pcb
          found address keep,
    )

-- With a slot and a pcb to be had, the lock free and the name of the server resolved to an
-- address that is not 0 as an OCaml integer, and other callbacks of lwIP that return and leave
-- the new socket open with nothing received while the name is resolved: when nothing comes before
-- the first `j` reads, at most 1000, and then a datagram of at least one byte and at most 40,
-- `ntp_query` takes it for an answer and returns one o'clock, whatever is in it.
pub ntp_query_short :
    (w : World) (i j : ℕ) (n : Net) (others : Others) (d : Incoming) (rest : List (List Incoming))
    (h a : ℕ) (b : List ℕ)
    → HasRoom w n i
    → n.net_lock ≡ false
    → w.malloc_result n.trace max_recv_buffer ≡ some b
    → w.udp_new_result (allocated w n i) ≡ some h
    → ((t : Trace) → resolved w (w.lookup_result t) ≡ some a)
    → a % 2 ^ 31 ≢ 0
    → AllKeep (λ m. Listens m i []) others
    → j ≤ 1000
    → 0 < length d.bytes
    → length d.bytes ≤ 40
    → (n' : Net) × (ntp_query w others (replicate j [] ++ (d ∷ []) ∷ rest) n
        ≡ some (some (1, 0, 0), n'))
      × IsFree n' i
ntp_query_short w i j n others d rest h a b room unlocked memory pcb found address keep few
      some_bytes short =
    let (n', e, free) =
      ntp_query-ends w i (replicate j [] ++ (d ∷ []) ∷ rest) true (filled d.bytes empty_buf)
        (answers i j d rest few some_bytes (omega arith)) n others h a b room unlocked memory pcb
        found address keep in
    (n', e ∙ ap (λ t. some (t, n')) (time_in-filled_short d.bytes short), free)
