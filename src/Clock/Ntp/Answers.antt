-- ===== src/Clock/Ntp/Answers.antt =====
-- What `ntp_query` returns when the answer comes after some rounds, and when none comes.
use pico_ocaml.Net.Dns.{Others}
use pico_ocaml.Prelude.{
  ℕ, zero, suc, ◌≤◌, ◌<◌, ◌≡◌, ◌≢◌, refl, true, false, Bool, none, some, List, [], ◌∷◌, ◌++◌,
  length, replicate, ◌%◌, ◌^◌, arith, if◌then◌else◌,
}
use pico_ocaml.Prelude.Int.{pos}
use pico_ocaml.Prelude.Value.{val_int}
use pico_ocaml.Net.World.{World, Trace}
use pico_ocaml.Net.State.{max_sockets, max_recv_buffer, Net, eq_ℤ}
use pico_ocaml.Net.Create.{HasRoom, allocated, after_udp_create, pico_udp_create-ok}
use pico_ocaml.Net.Dns.Wait.{resolved, AllKeep}
use pico_ocaml.Net.Stubs.{val_of, ocaml_udp_create, ocaml_udp_recvfrom}
use pico_ocaml.Pio.{int_of, is_negative, service_network}
use pico_ocaml.Clock.Ntp.{
  Incoming, come, filled, recv_loop, time_in, ntp_host, packet, empty_buf, ask_server, ntp_query,
}
use pico_ocaml.Clock.Ntp.Datagrams.{read-Listens, come-Listens}
use pico_ocaml.Clock.Ntp.Listening.{
  Listens, IsFree, service-Listens, bind-Listens, sendto-Listens, resolve-Listens, close-IsFree,
  created-Listens,
}

module _ (i : ℕ) (buf : List ℕ) (size : length buf ≡ 48) where
  -- A round in which nothing comes.
  quiet_round :
      (n : Net)
      → Listens n i []
      → (n1 n2 : Net) × (service_network n ≡ some (tt, n1))
        × (ocaml_udp_recvfrom (val_of (pos i)) buf n1 ≡ some ((val_int 0, []), n2))
        × Listens n2 i []
  quiet_round n l =
      let (n1, e1, l1) = service-Listens i [] n l in
      let (n2, e2, l2) = read-Listens i [] n1 l1 buf (omega arith) (omega arith) in
      (n1, n2, e1, e2, l2)

  never :
      (left : ℕ) (n : Net)
      → Listens n i []
      → (n' : Net) × (recv_loop (val_of (pos i)) left [] buf n ≡ some ((false, buf), n'))
        × Listens n' i []
  unfolding recv_loop come
  never zero n l = let (n1, n2, e1, e2, l2) = quiet_round n l in (n2, ground (arith, e1, e2), l2)
  never (suc left) n l =
      let (n1, n2, e1, e2, l2) = quiet_round n l in
      let (n', e', l') = never left n2 l2 in (n', ground (arith, e1, e2, e'), l')

  module _ (d : Incoming) (rest : List (List Incoming)) (some_bytes : 0 < length d.bytes)
      (fits : length d.bytes ≤ 48) where
    at_once :
        (left : ℕ) (n : Net)
        → Listens n i []
        → (n' : Net) × (recv_loop (val_of (pos i)) left ((d ∷ []) ∷ rest) buf n
            ≡ some ((true, filled d.bytes buf), n'))
          × Listens n' i []
    unfolding recv_loop
    at_once zero n l =
        let (n1, e1, l1) = come-Listens i n d l some_bytes (omega (arith, fits)) in
        let (n2, e2, l2) = service-Listens i d.bytes n1 l1 in
        let (n3, e3, l3) = read-Listens i d.bytes n2 l2 buf (omega (arith, size)) (omega arith) in
        (n3, ground (arith, e1, e2, e3), l3)
    at_once (suc left) n l =
        let (n1, e1, l1) = come-Listens i n d l some_bytes (omega (arith, fits)) in
        let (n2, e2, l2) = service-Listens i d.bytes n1 l1 in
        let (n3, e3, l3) = read-Listens i d.bytes n2 l2 buf (omega (arith, size)) (omega arith) in
        (n3, ground (arith, e1, e2, e3), l3)

    after_rounds :
        (j left : ℕ) (n : Net)
        → j ≤ left
        → Listens n i []
        → (n' : Net) × (recv_loop (val_of (pos i)) left (replicate j [] ++ (d ∷ []) ∷ rest) buf n
            ≡ some ((true, filled d.bytes buf), n'))
          × Listens n' i []
    unfolding recv_loop come
    after_rounds zero left n h l = at_once left n l
    after_rounds (suc j) zero n h l = absurd (omega arith)
    after_rounds (suc j) (suc left) n h l =
        let (n1, n2, e1, e2, l2) = quiet_round n l in
        let (n', e', l') = after_rounds j left n2 (omega arith) l2 in
        (n', ground (arith, e1, e2, e'), l')

is_address : (a : ℕ) → a % 2 ^ 31 ≢ 0 → eq_ℤ (int_of (val_int a)) (pos 0) ≡ false
is_address a h = ground (arith, h)

is_socket : (i : ℕ) → i < max_sockets → is_negative (int_of (val_of (pos i))) ≡ false
is_socket i h = ground arith

-- The wait for the answer comes to an end, with `got` and `buf`, whenever it begins with nothing
-- received.
pub Waits : (i : ℕ) (rs : List (List Incoming)) (got : Bool) (buf : List ℕ) → Type 0
Waits i rs got buf =
    (n : Net)
    → Listens n i []
    → (n' : Net) × (recv_loop (val_of (pos i)) 1000 rs empty_buf n ≡ some ((got, buf), n'))
      × Listens n' i []

module _ (w : World) (i : ℕ) (rs : List (List Incoming)) (got : Bool) (buf : List ℕ)
    (waits : Waits i rs got buf) where
  ask_server-ends :
      (ip : ℕ) (n : Net)
      → Listens n i []
      → (n' : Net) × (ask_server w (val_of (pos i)) ip rs n
          ≡ some ((if got then time_in buf else none), n'))
        × Listens n' i []
  unfolding ask_server Waits
  ask_server-ends ip n l =
      let (r, n1, e1, l1) =
        sendto-Listens i [] n l w ip (val_int 123) packet (val_int 48) (omega arith) in
      let (n2, e2, l2) = service-Listens i [] n1 l1 in
      let (n3, e3, l3) = waits n2 l2 in (n3, ground (arith, e1, e2, e3), l3)

  pub ntp_query-ends :
      (n : Net) (others : Others) (h a : ℕ) (b : List ℕ)
      → HasRoom w n i
      → n.net_lock ≡ false
      → w.malloc_result n.trace max_recv_buffer ≡ some b
      → w.udp_new_result (allocated w n i) ≡ some h
      → ((t : Trace) → resolved w (w.lookup_result t) ≡ some a)
      → a % 2 ^ 31 ≢ 0
      → AllKeep (λ m. Listens m i []) others
      → (n' : Net) × (ntp_query w others rs n ≡ some ((if got then time_in buf else none), n'))
        × IsFree n' i
  unfolding ntp_query ocaml_udp_create
  ntp_query-ends n others h a b room unlocked memory pcb found some_address keep =
      let created = pico_udp_create-ok w n i b h room memory pcb in
      let l0 = created-Listens w i n b h room unlocked memory in
      let (r, n1, e1, l1) = bind-Listens i [] (after_udp_create w n i b h) l0 w (val_int 0) in
      let (n2, e2, l2) = resolve-Listens i [] n1 l1 w others a ntp_host keep found in
      let (n3, e3, l3) = ask_server-ends (val_int a) n2 l2 in
      let (u, n4, e4, free) = close-IsFree i [] n3 l3 in
      (
        n4,
        ground
            (arith, created, e1, e2, e3, e4, is_address a some_address, is_socket i l0.opened.slot),
        free,
      )

pub answers :
    (i j : ℕ) (d : Incoming) (rest : List (List Incoming))
    → j ≤ 1000
    → 0 < length d.bytes
    → length d.bytes ≤ 48
    → Waits i (replicate j [] ++ (d ∷ []) ∷ rest) true (filled d.bytes empty_buf)
unfolding Waits
answers i j d rest few some_bytes fits n l =
    after_rounds i empty_buf refl d rest some_bytes fits j 1000 n few l

pub silence : (i : ℕ) → Waits i [] false empty_buf
unfolding Waits
silence i n l = never i empty_buf refl 1000 n l
