-- ===== src/Pio/Blocking.antt =====
-- net.ml, the read of `run`, which waits in a loop of its own.
use pico_ocaml.Prelude.{
  ℕ, zero, suc, ◌≤◌, ◌<◌, ◌≡◌, some, List, [], ◌∷◌, ◌++◌, length, replicate, arith, if◌then◌else◌,
}
use pico_ocaml.Prelude.Int.{pos}
use pico_ocaml.Prelude.Value.{val_int}
use pico_ocaml.Net.World.{World}
use pico_ocaml.Net.State.{Net, M, pure, ◌>>=◌, ◌>>◌, eq_ℤ, minus_two}
use pico_ocaml.Net.Tcp.Pipe.{Pipe}
use pico_ocaml.Net.Stubs.{val_of, ocaml_tcp_read}
use pico_ocaml.Pio.{Outcome, int_of, is_positive, service_network}
use pico_ocaml.Pio.Reads.{Holds, service-Holds, read-Holds, deliver, deliver-Holds, arrive_all}

abbrev head_of : List (List (List ℕ)) → List (List ℕ)
head_of [] = []
head_of (ps ∷ rest) = ps

abbrev tail_of : List (List (List ℕ)) → List (List (List ℕ))
tail_of [] = []
tail_of (ps ∷ rest) = rest

-- `recv_loop` with `left` rounds to go after this one. `rs` is what arrives before each round, and
-- nothing after its end.
pub recv_loop : World → ℕ → (tpcb : ℕ) → (left : ℕ) → (rs : List (List (List ℕ))) → M Outcome
recv_loop w i tpcb zero rs = do
  deliver w i tpcb (head_of rs)
  service_network
  (v, out) ← ocaml_tcp_read (val_of (pos i)) (val_int 4096)
  pure (
      if is_positive (int_of v)
      then Outcome.received out
      else if eq_ℤ (int_of v) minus_two
      then Outcome.socket_closed
      else Outcome.read_timeout)
recv_loop w i tpcb (suc left) rs = do
  deliver w i tpcb (head_of rs)
  service_network
  (v, out) ← ocaml_tcp_read (val_of (pos i)) (val_int 4096)
  let again = recv_loop w i tpcb left (tail_of rs)
  if is_positive (int_of v)
      then pure (Outcome.received out)
      else if eq_ℤ (int_of v) minus_two
      then pure Outcome.socket_closed
      else again

module _ (w : World) (i tpcb : ℕ) where
  -- Deliveries, the service of the network and a read that gets all.
  one_read :
      (ps : List (List ℕ)) (q : Pipe) (n : Net)
      → Holds n i q
      → (n1 n2 n3 : Net) × (deliver w i tpcb ps n ≡ some (tt, n1))
        × (service_network n1 ≡ some (tt, n2))
        × (ocaml_tcp_read (val_of (pos i)) (val_int 4096) n2
            ≡ some ((val_int (length (arrive_all ps q)), arrive_all ps q), n3))
        × Holds n3 i []
        × (length (arrive_all ps q) ≤ 4096)
  one_read ps q n h =
      let (n1, e1, h1) = deliver-Holds w i tpcb ps q n h in
      let (n2, e2, h2) = service-Holds i (arrive_all ps q) n1 h1 in
      let (n3, e3, h3, small) = read-Holds i (arrive_all ps q) n2 h2 in
      (n1, n2, n3, e1, e2, e3, h3, small)

  gets :
      (left : ℕ) (ps : List (List ℕ)) (rest : List (List (List ℕ))) (n : Net)
      → Holds n i []
      → 0 < length (arrive_all ps [])
      → (n' : Net) × (recv_loop w i tpcb left (ps ∷ rest) n
          ≡ some (Outcome.received (arrive_all ps []), n'))
        × Holds n' i []
  unfolding recv_loop
  gets zero ps rest n h some_bytes =
      let (n1, n2, n3, e1, e2, e3, h3, small) = one_read ps [] n h in
      (n3, ground (arith, e1, e2, e3), h3)
  gets (suc left) ps rest n h some_bytes =
      let (n1, n2, n3, e1, e2, e3, h3, small) = one_read ps [] n h in
      (n3, ground (arith, e1, e2, e3), h3)

  -- An open TCP socket has received nothing, and nothing comes before the first `j` rounds of the
  -- loop, after which it has one at least to go. What arrives before that, if it is anything, is
  -- what the loop returns, as far as the buffer had room, and the buffer is empty afterwards.
  pub recv_loop-received :
      (j : ℕ) (left : ℕ) (ps : List (List ℕ)) (rest : List (List (List ℕ))) (n : Net)
      → Holds n i []
      → j ≤ left
      → 0 < length (arrive_all ps [])
      → (n' : Net) × (recv_loop w i tpcb left (replicate j [] ++ ps ∷ rest) n
          ≡ some (Outcome.received (arrive_all ps []), n'))
        × Holds n' i []
  unfolding recv_loop arrive_all
  recv_loop-received zero left ps rest n h few some_bytes = gets left ps rest n h some_bytes
  recv_loop-received (suc j) zero ps rest n h few some_bytes = absurd (omega arith)
  recv_loop-received (suc j) (suc left) ps rest n h few some_bytes =
      let (n1, n2, n3, e1, e2, e3, h3, small) = one_read [] [] n h in
      let (n', e', h') = recv_loop-received j left ps rest n3 h3 (omega arith) some_bytes in
      (n', ground (arith, e1, e2, e3, e'), h')
