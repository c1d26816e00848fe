-- ===== src/Net/Tcp/Flow.antt =====
-- The receive side of an open TCP socket refines the pipe of the bytes received.
use pico_ocaml.Prelude.{
  ℕ, ◌-◌, ◌≡◌, refl, sym, ap, ◌∙◌, some, List, [], ◌∷◌, ◌++◌, arith, length, take, drop,
  take-append_length, drop-append_length,
}
use pico_ocaml.Prelude.Int.{pos}
use pico_ocaml.Net.World.{World}
use pico_ocaml.Net.State.{Proto, Socket, Net, M, pure, ◌>>=◌, max_recv_buffer, lesser}
use pico_ocaml.Net.Tcp.{tcp_recv_callback, pico_tcp_read}
use pico_ocaml.Net.Buffer.{length-received, received, IsLive, Appended, Taken}
use pico_ocaml.Net.Tcp.Pipe
use pico_ocaml.Net.Tcp.Pipe.{Action, arrive, read}
use pico_ocaml.Net.Tcp.Stream.{
  fitting, IsOpen, IsOpen-after, tcp_recv_callback_lem, after_segment, pico_tcp_read_lem,
}

-- lwIP's callbacks for a socket and OCaml's reads of it, in order, with the bytes of each read.
pub session : World → ℕ → (tpcb : ℕ) → List Action → M (List (List ℕ))
session w i tpcb [] = pure []
session w i tpcb (arrive p ∷ acts) = do
  code ← tcp_recv_callback w (pos i) tpcb (some p) w.err_ok
  session w i tpcb acts
session w i tpcb (read max_len ∷ acts) = do
  (code, out) ← pico_tcp_read (pos i) max_len
  rest ← session w i tpcb acts
  pure (out ∷ rest)

pub received-arrives :
    (s s' : Socket) (p : List ℕ)
    → IsLive s
    → Appended s (take (fitting s (length p)) p) s'
    → received s' ≡ Pipe.arrives p (received s)
unfolding Pipe.arrives
received-arrives s s' p v a =
    a.bytes
    ∙ ap (λ k. received s ++ take (lesser (length p) (max_recv_buffer - k)) p)
        (sym (length-received s v))

pub received-reads :
    (s s' : Socket) (max_len : ℕ) (out : List ℕ)
    → IsLive s
    → Taken s (lesser s.recv_len max_len) out s'
    → (out, received s') ≡ Pipe.reads max_len (received s)
unfolding Pipe.reads
received-reads s s' max_len out v t = λ i. (taken i, left i)
  where
    amount : lesser (length (received s)) max_len ≡ length out
    amount = ap (λ k. lesser k max_len) (length-received s v) ∙ sym t.count

    taken : out ≡ take (lesser (length (received s)) max_len) (received s)
    taken = rw (amount, t.bytes) (sym (take-append_length out (received s')))

    left : received s' ≡ drop (lesser (length (received s)) max_len) (received s)
    left = rw (amount, t.bytes) (sym (drop-append_length out (received s')))

-- No sequence of segments and reads tells an open TCP socket from the pipe of its bytes: no call
-- goes wrong, and the reads return the same bytes.
pub session_refines :
    (w : World) (i tpcb : ℕ) (acts : List Action) {n : Net} {s : Socket}
    → IsOpen n i s
    → s.proto ≡ Proto.tcp
    → (n' : Net) × (session w i tpcb acts n ≡ some (Pipe.run (received s) acts, n'))
unfolding session Pipe.run
session_refines w i tpcb [] {n} o e = (n, refl)
session_refines w i tpcb (arrive p ∷ acts) {n} {s} o e =
    let (s', r, a) = tcp_recv_callback_lem n i s w tpcb p o in
    let o' =
      IsOpen-after n i s s' (after_segment n i s s' tpcb p).queue
        (after_segment n i s s' tpcb p).trace o a.live in
    let (n', q) = session_refines w i tpcb acts o' (a.same.proto ∙ e) in
    (n', ground (arith, r, q, received-arrives s s' p o.live a))
session_refines w i tpcb (read max_len ∷ acts) {n} {s} o e =
    let (out, s', r, t) = pico_tcp_read_lem n i s max_len o e in
    let o' = IsOpen-after n i s s' n.queue n.trace o t.live in
    let (n', q) = session_refines w i tpcb acts o' (t.same.proto ∙ e) in
    (n', ground (arith, r, q, received-reads s s' max_len out o.live t))
