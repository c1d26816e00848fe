-- ===== src/Net/Tcp/Cores/Safety.antt =====
-- No byte is lost, doubled or moved between the two cores.
use pico_ocaml.Prelude.{
  subst, ℕ, ◌≡◌, refl, sym, ap, ◌∙◌, Bool, true, false, ◌&&◌, ◌||◌, some, List, [], ◌++◌,
  append_assoc, arith, length, take, ltb, if◌then◌else◌,
}
use pico_ocaml.Net.State.{Socket}
use pico_ocaml.Net.Tcp.{append_bytes, take_bytes}
use pico_ocaml.Net.Buffer.{received, IsLive}
use pico_ocaml.Net.Tcp.Stream.{accept-Appended, yield-Taken}
use pico_ocaml.Net.Tcp.Cores.{Writer, Reader, Cores, to_copy, to_read, Step, start, Reach}

-- who is in the section
abbrev pub writes : Writer → Bool
writes (Writer.entered p) = true
writes (Writer.loaded p s) = true
writes Writer.leaving = true
writes _ = false

abbrev pub reads : Reader → Bool
reads (Reader.entered n) = true
reads (Reader.loaded n s) = true
reads Reader.leaving = true
reads _ = false

-- What was read of the socket still holds.
abbrev WriterKnows : Socket → Writer → Type 0
WriterKnows sock (Writer.loaded p s) = s ≡ sock
WriterKnows sock _ = Unit {0}

abbrev ReaderKnows : Socket → Reader → Type 0
ReaderKnows sock (Reader.loaded n s) = s ≡ sock
ReaderKnows sock _ = Unit {0}

record IsFlow (c : Cores) : Type 0 where
  pub live : IsLive c.sock
  pub flow : c.stored ≡ c.returned ++ received c.sock
  pub lock_set : c.net_lock ≡ writes c.writer || reads c.reader
  pub apart : writes c.writer && reads c.reader ≡ false
  pub written : WriterKnows c.sock c.writer
  pub known : ReaderKnows c.sock c.reader

outside-ReaderKnows : (sock : Socket) (r : Reader) → reads r ≡ false → ReaderKnows sock r
outside-ReaderKnows sock Reader.idle h = tt
outside-ReaderKnows sock (Reader.waiting n) h = tt
outside-ReaderKnows sock (Reader.entered n) h = tt
outside-ReaderKnows sock (Reader.loaded n s) h = cc
outside-ReaderKnows sock Reader.leaving h = tt

outside-WriterKnows : (sock : Socket) (w : Writer) → writes w ≡ false → WriterKnows sock w
outside-WriterKnows sock Writer.idle h = tt
outside-WriterKnows sock (Writer.waiting p) h = tt
outside-WriterKnows sock (Writer.entered p) h = tt
outside-WriterKnows sock (Writer.loaded p s) h = cc
outside-WriterKnows sock Writer.leaving h = tt

start-IsFlow : (s : Socket) → IsLive s → IsFlow (start s)
start-IsFlow s v = record {
  live = v;
  flow = refl;
  lock_set = refl;
  apart = refl;
  written = tt;
  known = tt;
}

-- The writer's move to a place in or out of the section, with the socket as it is.
writer_moves :
    (c : Cores) (w : Writer) (l : Bool)
    → IsFlow c
    → l ≡ writes w || reads c.reader
    → writes w && reads c.reader ≡ false
    → WriterKnows c.sock w
    → IsFlow (record c { writer = w; net_lock = l })
writer_moves c w l v held apart knows = record {
  live = v.live;
  flow = v.flow;
  lock_set = held;
  apart = apart;
  written = knows;
  known = v.known;
}

reader_moves :
    (c : Cores) (r : Reader) (l : Bool)
    → IsFlow c
    → l ≡ writes c.writer || reads r
    → writes c.writer && reads r ≡ false
    → ReaderKnows c.sock r
    → IsFlow (record c { reader = r; net_lock = l })
reader_moves c r l v held apart knows = record {
  live = v.live;
  flow = v.flow;
  lock_set = held;
  apart = apart;
  written = v.written;
  known = knows;
}

some_same : {A : Type 0} {x y : A} → some x ≡ some y → x ≡ y
some_same e = cc e

-- The store of the callback: what its copy of the socket holds and the bytes that fit.
store-IsFlow :
    (c : Cores) (p : List ℕ) (s s' : Socket)
    → IsFlow c
    → c.writer ≡ Writer.loaded p s
    → (if ltb 0 (to_copy s (length p))
        then append_bytes s (take (to_copy s (length p)) p)
        else some s)
      ≡ some s'
    → IsFlow (record c {
      writer = Writer.leaving;
      sock = s';
      stored = c.stored ++ take (to_copy s (length p)) p;
    })
store-IsFlow c p s s' v at e =
    let same : s ≡ c.sock = subst (WriterKnows c.sock) at v.written in
    let (s1, e1, a, k) = accept-Appended s p (subst IsLive (sym same) v.live) in
    let done : s1 ≡ s' = some_same (sym e1 ∙ e) in
    record {
      live = subst IsLive done a.live;
      flow =
          ap (λ x. x ++ take (to_copy s (length p)) p) v.flow
          ∙ append_assoc c.returned (received c.sock) (take (to_copy s (length p)) p)
          ∙ ap (λ x. c.returned ++ x)
              (ap (λ x. received x ++ take (to_copy s (length p)) p) (sym same)
                ∙ ap (λ n. received s ++ take n p) k
                ∙ sym a.bytes
                ∙ ap received done);
      lock_set = ground (arith, at, v.lock_set);
      apart = ground (arith, at, v.apart);
      written = tt;
      known = outside-ReaderKnows s' c.reader (ground (arith, at, v.apart));
    }

read_store-IsFlow :
    (c : Cores) (n : ℕ) (s : Socket) (out : List ℕ) (s' : Socket)
    → IsFlow c
    → c.reader ≡ Reader.loaded n s
    → (if ltb 0 (to_read s n) then take_bytes s (to_read s n) else some ([], s)) ≡ some (out, s')
    → IsFlow (record c { reader = Reader.leaving; sock = s'; returned = c.returned ++ out })
read_store-IsFlow c n s out s' v at e =
    let same : s ≡ c.sock = subst (ReaderKnows c.sock) at v.known in
    let (out1, s1, e1, t) = yield-Taken s n (subst IsLive (sym same) v.live) in
    let done : ◌≡◌ {A = List ℕ × Socket} (out1, s1) (out, s') = some_same (sym e1 ∙ e) in
    record {
      live = subst IsLive (ap (λ q. q.1) done) t.live;
      flow =
          v.flow
          ∙ ap (λ x. c.returned ++ received x) (sym same)
          ∙ ap (λ x. c.returned ++ x) (t.bytes ∙ ap (λ q. q.0 ++ received q.1) done)
          ∙ sym (append_assoc c.returned out (received s'));
      lock_set = ground (arith, at, v.lock_set);
      apart = ground (arith, at, v.apart);
      written = outside-WriterKnows s' c.writer (ground (arith, at, v.apart));
      known = tt;
    }

Step-IsFlow : {c d : Cores} → Step c d → IsFlow c → IsFlow d
Step-IsFlow {c} (Step.call p at) v =
    writer_moves c (Writer.waiting p) c.net_lock v (ground (arith, at, v.lock_set)) (ground arith)
      tt
Step-IsFlow {c} (Step.acquire p at free) v =
    writer_moves c (Writer.entered p) true v refl (ground (arith, at, free, v.lock_set)) tt
Step-IsFlow {c} (Step.load p at) v =
    writer_moves c (Writer.loaded p c.sock) c.net_lock v (ground (arith, at, v.lock_set))
      (ground (arith, at, v.apart)) refl
Step-IsFlow {c} (Step.store p s s' at e) v = store-IsFlow c p s s' v at e
Step-IsFlow {c} (Step.release at) v =
    writer_moves c Writer.idle false v (ground (arith, at, v.apart)) refl tt
Step-IsFlow {c} (Step.read_call n at) v =
    reader_moves c (Reader.waiting n) c.net_lock v (ground (arith, at, v.lock_set)) (ground arith)
      tt
Step-IsFlow {c} (Step.read_acquire n at free) v =
    reader_moves c (Reader.entered n) true v (ground arith) (ground (arith, at, free, v.lock_set))
      tt
Step-IsFlow {c} (Step.read_load n at) v =
    reader_moves c (Reader.loaded n c.sock) c.net_lock v (ground (arith, at, v.lock_set))
      (ground (arith, at, v.apart)) refl
Step-IsFlow {c} (Step.read_store n s out s' at e) v = read_store-IsFlow c n s out s' v at e
Step-IsFlow {c} (Step.read_release at) v =
    reader_moves c Reader.idle false v (ground (arith, at, v.apart)) (ground arith) tt

Reach-IsFlow : {s : Socket} {c : Cores} → IsLive s → Reach s c → IsFlow c
Reach-IsFlow {s} v Reach.here = start-IsFlow s v
Reach-IsFlow v (Reach.later r st) = Step-IsFlow st (Reach-IsFlow v r)

-- From a socket that has its buffer, in every state that the steps of the two cores lead to: the
-- two are not in their sections at once; the buffer is there; the bytes it held at first and
-- those that `tcp_recv_callback` put into it are those that `pico_tcp_read` took out followed by
-- those still in it, in order; and the core that has read the socket can write it, by no access
-- through NULL or outside the buffer.
pub cores_safe :
    {s : Socket} {c : Cores}
    → IsLive s
    → Reach s c
    → (writes c.writer && reads c.reader ≡ false)
      × IsLive c.sock
      × (c.stored ≡ c.returned ++ received c.sock)
      × ((p : List ℕ) (t : Socket)
          → c.writer ≡ Writer.loaded p t
          → (d : Cores) × Step c d × (d.writer ≡ Writer.leaving))
      × ((n : ℕ) (t : Socket)
          → c.reader ≡ Reader.loaded n t
          → (d : Cores) × Step c d × (d.reader ≡ Reader.leaving))
cores_safe {s} {c} v r =
    let f = Reach-IsFlow v r in
    (
      f.apart,
      f.live,
      f.flow,
      (λ p t at.
          let same : t ≡ c.sock = subst (WriterKnows c.sock) at f.written in
          let (t', e, a, k) = accept-Appended t p (subst IsLive (sym same) f.live) in
          (_, Step.store p t t' at e, refl)),
      λ n t at.
          let same : t ≡ c.sock = subst (ReaderKnows c.sock) at f.known in
          let (out, t', e, g) = yield-Taken t n (subst IsLive (sym same) f.live) in
          (_, Step.read_store n t out t' at e, refl),
    )
