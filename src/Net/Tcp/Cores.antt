-- ===== src/Net/Tcp/Cores.antt =====
-- `tcp_recv_callback` and `pico_tcp_read` on two cores, at one socket: the sections under
-- `net_lock`, in which the one puts bytes into the buffer and the other takes them out, as steps
-- that come in any order. What the two do outside the lock does not touch the buffer.
pub mod Safety
use pico_ocaml.Prelude.{
  ℕ, ◌≡◌, Bool, true, false, some, List, [], ◌++◌, length, take, ltb, if◌then◌else◌,
}
use pico_ocaml.Net.State.{Socket, lesser, sub_size}
use pico_ocaml.Net.Tcp.{append_bytes, take_bytes}
use pico_ocaml.Net.Buffer.{received}

-- Where the callback stands, with the segment's bytes and its copy of the socket's fields.
pub data Writer : Type 0 where
  idle : Writer
  waiting : (p : List ℕ) → Writer  -- in `net_lock_acquire`
  entered : (p : List ℕ) → Writer  -- before it reads the socket
  loaded : (p : List ℕ) (s : Socket) → Writer  -- before it writes the socket
  leaving : Writer  -- before `net_lock_release`

-- Where the read stands, with `max_len`.
pub data Reader : Type 0 where
  idle : Reader
  waiting : (max_len : ℕ) → Reader
  entered : (max_len : ℕ) → Reader
  loaded : (max_len : ℕ) (s : Socket) → Reader
  leaving : Reader

-- `stored` and `returned` are history: the bytes that were put into the buffer and those that
-- were taken out, oldest first.
pub record Cores : Type 0 where
  pub net_lock : Bool
  pub sock : Socket
  pub writer : Writer
  pub reader : Reader
  pub stored : List ℕ
  pub returned : List ℕ

-- how many bytes of `n` the callback copies, and the read of at most `max_len`
abbrev pub to_copy : Socket → ℕ → ℕ
to_copy s n = lesser n (sub_size s.recv_capacity s.recv_len)

abbrev pub to_read : Socket → ℕ → ℕ
to_read s max_len = lesser s.recv_len max_len

pub data Step (c : Cores) : Cores → Type 0 where
  call : (p : List ℕ) → c.writer ≡ Writer.idle → Step c (record c { writer = Writer.waiting p })
  acquire :
      (p : List ℕ)
      → c.writer ≡ Writer.waiting p
      → c.net_lock ≡ false
      → Step c (record c { writer = Writer.entered p; net_lock = true })
  load :
      (p : List ℕ)
      → c.writer ≡ Writer.entered p
      → Step c (record c { writer = Writer.loaded p c.sock })
  store :
      (p : List ℕ) (s s' : Socket)
      → c.writer ≡ Writer.loaded p s
      → (if ltb 0 (to_copy s (length p))
          then append_bytes s (take (to_copy s (length p)) p)
          else some s)
        ≡ some s'
      → Step c (record c {
        writer = Writer.leaving;
        sock = s';
        stored = c.stored ++ take (to_copy s (length p)) p;
      })
  release : c.writer ≡ Writer.leaving → Step c (record c { writer = Writer.idle; net_lock = false })
  read_call :
      (max_len : ℕ) → c.reader ≡ Reader.idle → Step c (record c { reader = Reader.waiting max_len })
  read_acquire :
      (max_len : ℕ)
      → c.reader ≡ Reader.waiting max_len
      → c.net_lock ≡ false
      → Step c (record c { reader = Reader.entered max_len; net_lock = true })
  read_load :
      (max_len : ℕ)
      → c.reader ≡ Reader.entered max_len
      → Step c (record c { reader = Reader.loaded max_len c.sock })
  read_store :
      (max_len : ℕ) (s : Socket) (out : List ℕ) (s' : Socket)
      → c.reader ≡ Reader.loaded max_len s
      → (if ltb 0 (to_read s max_len) then take_bytes s (to_read s max_len) else some ([], s))
        ≡ some (out, s')
      → Step c (record c { reader = Reader.leaving; sock = s'; returned = c.returned ++ out })
  read_release :
      c.reader ≡ Reader.leaving → Step c (record c { reader = Reader.idle; net_lock = false })

-- Nobody is at the socket.
abbrev pub start : Socket → Cores
start s = record {
  net_lock = false;
  sock = s;
  writer = Writer.idle;
  reader = Reader.idle;
  stored = received s;
  returned = [];
}

pub data Reach (s : Socket) : Cores → Type 0 where
  here : Reach s (start s)
  later : {c d : Cores} → Reach s c → Step c d → Reach s d
