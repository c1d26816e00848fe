-- ===== src/Net/State.antt =====
-- The state of net_stubs.c, and the monad in which its functions run.
use pico_ocaml.Prelude.{
  ℕ, ◌+◌, ◌-◌, ◌%◌, ◌^◌, Bool, true, false, Option, none, some, List, [], ◌∷◌, ◌++◌, get_elem?, set,
  replicate, take, drop, length, ltb, leb, ◌==◌, if◌then◌else◌, ◌≡◌,
}
use pico_ocaml.Prelude.Int.{ℤ, pos, negsuc, of_word}
use pico_ocaml.Queue.{Event, EventQueue, empty_queue, event_enqueue}
use pico_ocaml.Net.World.{Call, Trace}
use mathlib.Core.Option

-- MAX_SOCKETS and MAX_RECV_BUFFER
abbrev pub max_sockets : ℕ
max_sockets = 8

abbrev pub max_recv_buffer : ℕ
max_recv_buffer = 4096

-- `socket_state_t`
pub data SocketState : Type 0 where
  closed connecting connected listening failed : SocketState

-- `socket_proto_t`
pub data Proto : Type 0 where
  tcp udp : Proto

abbrev pub is_closed : SocketState → Bool
is_closed SocketState.closed = true
is_closed _ = false

abbrev pub is_connected : SocketState → Bool
is_connected SocketState.connected = true
is_connected _ = false

abbrev pub is_tcp : Proto → Bool
is_tcp Proto.tcp = true
is_tcp Proto.udp = false

-- `socket_t`. `pcb` is the union of the two pcb pointers, `none` for NULL. `recv_buf` is the whole
-- block that malloc returned; its first `recv_len` bytes are received data.
pub record Socket : Type 0 where
  pub proto : Proto
  pub state : SocketState
  pub pcb : Option ℕ
  pub recv_buf : Option (List ℕ)
  pub recv_len : ℕ
  pub recv_capacity : ℕ
  pub udp_src_ip : ℕ
  pub udp_src_port : ℕ

-- `memset(&sockets[i], 0, sizeof(socket_t))`
abbrev pub zero_socket : Socket
zero_socket = record {
  proto = Proto.tcp;
  state = SocketState.closed;
  pcb = none;
  recv_buf = none;
  recv_len = 0;
  recv_capacity = 0;
  udp_src_ip = 0;
  udp_src_port = 0;
}

-- The static variables, with the calls made so far.
pub record Net : Type 0 where
  pub sockets : List Socket
  pub queue : EventQueue
  pub net_lock : Bool
  pub net_initialized : Bool
  pub dns_done : Bool
  pub dns_result_ip : ℕ
  pub trace : Trace

abbrev pub boot : Net
boot = record {
  sockets = replicate max_sockets zero_socket;
  queue = empty_queue;
  net_lock = false;
  net_initialized = false;
  dns_done = false;
  dns_result_ip = 0;
  trace = [];
}

-- `none` is a run that goes wrong: an access through NULL or outside an array, or a lock that is
-- waited for in vain.
abbrev pub M : Type 0 → Type 0
M A = Net → Option (A × Net)

abbrev pub pure : {A : Type 0} → A → M A
pure a n = some (a, n)

infixl 5 ◌>>=◌ ◌>>◌
abbrev pub ◌>>=◌ : {A B : Type 0} → M A → (A → M B) → M B
◌>>=◌ m f n = elim (m n) [ none ↦ none | some (a, n') ↦ f a n' ]

abbrev pub ◌>>◌ : {B : Type 0} → M (Unit {0}) → M B → M B
m >> k = m >>= λ _. k

-- `sockets[i]`, read and written
unfoldable pub load : ℕ → M Socket
load i n = Option.map (λ s. (s, n)) (get_elem? n.sockets i)

unfoldable pub store : ℕ → Socket → M (Unit {0})
store i s n = some (tt, record n { sockets = set n.sockets i s })

-- A call of the outside world, and one whose result is used.
unfoldable pub call : Call → M (Unit {0})
call c n = some (tt, record n { trace = c ∷ n.trace })

unfoldable pub ask : {A : Type 0} → Call → (Trace → A) → M A
ask c result n = some (result n.trace, record n { trace = c ∷ n.trace })

-- `event_enqueue(&evt)`, its result ignored: an event that does not fit is dropped.
unfoldable pub enqueue : Event → M (Unit {0})
enqueue e n = some (tt, record n { queue = (event_enqueue e n.queue).1 })

-- `net_lock_acquire` spins while the lock is set. Within one function nobody else runs on this
-- core, so a lock that is set stays set.
unfoldable pub net_lock_acquire : M (Unit {0})
net_lock_acquire n = elim n.net_lock [
  | true ↦ none
  | false ↦ some (tt, record n { net_lock = true })
]

unfoldable pub net_lock_release : M (Unit {0})
net_lock_release n = some (tt, record n { net_lock = false })

abbrev pub lift : {A : Type 0} → Option A → M A
lift o n = Option.map (λ a. (a, n)) o

-- `memcpy` into a block at an offset, and out of its front
abbrev pub write_at : ℕ → List ℕ → List ℕ → Option (List ℕ)
write_at off bytes block =
    if leb (off + length bytes) (length block)
    then some (take off block ++ (bytes ++ drop (off + length bytes) block))
    else none

abbrev pub read_front : ℕ → List ℕ → Option (List ℕ)
read_front n block = if leb n (length block) then some (take n block) else none

-- `size_t` subtraction on the 32-bit target
abbrev pub sub_size : ℕ → ℕ → ℕ
sub_size a b = (a + 2 ^ 32 - b) % 2 ^ 32

-- A `size_t` as lwIP's `u16_t`, and as an `int`
abbrev pub as_u16 : ℕ → ℕ
as_u16 n = n % 2 ^ 16

abbrev pub as_int : ℕ → ℤ
as_int n = of_word (n % 2 ^ 32)

-- `(a < b) ? a : b`
abbrev pub lesser : ℕ → ℕ → ℕ
lesser a b = if ltb a b then a else b

-- `if (sock_id < 0 || sock_id >= MAX_SOCKETS) …`
abbrev pub with_slot : {A : Type 0} → ℤ → M A → (ℕ → M A) → M A
with_slot (pos i) bad k = if ltb i max_sockets then k i else bad
with_slot (negsuc i) bad k = bad

abbrev pub minus_one : ℤ
minus_one = negsuc 0

abbrev pub minus_two : ℤ
minus_two = negsuc 1

-- equality of two `int`s
abbrev pub eq_ℤ : ℤ → ℤ → Bool
eq_ℤ (pos a) (pos b) = a == b
eq_ℤ (negsuc a) (negsuc b) = a == b
eq_ℤ _ _ = false

-- A step that goes well hands its result to the rest.
pub bind-some :
    {A B : Type 0} (m : M A) (f : A → M B) {n n' : Net} {a : A}
    → m n ≡ some (a, n')
    → (m >>= f) n ≡ f a n'
bind-some m f {n} {n'} {a} e = rw (e, ◌>>=◌)

pub load_lem :
    (i : ℕ) (n : Net) {s : Socket} → get_elem? n.sockets i ≡ some s → load i n ≡ some (s, n)
unfolding load
load_lem i n e = rw e
