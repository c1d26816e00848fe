-- ===== src/Net/Tests.antt =====
-- A world in which everything goes well, and sockets for the theorems on them.
pub mod Streams
pub mod Tables
pub mod Calls
mod Runs
mod Texts
mod Sections
use pico_ocaml.Prelude.{
  ℕ, ◌+◌, ◌≤◌, ◌<◌, ◌≡◌, refl, ◌≢◌, ◌↔◌, ◌⊎◌, true, false, none, some, List, [], ◌∷◌, ◌++◌, arith,
  if◌then◌else◌, is_some, length, set, take, replicate, length-replicate,
}
use pico_ocaml.Prelude.Int.{pos, negsuc}
use pico_ocaml.Prelude.Value.{val_int}
use pico_ocaml.Net.Stubs.{port_of, ocaml_tcp_connect}
use pico_ocaml.Net.Stubs.Values.{address, after_connect, ocaml_tcp_connect-resolved}
use pico_ocaml.Net.Dns.{dns_resolve}
use pico_ocaml.Net.Dns.Wait.{resolved, dns_resolve_lem}
use pico_ocaml.Net.Udp.{udp_recv_callback, pico_udp_recvfrom}
use pico_ocaml.Net.Udp.Datagrams.{pico_udp_recvfrom_lem, udp_recvfrom_merges}
use pico_ocaml.Net.World.{World, Call}
use pico_ocaml.Net.State.{
  max_sockets, max_recv_buffer, SocketState, Proto, Socket, zero_socket, Net, boot, lesser,
  minus_one, ◌>>◌, ◌>>=◌,
}
use pico_ocaml.Net.Socket.{socket_alloc}
use pico_ocaml.Net.Buffer.{received, IsLive, Appended, Taken}
use pico_ocaml.Net.Create.{
  fresh, tcp_socket, HasRoom, after_tcp_create, after_udp_create, tcp_create_twice,
  udp_create_exclusive, socket_alloc-full, pico_tcp_create-no_pcb, udp_socket,
}
use pico_ocaml.Net.Tcp.{tcp_recv_callback, pico_tcp_create, pico_tcp_read, pico_tcp_close}
use pico_ocaml.Net.Udp.{pico_udp_create}
use pico_ocaml.Net.Tcp.Stream.{
  fitting, IsOpen, after_segment, tcp_recv_callback_lem, read_code, pico_tcp_read_lem,
}
use pico_ocaml.Net.Tcp.Pipe
use pico_ocaml.Net.Tcp.Pipe.{arrive, read}
use pico_ocaml.Net.Tcp.Flow.{session, session_refines}
use pico_ocaml.Net.Tcp.Faults.{
  tcp_recv_drops_acknowledged, pico_tcp_close_lem, tcp_read_after_close, after_close,
}

abbrev zeros : ℕ → List ℕ
zeros n = replicate n 0

pub length-zeros : (n : ℕ) → length (zeros n) ≡ n
length-zeros n = length-replicate {A = ℕ} n 0

pub malloc_size : (n : ℕ) (b : List ℕ) → some (zeros n) ≡ some b → length b ≡ n
malloc_size n b e = ground (arith, length-zeros n)

-- Memory is never short; a pcb is named by the number of calls before it. `tcp_new` gives none
-- once eight calls have been made.
abbrev pub good : World
good = record {
  err_ok = pos 0;
  err_val = negsuc 5;
  err_inprogress = negsuc 4;
  malloc_result = λ t n. some (zeros n);
  tcp_new_result = λ t. some (length t);
  udp_new_result = λ t. some (length t);
  connect_result = λ t. pos 0;
  write_result = λ t. pos 0;
  bind_result = λ t. pos 0;
  sendto_result = λ t. pos 0;
  pbuf_alloc_result = λ t n. true;
  wifi_result = λ t. pos 0;
  link_joined = λ t. true;
  netif_address = λ t. 0;
  lookup_result = λ t. record { code = pos 0; cached = 16909060; polls = 0; answer = none };
  malloc_length = λ t n b e. malloc_size n b e;
}

abbrev pub block : List ℕ
block = zeros max_recv_buffer

-- Socket 0 is a connected TCP socket with three bytes received and not read; 1 and on are free.
abbrev pub open_socket : Socket
open_socket = record (tcp_socket block 5) {
  state = SocketState.connected;
  recv_buf = some (1 ∷ 2 ∷ 3 ∷ zeros 4093);
  recv_len = 3;
}

abbrev pub online : Net
online = record boot {
  sockets = set (replicate max_sockets zero_socket) 0 open_socket;
  net_initialized = true;
}

pub open_socket-IsLive : IsLive open_socket
open_socket-IsLive = record {
  block = _;
  is_block = refl;
  size = ground (arith, length-zeros 4093);
  capacity = refl;
  within = omega arith;
}

pub online-IsOpen : IsOpen online 0 open_socket
online-IsOpen = record { at = refl; slot = omega arith; live = open_socket-IsLive; unlocked = refl }
