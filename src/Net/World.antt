-- ===== src/Net/World.antt =====
-- What net_stubs.c calls and does not implement: the C allocator, lwIP and the cyw43 driver. Each
-- result may depend on all the calls made before it, so a `World` is any behaviour of theirs.
use pico_ocaml.Prelude.{ℕ, ◌≡◌, Option, some, List, length, Bool}
use pico_ocaml.Prelude.Int.{ℤ}

-- The calls that net_stubs.c makes, with the arguments that matter. A pcb and a pbuf that lwIP owns
-- are handles, other than NULL.
pub data Call : Type 0 where
  malloc : (size : ℕ) → Call
  free : Call
  lwip_begin lwip_end arch_poll : Call
  enable_sta disable_sta link_status : Call
  wifi_connect : (ssid password : List ℕ) → (timeout : ℕ) → Call
  tcp_new udp_new : Call
  tcp_callbacks : (pcb sock_id : ℕ) → Call  -- tcp_arg, tcp_recv, tcp_sent and tcp_err, set
  tcp_no_callbacks : (pcb : ℕ) → Call  -- the same four, with NULL
  tcp_connect : (pcb ip port : ℕ) → Call
  tcp_write : (pcb : ℕ) → List ℕ → Call
  tcp_output tcp_close : (pcb : ℕ) → Call
  tcp_recved : (pcb len : ℕ) → Call
  pbuf_free : Call
  pbuf_alloc : (len : ℕ) → Call
  udp_recv : (pcb sock_id : ℕ) → Call
  udp_bind : (pcb port : ℕ) → Call
  udp_sendto : (pcb ip port : ℕ) → List ℕ → Call
  udp_remove : (pcb : ℕ) → Call
  gethostbyname : (name : List ℕ) → Call
  sleep_ms : (ms : ℕ) → Call

-- newest first
abbrev pub Trace : Type 0
Trace = List Call

-- What `dns_gethostbyname` does: a code, the address that it writes, and, if it has started a
-- query, the polls until its callback comes and the address that the callback is given (none for
-- a name that is not found).
pub record Lookup : Type 0 where
  pub code : ℤ
  pub cached : ℕ
  pub polls : ℕ
  pub answer : Option ℕ

pub record World : Type 0 where
  pub err_ok : ℤ
  pub err_val : ℤ
  pub err_inprogress : ℤ
  pub malloc_result : Trace → ℕ → Option (List ℕ)
  pub tcp_new_result : Trace → Option ℕ
  pub udp_new_result : Trace → Option ℕ
  pub connect_result : Trace → ℤ
  pub write_result : Trace → ℤ
  pub bind_result : Trace → ℤ
  pub sendto_result : Trace → ℤ
  pub pbuf_alloc_result : Trace → ℕ → Bool
  pub wifi_result : Trace → ℤ
  pub link_joined : Trace → Bool
  pub netif_address : Trace → ℕ
  pub lookup_result : Trace → Lookup
  -- `malloc(n)` returns NULL or a block of n bytes.
  pub malloc_length : (t : Trace) (n : ℕ) (b : List ℕ) → malloc_result t n ≡ some b → length b ≡ n
