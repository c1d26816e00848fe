-- ===== src/Runtime/Startup.antt =====
-- ocaml_stubs.c, the start of the runtime: its parameters, the count of starts, and the constants
-- that it asks for. A string is the list of its bytes, `none` for NULL.
use pico_ocaml.Prelude.{
  ℕ, ◌+◌, ◌%◌, ◌^◌, ◌<◌, ◌≡◌, refl, Option, none, List, [], ◌∷◌, arith, ◌==◌, if◌then◌else◌,
}

-- `struct caml_params`
pub record CamlParams : Type 0 where
  pub proc_self_exe : Option (List ℕ)
  pub exe_name : Option (List ℕ)
  pub section_table : Option (List ℕ)
  pub section_table_size : ℕ
  pub cds_file : Option (List ℕ)
  pub parser_trace : ℕ
  pub trace_level : ℕ
  pub runtime_events_log_wsize : ℕ
  pub verify_heap : ℕ
  pub print_magic : ℕ
  pub print_config : ℕ
  pub init_percent_free : ℕ
  pub init_minor_heap_wsz : ℕ
  pub init_custom_major_ratio : ℕ
  pub init_custom_minor_ratio : ℕ
  pub init_custom_minor_max_bsz : ℕ
  pub init_max_stack_wsz : ℕ
  pub backtrace_enabled : ℕ
  pub runtime_warnings : ℕ
  pub cleanup_on_exit : ℕ
  pub event_trace : ℕ
  pub max_domains : ℕ

-- `pico_params`, which a static variable starts as zero, and `startup_count`
pub record Runtime : Type 0 where
  pub params : CamlParams
  pub startup_count : ℕ

abbrev no_params : CamlParams
no_params = record {
  proc_self_exe = none;
  exe_name = none;
  section_table = none;
  section_table_size = 0;
  cds_file = none;
  parser_trace = 0;
  trace_level = 0;
  runtime_events_log_wsize = 0;
  verify_heap = 0;
  print_magic = 0;
  print_config = 0;
  init_percent_free = 0;
  init_minor_heap_wsz = 0;
  init_custom_major_ratio = 0;
  init_custom_minor_ratio = 0;
  init_custom_minor_max_bsz = 0;
  init_max_stack_wsz = 0;
  backtrace_enabled = 0;
  runtime_warnings = 0;
  cleanup_on_exit = 0;
  event_trace = 0;
  max_domains = 0;
}

abbrev unstarted : Runtime
unstarted = record { params = no_params; startup_count = 0 }

-- PICO_MINOR_HEAP_WSZ and PICO_MAX_STACK_WSZ
abbrev pico_minor_heap_wsz : ℕ
pico_minor_heap_wsz = 2048

abbrev pico_max_stack_wsz : ℕ
pico_max_stack_wsz = 2048

caml_parse_ocamlrunparam : Runtime → Runtime
caml_parse_ocamlrunparam r = record r {
  params = record r.params {
    init_percent_free = 80;
    init_minor_heap_wsz = pico_minor_heap_wsz;
    init_custom_major_ratio = 44;
    init_custom_minor_ratio = 100;
    init_custom_minor_max_bsz = 4096;
    init_max_stack_wsz = pico_max_stack_wsz;
    max_domains = 2;
    runtime_events_log_wsize = 0;
    trace_level = 0;
    cleanup_on_exit = 0;
    print_magic = 0;
    print_config = 0;
    event_trace = 0;
  };
}

-- `startup_count` is an `int`, kept in 32 bits.
caml_startup_aux : Runtime → ℕ × Runtime
caml_startup_aux r =
    let count = (r.startup_count + 1) % 2 ^ 32 in
    ((if count == 1 then 1 else 0), record r { startup_count = count })

caml_shutdown : Runtime → Runtime
caml_shutdown r = record r { startup_count = 0 }

caml_init_exe_name : (proc_self_exe exe_name : Option (List ℕ)) → Runtime → Runtime
caml_init_exe_name proc_self_exe exe_name r = record r {
  params = record r.params { proc_self_exe = proc_self_exe; exe_name = exe_name };
}

caml_init_section_table : (section_table : Option (List ℕ)) → (size : ℕ) → Runtime → Runtime
caml_init_section_table section_table size r = record r {
  params = record r.params { section_table = section_table; section_table_size = size };
}

-- The calls that change the state.
data StartCall : Type 0 where
  parse shutdown start : StartCall
  set_exe_name : (proc_self_exe exe : Option (List ℕ)) → StartCall
  set_section_table : Option (List ℕ) → (size : ℕ) → StartCall

start_step : StartCall → Runtime → Runtime
unfolding caml_parse_ocamlrunparam caml_startup_aux caml_shutdown caml_init_exe_name
    caml_init_section_table
start_step StartCall.parse r = caml_parse_ocamlrunparam r
start_step StartCall.shutdown r = caml_shutdown r
start_step StartCall.start r = (caml_startup_aux r).1
start_step (StartCall.set_exe_name p e) r = caml_init_exe_name p e r
start_step (StartCall.set_section_table t n) r = caml_init_section_table t n r

-- The state after a list of calls, the last call first.
after_calls : List StartCall → Runtime
unfolding start_step
after_calls [] = unstarted
after_calls (c ∷ cs) = start_step c (after_calls cs)

-- how many starts there were since the last shutdown
abbrev starts : List StartCall → ℕ
starts [] = 0
starts (StartCall.start ∷ cs) = starts cs + 1
starts (StartCall.shutdown ∷ cs) = 0
starts (_ ∷ cs) = starts cs

counted : (cs : List StartCall) → (after_calls cs).startup_count ≡ starts cs % 2 ^ 32
unfolding after_calls start_step caml_parse_ocamlrunparam caml_startup_aux caml_shutdown
    caml_init_exe_name caml_init_section_table
counted [] = refl
counted (StartCall.parse ∷ cs) = counted cs
counted (StartCall.shutdown ∷ cs) = refl
counted (StartCall.start ∷ cs) = omega (arith, counted cs)
counted (StartCall.set_exe_name p e ∷ cs) = counted cs
counted (StartCall.set_section_table t n ∷ cs) = counted cs

-- After any calls of the functions that start and stop the runtime, with fewer than 2 ^ 32 - 1
-- starts since the last shutdown: `caml_startup_aux` returns 1, to go on with the start, if and
-- only if there was no start since the last shutdown, and else 0.
caml_startup_aux-once :
    (cs : List StartCall)
    → starts cs + 1 < 2 ^ 32
    → ((caml_startup_aux (after_calls cs)).0 ≡ (if starts cs == 0 then 1 else 0))
      × ((caml_startup_aux (caml_shutdown (after_calls cs))).0 ≡ 1)
unfolding caml_startup_aux caml_shutdown
caml_startup_aux-once cs few = (ground (arith, counted cs), refl)

-- The name of the program and the parameters are set independently of each other, in either order.
caml_init_exe_name-parse :
    (p e : Option (List ℕ)) (r : Runtime)
    → caml_init_exe_name p e (caml_parse_ocamlrunparam r)
      ≡ caml_parse_ocamlrunparam (caml_init_exe_name p e r)
unfolding caml_init_exe_name caml_parse_ocamlrunparam
caml_init_exe_name-parse p e r = refl

-- `caml_plat_pagesize` and `caml_plat_mmap_alignment`
record OsParams : Type 0 where
  pub pagesize : ℕ
  pub mmap_alignment : ℕ

unfoldable caml_init_os_params : OsParams → OsParams
caml_init_os_params old = record { pagesize = 4096; mmap_alignment = 4096 }

-- "ocaml_pico"
abbrev program_name : List ℕ
program_name = b'o' ∷ b'c' ∷ b'a' ∷ b'm' ∷ b'l' ∷ b'_' ∷ b'p' ∷ b'i' ∷ b'c' ∷ b'o' ∷ []

unfoldable caml_executable_name : List ℕ
caml_executable_name = program_name

unfoldable caml_search_exe_in_path : (name : List ℕ) → List ℕ
caml_search_exe_in_path name = program_name

unfoldable caml_secure_getenv : (name : List ℕ) → Option (List ℕ)
caml_secure_getenv name = none

unfoldable caml_locate_standard_library : (exe_name stdlib_default : List ℕ) → List ℕ
caml_locate_standard_library exe_name stdlib_default = stdlib_default

unfoldable caml_num_rows_fd : ℕ → ℕ
caml_num_rows_fd fd = 24

-- `Val_unit`, whatever the object and the method
unfoldable caml_send0 : (obj met : ℕ) → ℕ
caml_send0 obj met = 1
