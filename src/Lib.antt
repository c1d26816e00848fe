-- ===== src/Lib.antt =====
-- The C side of an OCaml 5 runtime for the Raspberry Pi Pico W: the C library and thread functions
-- that the runtime is linked against (ocaml_stubs.c), the network functions over lwIP and the
-- cyw43 driver (net_stubs.c, net_stubs.h), and the console, pins and clock (pico_main.c). Over
-- them, in OCaml: a driver of an LCD (lcd.ml), a clock (clock.ml), and fibers with network effects
-- (pio.ml, net.ml).
--
-- How the parts interact. The lwIP callbacks of net_stubs.c put events on the event queue and
-- bytes in the buffer of a socket, under a spinlock; OCaml takes both out. The runtime's domains
-- run on the two cores and use the mutexes, condition variables and thread-specific values; the
-- heap of either comes from `_sbrk`, directly or by `mmap`. A core that waits or prints polls for
-- the interrupts of the runtime, which stop the world, and takes part in the collection of the
-- other. The fibers of pio.ml wait for the network by polling its sockets; the clock takes the
-- time from an NTP server and shows it by the driver, which switches the pins.
--
-- Files and what they model:
--   Prelude       Boolean tests on the native numbers, C arrays as lists, C's int, words that stand
--                 for OCaml values (Prelude/Value), and bit masks (Prelude/Bits).
--   Queue         net_stubs.c, `event_queue`: `event_enqueue`, `net_event_get` and the test of
--                 `ocaml_net_has_event` as functions on the ring. Queue/Fifo is what the queue
--                 promises, Queue/Refine that it keeps it, Queue/Abstract that nothing else of it
--                 can be seen. Queue/Spsc has the same two functions as interleaved steps of two
--                 cores, one step for each access to a shared variable.
--   Net           net_stubs.c over the queue. Net/State has the static variables as a record and
--                 the monad of the functions: state, and none for a run that goes wrong, by an
--                 access through NULL or past a block, or by a lock that is waited for in vain.
--                 Net/World has lwIP, the driver and malloc as parameters: every result may depend
--                 on all the calls before it, and the trace of the calls is part of the state.
--                 Net/Socket is the table (`socket_alloc`, `socket_free`), Net/Tcp, Net/Udp and
--                 Net/Dns have the functions under the names they have in the C code, and Net/Stubs
--                 the functions that OCaml calls, with its values as 32-bit words (Prelude/Value).
--                 Net/Buffer says what a socket has received, Net/Tcp/Pipe what TCP promises of it,
--                 Net/Tcp/Flow that it keeps it, and Net/Tcp/Connect follows a connection up to its
--                 first write. Net/Safety is the invariant of all the sockets, the queue and the
--                 lock; the files Keeps and Moves have each function keep it. Net/Acts has the calls
--                 of net_stubs.h and the callbacks of lwIP, which also come in the polls of the wait
--                 for DNS and while the driver connects, and Net/Run any sequence of them. A
--                 length that lwIP takes as 16 bits is cut to them. Net/Tcp/Cores has the sections
--                 under the spinlock as interleaved steps of two cores.
--   Heap          ocaml_stubs.c, `_sbrk`, `mmap`, `posix_memalign` and `caml_plat_mem_…`. Addresses
--                 are 32-bit words; memory is a function of the address; the linker's symbols are
--                 the fields of a Layout.
--   Sync          ocaml_stubs.c, `pthread_mutex_…` and `pthread_cond_…`. Sync/Sdk has the laws of
--                 the Pico SDK's recursive mutex, which is a parameter. Sync/Mutex/Steps
--                 has set-ups, locks, tries and unlocks of both cores as steps, one for each access
--                 to what they share, in which no core begins a set-up while the other is at one;
--                 Places, Invariant, Preserved and System are the theorems on it. The code does not
--                 keep set-ups apart: Sync/Mutex/Race has `pthread_mutex_init` on both cores at
--                 once, access by access. Sync/Condvar/Waiters has the threads as a step relation;
--                 Sync/Mutex/Static has mutexes with an initial value of the headers.
--   Console       ocaml_stubs.c and pico_main.c, the functions that print numbers and strings, as
--                 the characters that they put out; Console/Lock has `raw_puts` under its spinlock
--                 as interleaved steps of the two cores.
--   Board         pico_main.c, the functions that OCaml calls for LED, pins, delays, clock and PWM,
--                 as the calls of the SDK that they make; Board/Main has `main` up to the start of
--                 OCaml and after it, with the locks of the allocators that it sets up.
--   Lcd           lcd.ml, as the calls of the SDK that each function makes, down to the functions
--                 of Board. Lcd/Bus is the display: it takes the data pins when the enable pin
--                 falls. Lcd/Receives and Lcd/Places follow strings and positions to it.
--   Clock         clock.ml: the time from NTP and its way to the display, as the calls of Lcd;
--                 Clock/Ntp has `ntp_query` over the functions of Net, with the datagrams that
--                 come.
--   Pio           pio.ml over the functions of Net: the waiters, the run queue and the rounds of
--                 the scheduler. Pio/Reads has a socket while segments arrive, Pio/Polls a fiber
--                 that waits for them, Pio/Blocking the loop of net.ml that does, Pio/Fibers the
--                 fibers that fork and yield, and Pio/Promise the promises. A continuation is the
--                 number of its fiber.
--   Netif         netif.ml, the text of an address.
--   Libc          ocaml_stubs.c, the system calls `_write`, `_read` and their kin, the runtime's
--                 `caml_read_fd` and `caml_write_fd`, and in Libc/Time delays, time, entropy and
--                 the calls that report on process and system; Libc/Signals has those on signals. A
--                 leading underscore of a name is dropped.
--   Runtime       ocaml_stubs.c. Runtime/Stw has `try_handle_stw_interrupt` over the mutexes, with
--                 the functions of the runtime as parameters; Runtime/MallocLock the lock of
--                 newlib's heap; Runtime/Writing and Runtime/Locking `_write` and
--                 `pthread_mutex_lock` with the polls that they make; Runtime/Platform the
--                 `caml_plat_…` mutexes and condition variables; Runtime/Startup the parameters,
--                 the count of starts and the names; Runtime/Fatal the functions that report an
--                 error and stop, and those that do nothing.
--   Threads       ocaml_stubs.c. Threads/Tls has the thread-specific values; Threads/Launch has
--                 `pthread_create`, `core1_wrapper` and `pthread_join` as interleaved steps of the
--                 two cores; Threads/Cleanup the loop that takes a thread's mutexes back when it
--                 ends; Threads/Ids the identifiers and the area of each core.
--
-- Bounds and fuel. Widths are written out: 32 bits for sizes, addresses, counters and ints. The
-- loop over decimal digits has fuel 32, one for each bit of the number. `wait_dns` has fuel for
-- the polls before the callback and two rounds more. The loops that wait for another core run over
-- a list of what happens in each round, so a wait may be as long as one likes. The calls of
-- `try_handle_stw_interrupt` that its handler makes nest to a depth that is an argument, and two
-- is enough. `scheduler` in Pio/Fibers has fuel, and more of it than there are tasks is enough.
--
-- Not modelled: of the OCaml programs, hello.ml, the effects that only pass a call on, Await, the
-- main fiber of a switch, and the start of clock.ml and its texts; the configuration of lwIP; the
-- declarations of the headers; the build; `pthread_exit`, which never returns. Messages and delays
-- of the functions modelled are left out, but for those of Lcd. The runtime, lwIP, the driver,
-- malloc and the Pico SDK are not in the repository: they are parameters, with the laws that the
-- theorems need.
pub mod Prelude
pub mod Queue
pub mod Net
pub mod Heap
pub mod Sync
pub mod Console
pub mod Threads
pub mod Board
pub mod Lcd
pub mod Clock
pub mod Netif
pub mod Pio
pub mod Libc
pub mod Runtime
