-- ===== src/Sync.antt =====
-- ocaml_stubs.c, synchronisation of the two cores: the Pico SDK's recursive mutex, which the code
-- calls, and the pthread mutexes made of it.
pub mod Sdk
pub mod Mutex
pub mod Condvar
