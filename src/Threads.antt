-- ===== src/Threads.antt =====
-- ocaml_stubs.c, threads: thread-specific values, and the launch of core 1 for each second
-- `pthread_create`.
pub mod Tls
pub mod Launch
pub mod Cleanup
pub mod Ids
pub mod Tests
