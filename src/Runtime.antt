-- ===== src/Runtime.antt =====
-- ocaml_stubs.c, what the OCaml runtime gets in place of its own platform code: interrupts for
-- stop-the-world collections, its mutexes, and its start.
pub mod Stw
pub mod Platform
pub mod Startup
pub mod Fatal
pub mod Writing
pub mod Locking
pub mod MallocLock
mod Tests
