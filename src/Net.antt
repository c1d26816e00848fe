-- ===== src/Net.antt =====
-- net_stubs.c over the event queue: the socket table, its WiFi, TCP, UDP and DNS functions and the
-- lwIP callbacks, and the stubs that OCaml calls.
pub mod World
pub mod State
pub mod Socket
pub mod Tcp
pub mod Udp
pub mod Dns
pub mod Buffer
pub mod Create
pub mod Stubs
pub mod Safety
pub mod Acts
pub mod Run
pub mod Tests
