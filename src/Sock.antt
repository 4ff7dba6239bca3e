-- ===== src/Sock.antt =====
-- net/core/sock.c: the protocol's socket, `struct sock`: how long it lives, the memory that is charged
-- to it, the options and the priority that it gets from its thread, and time limits.
pub mod Life
pub mod Memory
pub mod Options
pub mod Timeout
pub mod Backlog
mod Tests
