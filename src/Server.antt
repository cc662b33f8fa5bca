-- ===== src/Server.antt =====
-- src/server: the shared state of the server, and what a thread does to it. `Action` is the run of a
-- thread that no other thread interrupts.
pub mod State
pub mod Reply
pub mod Commands
pub mod Accept
pub mod Lifecycle
pub mod Program
pub mod Session
pub mod Broadcast
