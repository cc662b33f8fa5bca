-- ===== src/Tests.antt =====
-- Runs of the code at concrete inputs, and an instance of each theorem that has conditions.
pub mod Data
pub mod Protocol
pub mod Registry
pub mod Rooms
pub mod Queue
pub mod Auth
pub mod Server
pub mod Broadcast
pub mod Net
pub mod Client
pub mod Delivery
pub mod Lifecycle
