-- ===== src/Delivery.antt =====
-- The way of a text from the keyboard of one client to the terminal of another one, through all the parts of src.
pub mod Chat
pub mod Kick
pub mod Pm
