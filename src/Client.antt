-- ===== src/Client.antt =====
-- src/client/client.c: the chat client, with its two threads, one that reads the keyboard and one
-- that reads the socket.
pub mod State
pub mod Closed
pub mod Credentials
pub mod Display
pub mod History
pub mod Ending
pub mod Input
pub mod Invariant
pub mod Life
pub mod Bounds
pub mod Sockets
pub mod Pm
pub mod LongRoom
pub mod Program
pub mod Prompt
pub mod Request
pub mod Sent
pub mod Start
pub mod Stopped
pub mod Threads
