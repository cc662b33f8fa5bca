-- ===== src/Protocol.antt =====
-- src/common/protocol.c: the text protocol. `Fields` has the helpers that split a line, `Client` the
-- lines that a client sends and `Server` those that the server sends.
pub mod Fields
pub mod Client
pub mod Server
