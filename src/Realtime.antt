-- ===== src/Realtime.antt =====
-- The live connections: frames (Envelope), the registry (Registry), the pieces of an answer (Chunks),
-- the answers on one connection (Answers) and the life of a socket (Sessions).
pub mod Envelope
pub mod Registry
pub mod Chunks
pub mod Answers
pub mod Sessions
mod Tests
