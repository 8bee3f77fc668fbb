-- ===== src/Knowledge.antt =====
-- The knowledge base: documents in chunks (Chunking), answers from what was retrieved (Answering) and the
-- handlers of the router that use them (Handlers).
pub mod Chunking
pub mod Sizes
pub mod Answering
pub mod Sources
pub mod Handlers
mod Tests
