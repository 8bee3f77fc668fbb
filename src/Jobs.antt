-- ===== src/Jobs.antt =====
-- Background jobs: backend/app/jobs.
pub mod Base
pub mod Memory
pub mod Handlers
pub mod Worker
pub mod Redis
mod Tests
