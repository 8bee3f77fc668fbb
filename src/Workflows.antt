-- ===== src/Workflows.antt =====
-- backend/app/workflows: the definitions of workflows and their runs.
pub mod References
pub mod Definition
pub mod Checks
pub mod Runner
pub mod Runs
pub mod Library
mod Tests
