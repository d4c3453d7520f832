-- ===== src/Runner.antt =====
-- backend/src/services/runner_service.py: one benchmark run, from the first observation to the
-- finalized row.
pub mod World
pub mod Pass
pub mod Closing
pub mod Execution
pub mod Log
pub mod Stages
pub mod Progress
pub mod Sealing
pub mod Replay
pub mod Executed
pub mod Audited
pub mod Classified
pub mod Tampering
