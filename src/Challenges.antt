-- ===== src/Challenges.antt =====
-- backend/src/challenges/base.py: what a challenge type gives to the runner and to the evaluator.
pub mod Swap
pub mod Rebalance
mod Base
pub use Base.*
