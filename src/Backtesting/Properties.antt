-- ===== src/Backtesting/Properties.antt =====
-- Properties of src/backtesting/tick_replay.cpp.
pub mod Frames
pub mod Idle
pub mod Counts
pub mod Suites
pub mod Drawdowns
pub mod Entries
pub mod Files
