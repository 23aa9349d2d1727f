-- ===== src/Engine/Properties.antt =====
-- What is proved of the matching engine.
pub mod Fills
pub mod Finish
pub mod SegmentFills
pub mod SegmentProcess
pub mod Runs
pub mod TreeBooks
pub mod LegacyRounds
pub mod LegacyCalls
pub mod Legacy
pub mod Requests
mod Examples
