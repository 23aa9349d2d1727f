-- ===== src/Backtesting/Properties/Files.antt =====
-- Properties of the two parsers of src/backtesting/tick_replay.cpp.
pub mod Pieces
pub mod Fields
pub mod Joined
pub mod Reading
pub mod Written
pub mod Reread
pub mod Conversion
pub mod Generated
mod Examples
mod Printed
