-- ===== src/Backtesting.antt =====
-- include/hft/backtesting/tick_replay.hpp and src/backtesting/tick_replay.cpp: the replay of recorded
-- ticks to trading strategies.
pub mod Ticks
pub mod Quoting
pub mod Momentum
pub mod Strategies
pub mod Replay
pub mod Runs
pub mod Suite
pub mod Files
pub mod Generator
pub mod Properties
mod Examples
