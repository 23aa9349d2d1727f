-- ===== src/Analytics.antt =====
-- include/hft/analytics/pnl_calculator.hpp and src/analytics/pnl_calculator_simple.cpp: trades,
-- positions, profit and loss, and slippage.
pub mod Types
pub mod Formulas
pub mod Calculator
pub mod Slippage
pub mod Properties
pub mod Signed
mod Examples
