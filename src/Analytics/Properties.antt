-- ===== src/Analytics/Properties.antt =====
-- Properties of src/analytics/pnl_calculator_simple.cpp.
pub mod Calls
pub mod Exact
pub mod Ledger
pub mod Excursions
pub mod RoundTrip
pub mod Stale
pub mod EmptyTrades
pub mod Slippage
