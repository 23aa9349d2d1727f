-- ===== src/Engine.antt =====
-- include/hft/matching/matching_engine.hpp and src/matching/matching_engine.cpp: the matching engine.
pub mod Types
pub mod State
pub mod Matching
pub mod SegmentMatching
pub mod Requests
pub mod Process
pub mod TreeOrders
pub mod Prices
pub mod Making
pub mod Properties
