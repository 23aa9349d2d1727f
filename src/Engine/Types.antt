-- ===== src/Engine/Types.antt =====
-- The plain data of matching_engine.hpp.
use hft_engine.Base.{ℕ, List}
use hft_engine.Core.{Core, SegmentTree, BookSegmentTree, LockFreeQueue}
use hft_engine.Order.{Order}
use hft_engine.PriceLevel.{PriceLevel}

pub record Fill (c : Core) : Type 0 where
  pub aggressive_order_id : ℕ
  pub passive_order_id : ℕ
  pub price : c.Price
  pub quantity : ℕ
  pub timestamp : c.TimePoint
  pub symbol : c.Symbol

-- `execution_id` is the number that follows "EXE"; 0 stands for the empty text.
pub record ExecutionReport (c : Core) : Type 0 where
  pub order_id : ℕ
  pub symbol : c.Symbol
  pub side : c.Side
  pub status : c.OrderStatus
  pub price : c.Price
  pub original_quantity : ℕ
  pub executed_quantity : ℕ
  pub remaining_quantity : ℕ
  pub avg_executed_price : c.Price
  pub timestamp : c.TimePoint
  pub execution_id : ℕ
  pub fills : List (Fill c)

pub record MatchingStats (c : Core) : Type 0 where
  pub orders_processed : ℕ
  pub orders_matched : ℕ
  pub orders_rejected : ℕ
  pub total_fills : ℕ
  pub total_volume : c.Price
  pub total_notional : c.Price
  pub avg_matching_latency_ns : c.Price
  pub max_matching_latency_ns : c.Price
  pub matching_operations : ℕ

pub data MatchingAlgorithm : Type 0 where
  price_time_priority pro_rata size_priority time_priority : MatchingAlgorithm

-- The first argument of the error callback.
pub data ErrorCode : Type 0 where
  validation_error risk_check_failed : ErrorCode

-- A call of one of the three callbacks.
pub data Event (c : Core) : Type 0 where
  executed : ExecutionReport c → Event c
  filled : Fill c → Event c
  failed : ErrorCode → Event c

-- The classes outside the repository that an engine is made of.
pub record Environment (c : Core) : Type 1 where
  pub levels : SegmentTree c.Price (PriceLevel c.Price)
  pub trees : BookSegmentTree c.Price c.Side
  pub queue : LockFreeQueue (Order c)
