-- ===== src/Analytics/Calculator/Queries.antt =====
-- The queries of PnLCalculator.
use hft_engine.Base.{ℕ, not, ◌&&◌, List, if◌then◌else◌, keep}
use hft_engine.Core.{Core}
use hft_engine.Analytics.Types.{Arithmetic, Trade, Position}
use hft_engine.Analytics.Calculator.{PnLCalculator, position_or_new}

module _ (c : Core) (a : Arithmetic c) where
  unfoldable pub get_position : c.TimePoint → PnLCalculator c → c.Symbol → Position c
  get_position epoch k symbol = position_or_new c a epoch k symbol

  unfoldable pub get_all_positions : PnLCalculator c → List (c.Symbol × Position c)
  get_all_positions k = k.positions

  unfoldable pub get_net_position : c.TimePoint → PnLCalculator c → c.Symbol → c.Price
  get_net_position epoch k symbol = (get_position epoch k symbol).quantity

  unfoldable pub get_position_value : c.TimePoint → PnLCalculator c → c.Symbol → c.Price
  get_position_value epoch k symbol =
      let p = get_position epoch k symbol in c.price_mul p.quantity p.avg_entry_price

  unfoldable pub get_realized_pnl : c.TimePoint → PnLCalculator c → c.Symbol → c.Price
  get_realized_pnl epoch k symbol =
      if c.symbol_eq symbol c.no_symbol
      then k.total_realized_pnl
      else (get_position epoch k symbol).realized_pnl

  unfoldable pub get_unrealized_pnl : c.TimePoint → PnLCalculator c → c.Symbol → c.Price
  get_unrealized_pnl epoch k symbol =
      if c.symbol_eq symbol c.no_symbol
      then k.total_unrealized_pnl
      else (get_position epoch k symbol).unrealized_pnl

  unfoldable pub get_total_pnl : c.TimePoint → PnLCalculator c → c.Symbol → c.Price
  get_total_pnl epoch k symbol =
      c.price_add (get_realized_pnl epoch k symbol) (get_unrealized_pnl epoch k symbol)

  unfoldable pub get_total_commission : PnLCalculator c → c.Price
  get_total_commission k = k.total_commission

  unfoldable pub get_trade_count : PnLCalculator c → ℕ
  get_trade_count k = k.trade_count

  unfoldable pub get_trades : PnLCalculator c → c.Symbol → List (Trade c)
  get_trades k symbol =
      if c.symbol_eq symbol c.no_symbol
      then k.trades
      else keep (λ t. c.symbol_eq t.symbol symbol) k.trades

  unfoldable pub get_trades_in_range : PnLCalculator c → c.TimePoint → c.TimePoint → List (Trade c)
  get_trades_in_range k start end =
      keep (λ t. not (c.time_lt t.execution_time start) && not (c.time_lt end t.execution_time))
        k.trades
