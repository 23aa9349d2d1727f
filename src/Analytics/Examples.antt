-- ===== src/Analytics/Examples.antt =====
-- The analytics at a few trades.
use hft_engine.Base.{
  ℕ, ◌*◌, Bool, List, true, false, [], ◌∷◌, ◌≡◌, ◌≤◌, refl, arith, ==_iff, length, keep, ◌%◌,
}
use hft_engine.Core.Laws.{whole, whole-IsCore}
use hft_engine.Containers.HashMap
use hft_engine.Analytics.Types.{Trade}
use hft_engine.Analytics.Formulas.{calculate_pnl}
use hft_engine.Analytics.Calculator.{
  PnLCalculator, size_mod, new_calculator, record_trade, update_market_price, reset,
}
use hft_engine.Analytics.Calculator.Queries.{
  get_trades, get_trade_count, get_net_position, get_position,
}
use hft_engine.Analytics.Slippage.{mid_price, new_analyzer, history}
use hft_engine.Analytics.Properties.Calls
use hft_engine.Analytics.Properties.Calls.{Call, run}
use hft_engine.Analytics.Properties.Exact.{balance}
use hft_engine.Analytics.Properties.Ledger.{posted, bought, sold}
use hft_engine.Analytics.Properties.Ledger.Refinement.{run_refines}
use hft_engine.Analytics.Properties.Excursions.{Within, get_position-Within}
use hft_engine.Analytics.Properties.RoundTrip.{round_trip_lem}
use hft_engine.Analytics.Properties.Stale.{unrealized_stays}
use hft_engine.Analytics.Properties.Slippage
use hft_engine.Analytics.Properties.Slippage.{SlippageCall, prices_after, trades_after}
use hft_engine.Analytics.Properties.Slippage.History.{latest, history_bounded}
use hft_engine.Analytics.Signed.{wholes, signed, signed_arithmetic, signed-IsExact}

-- A trade of the symbol 7; a purchase if `side` is true.
abbrev deal : Bool → ℕ → ℕ → Trade signed
deal side price quantity = record {
  order_id = 1;
  symbol = 7;
  side = side;
  executed_price = (price, 0);
  quantity = quantity;
  execution_time = 0;
  market_price_at_execution = (0, 0);
  strategy_id = [];
  notional_value = (price * quantity, 0);
  commission = (0, 0);
  slippage_bps = (0, 0);
}

abbrev calculator : PnLCalculator signed
calculator = new_calculator signed signed_arithmetic (0, 0)

abbrev calls : List (Call signed)
calls =
    Calls.record_trade (deal true 100 5)
    ∷ Calls.market_price 7 (110, 0) 0
    ∷ Calls.record_trade (deal false 120 8)
    ∷ []

run_refines_example :
    let k = run signed signed_arithmetic 0 calculator calls in
    let l = posted signed calls in
    (get_trades signed signed_arithmetic k 7 ≡ keep (λ t. signed.symbol_eq t.symbol 7) l.book)
    × (get_trade_count signed signed_arithmetic k ≡ length l.book % size_mod)
    × (get_net_position signed signed_arithmetic 0 k 7
        ≡ balance signed (bought signed 7 l.open_trades) (sold signed 7 l.open_trades))
run_refines_example =
    run_refines signed-IsExact 0 ==_iff (0, 0) calls 7 (omega arith, (tt, (omega arith, tt)))
      (omega arith)

round_trip_lem_example :
    let closed_out =
      record_trade signed signed_arithmetic 0
        (record_trade signed signed_arithmetic 0 calculator (deal true 100 5))
        (deal false 120 5) in
    (closed_out.total_realized_pnl
      ≡ signed.price_add calculator.total_realized_pnl
          (calculate_pnl signed signed_arithmetic true (100, 0) (120, 0) 5))
    × (get_net_position signed signed_arithmetic 0 closed_out 7 ≡ signed.price_of 0)
unfolding new_calculator reset HashMap.find
round_trip_lem_example =
    round_trip_lem signed-IsExact ==_iff 0 calculator (deal true 100 5) (deal false 120 5) refl refl
      refl refl (omega arith) (omega arith)

unrealized_stays_example :
    let opened_at =
      update_market_price signed signed_arithmetic
        (record_trade signed signed_arithmetic 0 calculator (deal true 100 5))
        7
        (110, 0)
        1 in
    let closed_at =
      update_market_price signed signed_arithmetic
        (record_trade signed signed_arithmetic 0 opened_at (deal false 120 5))
        7
        (130, 0)
        2 in
    ((get_position signed signed_arithmetic 0 closed_at 7).unrealized_pnl ≡ signed.price_of 0)
    × (closed_at.total_unrealized_pnl
        ≡ signed.price_add calculator.total_unrealized_pnl (
            signed.price_sub
              (calculate_pnl signed signed_arithmetic true (100, 0) (110, 0) 5)
              (signed.price_of 0)))
unfolding new_calculator reset HashMap.find
unrealized_stays_example =
    unrealized_stays signed-IsExact ==_iff 0 calculator (deal true 100 5) (deal false 120 5)
      (110, 0) (130, 0) 1 2 refl refl refl refl (omega arith) (omega arith)

abbrev slippage_calls : List (SlippageCall signed)
slippage_calls =
    Slippage.price 7 (100, 0) 1
    ∷ Slippage.trade (deal true 110 5) (100, 0)
    ∷ Slippage.trade (deal false 110 5) (120, 0)
    ∷ []

history_bounded_example :
    let h =
      history signed signed_arithmetic
        (Slippage.run signed signed_arithmetic
          (new_analyzer signed signed_arithmetic mid_price)
          slippage_calls)
        7 in
    (length h ≤ 1000)
    × (h ≡ latest 1000 (prices_after signed signed_arithmetic 7 [] slippage_calls))
history_bounded_example = history_bounded signed_arithmetic ==_iff mid_price slippage_calls 7

abbrev whole_calls : List (Call whole)
whole_calls =
    Calls.record_trade (record {
      order_id = 1;
      symbol = 7;
      side = true;
      executed_price = 100;
      quantity = 5;
      execution_time = 0;
      market_price_at_execution = 0;
      strategy_id = [];
      notional_value = 500;
      commission = 0;
      slippage_bps = 0;
    })
    ∷ Calls.market_price 7 110 0
    ∷ []

get_position-Within_example :
    Within (
      get_position whole wholes 0
        (run whole wholes 0 (new_calculator whole wholes 0) whole_calls)
        7)
get_position-Within_example = get_position-Within wholes whole-IsCore.price_order 0 0 whole_calls 7
