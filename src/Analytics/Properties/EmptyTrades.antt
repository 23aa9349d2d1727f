-- ===== src/Analytics/Properties/EmptyTrades.antt =====
-- Trades of no quantity.
use hft_engine.Base.{true, false, none, ◌≡◌, ◌↔◌, refl, ap, ◌∙◌, arith}
use hft_engine.Core.{Core}
use hft_engine.Analytics.Types.{Arithmetic, Trade, Position}
use hft_engine.Analytics.Calculator.{
  PnLCalculator, apply_quantity, signed_quantity, position_or_new, settled_position, settled_total,
  add_gain, record_trade,
}
use hft_engine.Analytics.Calculator.Queries.{get_net_position, get_position}
use hft_engine.Analytics.Properties.RoundTrip.{position-record_trade, total-record_trade}

module _ {c : Core} (a : Arithmetic c) where
  apply_nothing :
      (p : Position c) (y price : c.Price)
      → c.price_lt (c.price_of 0) y ≡ false
      → c.price_lt y (c.price_of 0) ≡ false
      → apply_quantity c a p y price ≡ (record p { quantity = y; avg_entry_price = price }, none)
  unfolding apply_quantity
  apply_nothing p y price up down = rw (up, down) (ground arith)

  -- Where 0 is not below 0, and whatever was traded before: a purchase of quantity 0 sets the net
  -- position of its symbol to 0, and nothing is realized.
  pub empty_trade_clears :
      (symbol_eq_iff : (s j : c.Symbol) → (c.symbol_eq s j ≡ true) ↔ (s ≡ j))
      → (zero_lem : c.price_lt (c.price_of 0) (c.price_of 0) ≡ false)
      → (epoch : c.TimePoint) (k : PnLCalculator c) (t : Trade c) → t.quantity ≡ 0
      → c.is_buy t.side ≡ true
      → (get_net_position c a epoch (record_trade c a epoch k t) t.symbol ≡ c.price_of 0)
        × ((record_trade c a epoch k t).total_realized_pnl ≡ k.total_realized_pnl)
  unfolding get_net_position get_position settled_position settled_total signed_quantity
  empty_trade_clears symbol_eq_iff zero_lem epoch k t z b =
      let y : signed_quantity c a t ≡ c.price_of 0 = rw (b, z) refl in
      let nothing =
        apply_nothing (record (position_or_new c a epoch k t.symbol) { symbol = t.symbol })
          (signed_quantity c a t) t.executed_price (rw y zero_lem) (rw y zero_lem) in
      (
        ap (λ p. p.quantity)
              (position-record_trade a epoch symbol_eq_iff k t t.symbol
                ((symbol_eq_iff t.symbol t.symbol).1 refl))
            ∙ ap (λ r. r.0.quantity) nothing
            ∙ y,
        total-record_trade a epoch symbol_eq_iff k t
            ∙ ap (λ r. add_gain c a k.total_realized_pnl r.1) nothing,
      )
