-- ===== src/Backtesting/Momentum.antt =====
-- MomentumStrategy of src/backtesting/tick_replay.cpp. Its std::map is only looked up and assigned to.
use hft_engine.Base.{
  ℕ, Bool, true, false, not, ◌&&◌, ◌||◌, Option, none, some, List, [], ◌∷◌, ◌++◌, ltb, length,
  or_else, if◌then◌else◌,
}
use hft_engine.Core.{Core}
use hft_engine.Containers.HashMap
use hft_engine.Order.{Order, new_order}
use hft_engine.Analytics.Types.{Arithmetic}
use hft_engine.Backtesting.Ticks.{HistoricalTick}

pub record SymbolState (c : Core) : Type 0 where
  pub price_history : List c.Price
  pub ema_fast : c.Price
  pub ema_slow : c.Price
  pub in_position : Bool
  pub position_side : c.Side
  pub active_order_id : ℕ

-- `attached` says whether matching_engine_ is set.
pub record MomentumStrategy (c : Core) : Type 0 where
  pub symbol_states : List (c.Symbol × SymbolState c)
  pub fast_ema_alpha : c.Price
  pub slow_ema_alpha : c.Price
  pub momentum_threshold : c.Price
  pub position_size : ℕ
  pub attached : Bool

-- pop_front of a deque
abbrev pub pop_front {ℓ} : {A : Type ℓ} → List A → List A
pop_front [] = []
pop_front (x ∷ xs) = xs

module _ (c : Core) (a : Arithmetic c) where
  unfoldable pub new_momentum : c.Price → c.Price → c.Price → ℕ → MomentumStrategy c
  new_momentum fast_period slow_period momentum_threshold position_size = record {
    symbol_states = [];
    fast_ema_alpha = c.price_div (c.price_of 2) (c.price_add fast_period (c.price_of 1));
    slow_ema_alpha = c.price_div (c.price_of 2) (c.price_add slow_period (c.price_of 1));
    momentum_threshold = momentum_threshold;
    position_size = position_size;
    attached = false;
  }

  -- A SymbolState as the map makes it; `zero_side` is the side with the number 0.
  unfoldable pub new_state : c.Side → SymbolState c
  new_state zero_side = record {
    price_history = [];
    ema_fast = c.price_of 0;
    ema_slow = c.price_of 0;
    in_position = false;
    position_side = zero_side;
    active_order_id = 0;
  }

  -- `symbol_states_[symbol]`
  unfoldable pub state_or_new : c.Side → MomentumStrategy c → c.Symbol → SymbolState c
  state_or_new zero_side m symbol =
      or_else (new_state zero_side) (HashMap.find c.symbol_eq symbol m.symbol_states)

  abbrev pub with_state : MomentumStrategy c → c.Symbol → SymbolState c → MomentumStrategy c
  with_state m symbol s = record m {
    symbol_states = HashMap.assign c.symbol_eq symbol s m.symbol_states;
  }

  -- `alpha * price + (1.0 - alpha) * average`
  abbrev pub ema : c.Price → c.Price → c.Price → c.Price
  ema alpha price average =
      c.price_add (c.price_mul alpha price) (c.price_mul (c.price_sub (c.price_of 1) alpha) average)

  -- What update_indicators does to the state of the symbol.
  unfoldable pub indicate : MomentumStrategy c → SymbolState c → c.Price → SymbolState c
  indicate m s price =
      let longer = s.price_history ++ price ∷ [] in
      let kept = if ltb 100 (length longer) then pop_front longer else longer in
      if c.price_eq s.ema_fast (c.price_of 0)
      then record s { price_history = kept; ema_fast = price; ema_slow = price }
      else record s {
        price_history = kept;
        ema_fast = ema m.fast_ema_alpha price s.ema_fast;
        ema_slow = ema m.slow_ema_alpha price s.ema_slow;
      }

  unfoldable pub update_indicators :
      c.Side → MomentumStrategy c → c.Symbol → c.Price → MomentumStrategy c
  update_indicators zero_side m symbol price =
      with_state m symbol (indicate m (state_or_new zero_side m symbol) price)

  abbrev pub momentum_of : SymbolState c → c.Price
  momentum_of s = c.price_div (c.price_sub s.ema_fast s.ema_slow) s.ema_slow

  unfoldable pub check_entry_signal : MomentumStrategy c → SymbolState c → Bool
  check_entry_signal m s =
      not (ltb (length s.price_history) 10)
      && c.price_lt m.momentum_threshold (a.abs (momentum_of s))

  unfoldable pub check_exit_signal : MomentumStrategy c → SymbolState c → Bool
  check_exit_signal m s =
      let half = a.decimal 5 1 in
      (c.is_buy s.position_side
        && c.price_lt (momentum_of s) (c.price_mul (a.negate m.momentum_threshold) half))
      || (not (c.is_buy s.position_side)
          && c.price_lt (c.price_mul m.momentum_threshold half) (momentum_of s))

  -- The order of enter_position, and the state behind it. The order's id is the time in nanoseconds,
  -- `ns`, and the result of its submission is not read.
  unfoldable pub enter_position :
      MomentumStrategy c
      → c.Symbol
      → SymbolState c
      → c.Side
      → c.Price
      → ℕ
      → c.TimePoint
      → SymbolState c × Option (Order c)
  enter_position m symbol s side price ns now = (
    record s { in_position = true; position_side = side; active_order_id = ns },
    some (new_order c ns symbol side c.market price m.position_size now),
  )

  unfoldable pub exit_position :
      MomentumStrategy c
      → c.Symbol
      → SymbolState c
      → c.Price
      → ℕ
      → c.TimePoint
      → SymbolState c × Option (Order c)
  exit_position m symbol s price ns now =
      if s.in_position
      then (
        record s { in_position = false; active_order_id = 0 },
        some (
            new_order c ns symbol (if c.is_buy s.position_side then c.sell else c.buy) c.market
              price m.position_size now),
      )
      else (s, none)

  -- The branches of on_tick, for the state of the symbol behind update_indicators.
  unfoldable pub decide :
      MomentumStrategy c
      → c.Symbol
      → SymbolState c
      → c.Price
      → ℕ
      → c.TimePoint
      → SymbolState c × Option (Order c)
  decide m symbol s price ns now =
      let entry_side = if c.price_lt s.ema_slow s.ema_fast then c.buy else c.sell in
      if not s.in_position && check_entry_signal m s
      then enter_position m symbol s entry_side price ns now
      else if s.in_position && check_exit_signal m s
      then exit_position m symbol s price ns now
      else (s, none)

  -- on_tick: the strategy behind it and the order that it submits.
  unfoldable pub on_tick :
      c.Side
      → MomentumStrategy c
      → HistoricalTick c
      → ℕ
      → c.TimePoint
      → MomentumStrategy c × Option (Order c)
  on_tick zero_side m t ns now =
      let indicated = indicate m (state_or_new zero_side m t.symbol) t.mid_price in
      let decided = decide m t.symbol indicated t.mid_price ns now in
      if m.attached then (with_state m t.symbol decided.0, decided.1) else (m, none)
