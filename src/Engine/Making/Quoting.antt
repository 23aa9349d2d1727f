-- ===== src/Engine/Making/Quoting.antt =====
-- The active quotes of the market maker.
use hft_engine.Base.{
  true, none, some, List, ◌≡◌, ◌↔◌, refl, ◌∙◌, inl, inr, Bool-cases, Option-cases, if◌then◌else◌,
}
use hft_engine.Core.{Core}
use hft_engine.Containers.HashMap
use hft_engine.Containers.HashMap.{find-assign, find-erase}
use hft_engine.Order.{Order}
use hft_engine.Engine.Types.{Environment}
use hft_engine.Engine.Requests.{submit_order}
use hft_engine.Engine.Making.{
  Doubles, MarketMakingEngine, find_quotes, cancel_quotes, submit_quotes, quote, quote_orders,
  create_quote_order, update_quotes, should_quote,
}

module _ (c : Core) (e : Environment c) (d : Doubles c)
    (same : (a b : c.Symbol) → (c.symbol_eq a b ≡ true) ↔ (a ≡ b)) where
  own_symbol : (s : c.Symbol) → c.symbol_eq s s ≡ true
  own_symbol s = (same s s).1 refl

  find-assigned :
      {V : Type 0} (s : c.Symbol) (v : V) (m : List (c.Symbol × V))
      → HashMap.find c.symbol_eq s (HashMap.assign c.symbol_eq s v m) ≡ some v
  find-assigned s v m = rw (find-assign c.symbol_eq same s s v m, own_symbol s) refl

  -- Behind submit_quotes for a symbol without quotes, its quotes are the two orders if both were
  -- queued.
  find_quotes-submit_quotes :
      (k : MarketMakingEngine c e) (symbol : c.Symbol) (bid ask : Order c) (now : c.TimePoint)
      → find_quotes c e d k symbol ≡ none
      → let first = submit_order c e k.matching_engine bid now in
        let second = submit_order c e first.1 ask now in
        find_quotes c e d (submit_quotes c e d k symbol bid ask now) symbol
        ≡ (if first.0 then if second.0 then some (bid.id, ask.id) else none else none)
  unfolding submit_quotes find_quotes
  find_quotes-submit_quotes k symbol bid ask now free =
      elim (Bool-cases (submit_order c e k.matching_engine bid now).0) [
        | inr n ↦ rw (submit_quotes, n) free
        | inl y ↦
            elim (Bool-cases
              (submit_order c e (submit_order c e k.matching_engine bid now).1 ask now).0) [
                | inr n ↦ rw (submit_quotes, y, n) free
                | inl z ↦
                    rw (submit_quotes, y, z) (find-assigned symbol (bid.id, ask.id) k.active_quotes)
              ]
      ]

  find_quotes-cancel_quotes :
      (k : MarketMakingEngine c e) (symbol : c.Symbol)
      → find_quotes c e d (cancel_quotes c e d k symbol) symbol ≡ none
  unfolding cancel_quotes find_quotes
  find_quotes-cancel_quotes k symbol = elim (Option-cases (find_quotes c e d k symbol)) [
    | inl n ↦ rw (cancel_quotes, n) n
    | inr (p, y) ↦
        rw (cancel_quotes, y)
          (rw (find-erase c.symbol_eq same symbol symbol k.active_quotes, own_symbol symbol) refl)
  ]

  find_quotes-quote_orders :
      (k : MarketMakingEngine c e) (symbol : c.Symbol) (reference : c.Price) (now : c.TimePoint)
      → find_quotes c e d (quote_orders c e d k symbol reference now).2 symbol
        ≡ find_quotes c e d k symbol
  unfolding quote_orders create_quote_order find_quotes
  find_quotes-quote_orders k symbol reference now = refl

  -- update_quotes on every branch: the active quotes of the symbol are the ids of the new bid and ask
  -- if the symbol should be quoted and both orders were queued, and there are none otherwise, also when
  -- the bid alone was queued.
  pub find_quotes-update_quotes :
      (k : MarketMakingEngine c e) (symbol : c.Symbol) (reference : c.Price) (now : c.TimePoint)
      → let (bid, ask, k') =
          quote_orders c e d (cancel_quotes c e d k symbol) symbol reference now in
        let first = submit_order c e k'.matching_engine bid now in
        find_quotes c e d (update_quotes c e d k symbol reference now) symbol ≡ (
          if should_quote c e d k symbol
          then if first.0
            then if (submit_order c e first.1 ask now).0 then some (bid.id, ask.id) else none
            else none
          else none)
  unfolding update_quotes quote
  find_quotes-update_quotes k symbol reference now =
      let cancelled = cancel_quotes c e d k symbol in
      let (bid, ask, k') = quote_orders c e d cancelled symbol reference now in
      let without =
        find_quotes-quote_orders cancelled symbol reference now
        ∙ find_quotes-cancel_quotes k symbol in
      elim (Bool-cases (should_quote c e d k symbol)) [
        | inr n ↦ rw (update_quotes, n) (find_quotes-cancel_quotes k symbol)
        | inl y ↦
            rw (update_quotes, y, quote) (find_quotes-submit_quotes k' symbol bid ask now without)
      ]
