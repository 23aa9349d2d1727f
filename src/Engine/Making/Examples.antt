-- ===== src/Engine/Making/Examples.antt =====
-- The market maker at a quote.
use hft_engine.Base.{List, max, none, some, [], ◌∷◌, ◌≡◌, if◌then◌else◌, ==_iff}
use hft_engine.Core.Laws.{whole}
use hft_engine.Samples.{sample}
use hft_engine.Engine.Requests.{submit_order}
use hft_engine.Engine.Making.{
  Doubles, MarketMakingEngine, new_maker, find_quotes, cancel_quotes, quote_orders, update_quotes,
  should_quote,
}
use hft_engine.Engine.Making.Quoting.{find_quotes-update_quotes}
use hft_engine.Engine.Making.Rounds.{Errand, starts, stops, tick, work}

abbrev wholes : Doubles whole
wholes = record { abs = λ x. x; max = max; to_quantity = λ x. x; one_tenth = 0; one_millionth = 0 }

abbrev maker : MarketMakingEngine whole sample
maker = new_maker whole sample wholes 5 100 900000000

-- The maker with the quotes 7 and 8 for the symbol 1.
abbrev quoting : MarketMakingEngine whole sample
quoting = record maker { active_quotes = (1, (7, 8)) ∷ [] }

-- The maker starts, quotes the symbol 1 and its worker takes both orders.
abbrev errands : List (Errand whole)
errands =
    starts ∷ tick 1 1000 5 ∷ work 0 (λ n. n) 6 1 ∷ work 0 (λ n. n) 7 1 ∷ tick 1 1010 8 ∷ stops ∷ []

find_quotes-update_quotes_example :
    let (bid, ask, k) =
      quote_orders whole sample wholes (cancel_quotes whole sample wholes quoting 1) 1 1000 5 in
    let first = submit_order whole sample k.matching_engine bid 5 in
    find_quotes whole sample wholes (update_quotes whole sample wholes quoting 1 1000 5) 1 ≡ (
      if should_quote whole sample wholes quoting 1
      then if first.0
        then if (submit_order whole sample first.1 ask 5).0 then some (bid.id, ask.id) else none
        else none
      else none)
find_quotes-update_quotes_example =
    find_quotes-update_quotes whole sample wholes ==_iff quoting 1 1000 5
