-- ===== src/Analytics/Properties/Slippage/History.antt =====
-- The price history of SlippageAnalyzer.
use hft_engine.Base.{
  ℕ, ◌≤◌, ◌<◌, true, List, [], ◌∷◌, ◌++◌, ◌≡◌, ◌↔◌, refl, sym, ap, ◌∙◌, if◌then◌else◌, ltb, length,
  length-append, arith, inl, inr, Bool-cases,
}
use hft_engine.Core.{Core}
use hft_engine.Containers.HashMap
use hft_engine.Containers.HashMap.{or_else-assign}
use hft_engine.Analytics.Types.{Arithmetic, Trade}
use hft_engine.Analytics.Slippage
use hft_engine.Analytics.Slippage.{
  SlippageAnalyzer, ReferencePrice, new_analyzer, history, erase_front,
}
use hft_engine.Analytics.Properties.Slippage.{
  SlippageCall, trade, price, restart, step, run, prices_after,
}

module _ {A : Type 0} where
  -- The last `n` elements, all of them if there are no more.
  abbrev pub latest : ℕ → List A → List A
  latest n [] = []
  latest n (x ∷ xs) = if ltb (length xs) n then x ∷ xs else latest n xs

  latest-le : (n : ℕ) (xs : List A) → length (latest n xs) ≤ n
  latest-le n [] = omega arith
  latest-le n (x ∷ xs) = elim (Bool-cases (ltb (length xs) n)) [
    | inl e ↦ rw e (ground arith)
    | inr e ↦ rw e (latest-le n xs)
  ]

  latest-short : (n : ℕ) (xs : List A) → length xs ≤ n → latest n xs ≡ xs
  latest-short n [] h = refl
  latest-short n (x ∷ xs) h = ground arith

  -- What is left of a list when its front is erased once it is too long.
  abbrev pub trim : ℕ → List A → List A
  trim n xs = if ltb n (length xs) then erase_front xs else xs

  latest-last :
      (n : ℕ) (xs : List A) (y : A)
      → 0 < n
      → latest n (xs ++ y ∷ []) ≡ trim n (latest n xs ++ y ∷ [])
  latest-last n [] y h = ground arith
  latest-last n (x ∷ xs) y h = elim (Bool-cases (ltb (length xs) n)) [
    | inl e ↦ rw e (ground (arith, length-append xs (y ∷ []), latest-short n (xs ++ y ∷ [])))
    | inr e ↦ rw (e, latest-last n xs y h) (ground (arith, length-append xs (y ∷ [])))
  ]

module _ {c : Core} (a : Arithmetic c)
    (symbol_eq_iff : (s t : c.Symbol) → (c.symbol_eq s t ≡ true) ↔ (s ≡ t)) where
  history-update_price_history :
      (s : SlippageAnalyzer c) (i j : c.Symbol) (p : c.Price) (now : c.TimePoint)
      → history c a (Slippage.update_price_history c a s i p now) j ≡ (
          if c.symbol_eq i j then trim 1000 (history c a s i ++ (now, p) ∷ []) else history c a s j)
  unfolding Slippage.update_price_history history
  history-update_price_history s i j p now =
      or_else-assign c.symbol_eq symbol_eq_iff [] j i _ s.price_history

  history-record_trade :
      (s : SlippageAnalyzer c) (t : Trade c) (r : c.Price) (j : c.Symbol)
      → history c a (Slippage.record_trade c a s t r) j ≡ history c a s j
  unfolding Slippage.record_trade history Slippage.update_metrics
  history-record_trade s t r j = refl

  history-reset :
      (s : SlippageAnalyzer c) (j : c.Symbol)
      → history c a (Slippage.reset c a s) j ≡ history c a s j
  unfolding Slippage.reset history
  history-reset s j = refl

  history-new_analyzer :
      (type : ReferencePrice) (j : c.Symbol) → history c a (new_analyzer c a type) j ≡ []
  unfolding history new_analyzer HashMap.find
  history-new_analyzer type j = refl

  step-history :
      (s : SlippageAnalyzer c) (x : SlippageCall c) (j : c.Symbol)
      (h : List (c.TimePoint × c.Price))
      → history c a s j ≡ latest 1000 h
      → history c a (step c a s x) j ≡ latest 1000 (prices_after c a j h (x ∷ []))
  step-history s (trade t r) j h e = history-record_trade s t r j ∙ e
  step-history s (price i p now) j h e = elim (Bool-cases (c.symbol_eq i j)) [
    | inl same ↦
        rw (history-update_price_history s i j p now, same, (symbol_eq_iff i j).0 same, e)
          (sym (latest-last 1000 h (now, p) (omega arith)))
    | inr other ↦ rw (history-update_price_history s i j p now, other) e
  ]
  step-history s restart j h e = history-reset s j ∙ e

  run-history :
      (s : SlippageAnalyzer c) (xs : List (SlippageCall c)) (j : c.Symbol)
      → (h : List (c.TimePoint × c.Price)) → history c a s j ≡ latest 1000 h
      → history c a (run c a s xs) j ≡ latest 1000 (prices_after c a j h xs)
  run-history s [] j h e = e
  run-history s (x ∷ xs) j h e =
      run-history (step c a s x) xs j (prices_after c a j h (x ∷ [])) (step-history s x j h e)
      ∙ ap (latest 1000) (prices_after-cons x xs j h)
    where
      prices_after-cons :
          (x : SlippageCall c) (xs : List (SlippageCall c)) (j : c.Symbol)
          (h : List (c.TimePoint × c.Price))
          → prices_after c a j (prices_after c a j h (x ∷ [])) xs ≡ prices_after c a j h (x ∷ xs)
      prices_after-cons (trade t r) xs j h = refl
      prices_after-cons (price i p now) xs j h = refl
      prices_after-cons restart xs j h = refl

  -- After any calls on a new analyzer, the history of a symbol has at most 1000 entries: the last of
  -- the prices that the calls gave for it, all of them if there were no more.
  pub history_bounded :
      (type : ReferencePrice) (xs : List (SlippageCall c)) (j : c.Symbol)
      → let h = history c a (run c a (new_analyzer c a type) xs) j in
        (length h ≤ 1000) × (h ≡ latest 1000 (prices_after c a j [] xs))
  history_bounded type xs j =
      let e = run-history (new_analyzer c a type) xs j [] (history-new_analyzer type j) in
      (rw e (latest-le 1000 (prices_after c a j [] xs)), e)
