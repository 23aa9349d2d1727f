-- ===== src/Backtesting/Properties/Entries/Totals.antt =====
-- What a run of ticks orders.
use hft_engine.Base.{
  ℕ, ◌+◌, true, Option, none, List, [], ◌∷◌, ◌++◌, ◌≡◌, refl, ap, sym, ◌∙◌, if◌then◌else◌, arith,
  inl, inr, Bool-cases,
}
use mathlib.Core.Path.{subst}
use hft_engine.Core.{Core}
use hft_engine.Core.Laws.{IsCore}
use hft_engine.Containers.HashMap
use hft_engine.Containers.HashMap.{or_else-assign}
use hft_engine.Order.{Order}
use hft_engine.Analytics.Types.{Arithmetic}
use hft_engine.Backtesting.Ticks.{HistoricalTick}
use hft_engine.Backtesting.Momentum.{
  SymbolState, MomentumStrategy, new_momentum, new_state, state_or_new, indicate, decide, on_tick,
  with_state,
}
use hft_engine.Backtesting.Strategies.{Reading}
use hft_engine.Backtesting.Properties.Entries.{listed, run, bought, sold, Balanced}
use hft_engine.Backtesting.Properties.Entries.Decisions.{
  orders, Keeps, indicate-Balanced, decide-Balanced, Others, decide-Others,
}

module _ {c : Core} (a : Arithmetic c) (k : IsCore c) where
  -- The state of every symbol, of which the orders a k so far were `b s` and `q s`.
  abbrev AllBalanced : MomentumStrategy c → (c.Symbol → ℕ) → (c.Symbol → ℕ) → Type 0
  AllBalanced m b q =
      (s : c.Symbol) → Balanced c m.position_size (b s) (q s) (state_or_new c a c.buy m s)

  bought-append :
      (s : c.Symbol) (xs ys : List (Order c))
      → bought c s (xs ++ ys) ≡ bought c s xs + bought c s ys
  bought-append s [] ys = omega arith
  bought-append s (o ∷ xs) ys = ground (arith, bought-append s xs ys)

  sold-append :
      (s : c.Symbol) (xs ys : List (Order c)) → sold c s (xs ++ ys) ≡ sold c s xs + sold c s ys
  sold-append s [] ys = omega arith
  sold-append s (o ∷ xs) ys = ground (arith, sold-append s xs ys)

  -- The decision on a tick, for the state of its symbol.
  abbrev decision :
      MomentumStrategy c → HistoricalTick c → Reading c → SymbolState c × Option (Order c)
  decision m t r =
      decide c a m t.symbol (indicate c a m (state_or_new c a c.buy m t.symbol) t.mid_price)
        t.mid_price r.ns r.now

  on_tick_attached :
      (m : MomentumStrategy c) (t : HistoricalTick c) (r : Reading c)
      → m.attached ≡ true
      → on_tick c a c.buy m t r.ns r.now
        ≡ (with_state c a m t.symbol (decision m t r).0, (decision m t r).1)
  unfolding on_tick
  on_tick_attached m t r on =
      ap
        (λ b.
          if b
          then (with_state c a m t.symbol (decision m t r).0, (decision m t r).1)
          else (m, none))
        on

  shift-Balanced :
      (size b q b' q' : ℕ) (st : SymbolState c)
      → b' ≡ b
      → q' ≡ q
      → Balanced c size b q st
      → Balanced c size b' q' st
  shift-Balanced size b q b' q' st e f h = (
    h.0,
    λ x. e ∙ h.1 x ∙ sym f,
    λ x y. omega (arith, e, f, h.2 x y),
    λ x y. omega (arith, e, f, h.3 x y),
  )

  decision-Balanced :
      (m : MomentumStrategy c) (t : HistoricalTick c) (r : Reading c) (b q : c.Symbol → ℕ)
      (s : c.Symbol)
      → AllBalanced m b q
      → Balanced c m.position_size
          (b s + bought c s (orders a k (decision m t r)))
          (q s + sold c s (orders a k (decision m t r)))
          (if c.symbol_eq t.symbol s then (decision m t r).0 else state_or_new c a c.buy m s)
  unfolding Others
  decision-Balanced m t r b q s h = elim (Bool-cases (c.symbol_eq t.symbol s)) [
    | inl e ↦
        subst
          (λ x.
            Balanced c m.position_size (b s + bought c s (orders a k (decision m t r)))
              (q s + sold c s (orders a k (decision m t r)))
              (if x then (decision m t r).0 else state_or_new c a c.buy m s))
          (sym e)
          (subst (λ j. Keeps a k m.position_size j (b j) (q j) (decision m t r))
            ((k.symbol_eq_iff t.symbol s).0 e)
            (decide-Balanced a k m t.symbol _ t.mid_price r.ns r.now (b t.symbol) (q t.symbol) (
              indicate-Balanced a k m _ t.mid_price m.position_size (b t.symbol) (q t.symbol)
                (h t.symbol))))
    | inr e ↦
        let (x, y) =
          decide-Others a k m t.symbol s
            (indicate c a m (state_or_new c a c.buy m t.symbol) t.mid_price) t.mid_price r.ns r.now
            e in
        subst
          (λ z.
            Balanced c m.position_size (b s + bought c s (orders a k (decision m t r)))
              (q s + sold c s (orders a k (decision m t r)))
              (if z then (decision m t r).0 else state_or_new c a c.buy m s))
          (sym e)
          (shift-Balanced m.position_size (b s) (q s) _ _ (state_or_new c a c.buy m s)
            (omega (arith, x)) (omega (arith, y)) (h s))
  ]

  states-with_state :
      (m : MomentumStrategy c) (j s : c.Symbol) (st : SymbolState c)
      → state_or_new c a c.buy (with_state c a m j st) s
        ≡ (if c.symbol_eq j s then st else state_or_new c a c.buy m s)
  unfolding state_or_new
  states-with_state m j s st =
      or_else-assign c.symbol_eq k.symbol_eq_iff (new_state c a c.buy) s j st m.symbol_states

  abbrev Ran : MomentumStrategy c → MomentumStrategy c → (c.Symbol → ℕ) → (c.Symbol → ℕ) → Type 0
  Ran m m' b q = (m'.position_size ≡ m.position_size) × AllBalanced m' b q

  stepped :
      (m : MomentumStrategy c) (t : HistoricalTick c) (r : Reading c) (b q : c.Symbol → ℕ)
      → AllBalanced m b q
      → AllBalanced
          (with_state c a m t.symbol (decision m t r).0)
          (λ s. b s + bought c s (orders a k (decision m t r)))
          (λ s. q s + sold c s (orders a k (decision m t r)))
  stepped m t r b q h s =
      subst
        (Balanced c m.position_size (b s + bought c s (orders a k (decision m t r)))
          (q s + sold c s (orders a k (decision m t r))))
        (sym (states-with_state m t.symbol s (decision m t r).0)) (decision-Balanced m t r b q s h)

  -- The run behind a first tick that left `ticked`.
  abbrev Continued :
      MomentumStrategy c
      → List (HistoricalTick c × Reading c)
      → (c.Symbol → ℕ)
      → (c.Symbol → ℕ)
      → MomentumStrategy c × Option (Order c)
      → Type 0
  Continued m ts b q ticked =
      let ran = run c a c.buy ticked.0 ts in
      Ran m ran.0 (λ s. b s + bought c s (listed c a c.buy ticked.1 ++ ran.1))
        (λ s. q s + sold c s (listed c a c.buy ticked.1 ++ ran.1))

  continue-Balanced :
      (m : MomentumStrategy c) (ts : List (HistoricalTick c × Reading c)) (b q : c.Symbol → ℕ)
      → (ticked : MomentumStrategy c × Option (Order c))
      → (let ran = run c a c.buy ticked.0 ts in
          Ran m ran.0
            (λ s. b s + bought c s (listed c a c.buy ticked.1) + bought c s ran.1)
            (λ s. q s + sold c s (listed c a c.buy ticked.1) + sold c s ran.1))
      → Continued m ts b q ticked
  continue-Balanced m ts b q ticked (same_size, h) =
      let ran = run c a c.buy ticked.0 ts in
      let os = listed c a c.buy ticked.1 in
      (
        same_size,
        λ s.
            shift-Balanced ran.0.position_size (b s + bought c s os + bought c s ran.1)
              (q s + sold c s os + sold c s ran.1) _ _ (state_or_new c a c.buy ran.0 s)
              (omega (arith, bought-append s os ran.1)) (omega (arith, sold-append s os ran.1))
              (h s),
      )

  start :
      (fast slow threshold : c.Price) (size : ℕ)
      → AllBalanced
          (record (new_momentum c a fast slow threshold size) { attached = true })
          (λ _. 0)
          (λ _. 0)
  unfolding new_momentum state_or_new new_state HashMap.find
  start fast slow threshold size s = (omega arith, λ _. refl, λ e. absurd (cc), λ e. absurd (cc))

  run-Balanced :
      (m : MomentumStrategy c) (ts : List (HistoricalTick c × Reading c)) (b q : c.Symbol → ℕ)
      → m.attached ≡ true
      → AllBalanced m b q
      → Ran m
          (run c a c.buy m ts).0
          (λ s. b s + bought c s (run c a c.buy m ts).1)
          (λ s. q s + sold c s (run c a c.buy m ts).1)
  run-Balanced m [] b q on h = (
    refl,
    λ s. (
      (h s).0,
      λ f. omega (arith, (h s).1 f),
      λ f g. omega (arith, (h s).2 f g),
      λ f g. omega (arith, (h s).3 f g),
    ),
  )
  run-Balanced m ((t, r) ∷ ts) b q on h =
      let m' = with_state c a m t.symbol (decision m t r).0 in
      subst (Continued m ts b q) (sym (on_tick_attached m t r on)) (
        continue-Balanced m ts b q (m', (decision m t r).1)
          (run-Balanced m' ts (λ s. b s + bought c s (orders a k (decision m t r)))
            (λ s. q s + sold c s (orders a k (decision m t r))) on (stepped m t r b q h)))

  -- Symbols and sides as IsCore says, and any ticks on a new strategy that is attached to an engine:
  -- for each symbol, at most 100 prices are kept; while no position is held, the orders a k so far bought
  -- as much as they sold; while one is held, they bought the position size more than they sold if it
  -- is a purchase, and sold as much more than they bought otherwise.
  pub entries-Balanced :
      (fast slow threshold : c.Price) (size : ℕ) (ts : List (HistoricalTick c × Reading c))
      → (s : c.Symbol)
      → let m = record (new_momentum c a fast slow threshold size) { attached = true } in
        let ran = run c a c.buy m ts in
        Balanced c size (bought c s ran.1) (sold c s ran.1) (state_or_new c a c.buy ran.0 s)
  unfolding new_momentum
  entries-Balanced fast slow threshold size ts s =
      let m = record (new_momentum c a fast slow threshold size) { attached = true } in
      let ran = run c a c.buy m ts in
      let (same_size, h) =
        run-Balanced m ts (λ _. 0) (λ _. 0) refl (start fast slow threshold size) in
      let st = state_or_new c a c.buy ran.0 s in
      shift-Balanced size (0 + bought c s ran.1) (0 + sold c s ran.1) (bought c s ran.1)
        (sold c s ran.1) st (omega arith) (omega arith)
        (subst (λ n. Balanced c n (0 + bought c s ran.1) (0 + sold c s ran.1) st) same_size (h s))
