-- ===== src/Backtesting/Properties/Drawdowns.antt =====
-- The greatest fall of an equity curve.
use hft_engine.Base.{false, List, [], ◌∷◌, ◌≡◌, if◌then◌else◌, All, arith, inl, inr, Bool-cases}
use hft_engine.Core.{Core}
use hft_engine.Containers.OrderedMap.Laws.{IsOrder}
use hft_engine.Analytics.Types.{Arithmetic}
use hft_engine.Backtesting.Suite.{drawdown, calculate_max_drawdown}

module _ (c : Core) where
  -- `x` is at least `y`.
  abbrev pub AtLeast : c.Price → c.Price → Type 0
  AtLeast x y = c.price_lt x y ≡ false

  -- The falls from the highest value so far, `peak` at first, as shares of it.
  abbrev pub falls : c.Price → List c.Price → List c.Price
  falls peak [] = []
  falls peak (value ∷ values) =
      if c.price_lt peak value
      then falls value values
      else c.price_div (c.price_sub peak value) peak ∷ falls peak values

  abbrev pub falls_of : List c.Price → List c.Price
  falls_of [] = []
  falls_of (value ∷ values) = falls value (value ∷ values)

module _ {c : Core} (a : Arithmetic c) (o : IsOrder c.price_lt)
    (max_lem : (x y : c.Price) → a.max x y ≡ (if c.price_lt x y then y else x)) where
  AtLeast-trans : (x y z : c.Price) → AtLeast c x y → AtLeast c y z → AtLeast c x z
  AtLeast-trans x y z h k = elim (Bool-cases (c.price_lt y x)) [
    | inl f ↦ ground (arith, o.trans y x z)
    | inr f ↦ rw (o.connected x y h f) k
  ]

  max_left : (x y : c.Price) → AtLeast c (a.max x y) x
  max_left x y = elim (Bool-cases (c.price_lt x y)) [
    | inl e ↦ rw (max_lem x y, e) (ground (arith, o.irrefl x, o.trans x y x))
    | inr e ↦ rw (max_lem x y, e) (o.irrefl x)
  ]

  max_right : (x y : c.Price) → AtLeast c (a.max x y) y
  max_right x y = elim (Bool-cases (c.price_lt x y)) [
    | inl e ↦ rw (max_lem x y, e) (o.irrefl y)
    | inr e ↦ rw (max_lem x y, e) e
  ]

  drawdown-AtLeast :
      (peak max_dd : c.Price) (values : List c.Price)
      → AtLeast c (drawdown c a peak max_dd values) max_dd
        × All (AtLeast c (drawdown c a peak max_dd values)) (falls c peak values)
  unfolding drawdown
  drawdown-AtLeast peak max_dd [] = (o.irrefl max_dd, tt)
  drawdown-AtLeast peak max_dd (value ∷ values) =
      let dd = c.price_div (c.price_sub peak value) peak in
      elim (Bool-cases (c.price_lt peak value)) [
        | inl e ↦ rw e (drawdown-AtLeast value max_dd values)
        | inr e ↦
            let (h, k) = drawdown-AtLeast peak (a.max max_dd dd) values in
            rw e (
              AtLeast-trans _ (a.max max_dd dd) max_dd h (max_left max_dd dd),
              (AtLeast-trans _ (a.max max_dd dd) dd h (max_right max_dd dd), k),
            )
      ]

  -- Prices in a strict total order, and std::max as the standard defines it: the greatest drawdown of
  -- a curve is at least 0, and at least each fall from the highest value before it.
  pub calculate_max_drawdown_lem :
      (curve : List c.Price)
      → AtLeast c (calculate_max_drawdown c a curve) (c.price_of 0)
        × All (AtLeast c (calculate_max_drawdown c a curve)) (falls_of c curve)
  unfolding calculate_max_drawdown
  calculate_max_drawdown_lem [] = (o.irrefl (c.price_of 0), tt)
  calculate_max_drawdown_lem (value ∷ values) =
      drawdown-AtLeast value (c.price_of 0) (value ∷ values)
