-- ===== src/Backtesting/Properties/Entries/Decisions.antt =====
-- What one tick orders.
use hft_engine.Base.{
  ℕ, ◌+◌, ◌≤◌, Bool, true, false, not, ◌&&◌, Option, none, some, List, [], ◌∷◌, ◌++◌, ◌≡◌, refl,
  sym, if◌then◌else◌, ltb, length, length-append, arith, inl, inr, Bool-cases,
}
use mathlib.Core.Path.{subst}
use hft_engine.Core.{Core}
use hft_engine.Core.Laws.{IsCore}
use hft_engine.Order.{Order, new_order}
use hft_engine.Analytics.Types.{Arithmetic}
use hft_engine.Backtesting.Momentum.{
  SymbolState, MomentumStrategy, indicate, check_entry_signal, check_exit_signal, enter_position,
  exit_position, decide, pop_front,
}
use hft_engine.Backtesting.Properties.Entries.{listed, bought, sold, Balanced}

if_three :
    {A : Type 0} (P : A → Type 0) (x y : Bool) (p q r : A)
    → (x ≡ true → P p)
    → (y ≡ true → P q)
    → P r
    → P (if x then p else if y then q else r)
if_three P true y p q r h k l = h refl
if_three P false true p q r h k l = k refl
if_three P false false p q r h k l = l

module _ {c : Core} (a : Arithmetic c) (k : IsCore c) where
  -- Two states with the same position, and a history that is short enough.
  moved-Balanced :
      (size b q : ℕ) (st st' : SymbolState c)
      → length st'.price_history ≤ 100
      → st'.in_position ≡ st.in_position
      → st'.position_side ≡ st.position_side
      → Balanced c size b q st
      → Balanced c size b q st'
  moved-Balanced size b q st st' l p r h = (l, rw p h.1, rw (p, r) h.2, rw (p, r) h.3)

  trimmed-le :
      (prices : List c.Price) (price : c.Price)
      → length prices ≤ 100
      → length (
          if ltb 100 (length (prices ++ price ∷ []))
          then pop_front (prices ++ price ∷ [])
          else prices ++ price ∷ [])
        ≤ 100
  trimmed-le [] price h = ground arith
  trimmed-le (x ∷ prices) price h = ground (arith, length-append prices (price ∷ []))

  indicate-fields :
      (m : MomentumStrategy c) (st : SymbolState c) (price : c.Price)
      → (length st.price_history ≤ 100 → length (indicate c a m st price).price_history ≤ 100)
        × ((indicate c a m st price).in_position ≡ st.in_position)
        × ((indicate c a m st price).position_side ≡ st.position_side)
  unfolding indicate
  indicate-fields m st price = elim (Bool-cases (c.price_eq st.ema_fast (c.price_of 0))) [
    | inl e ↦ rw (e, indicate) (λ h. trimmed-le st.price_history price h, refl, refl)
    | inr e ↦ rw (e, indicate) (λ h. trimmed-le st.price_history price h, refl, refl)
  ]

  pub indicate-Balanced :
      (m : MomentumStrategy c) (st : SymbolState c) (price : c.Price) (size b q : ℕ)
      → Balanced c size b q st
      → Balanced c size b q (indicate c a m st price)
  indicate-Balanced m st price size b q h =
      let (l, p, r) = indicate-fields m st price in
      moved-Balanced size b q st (indicate c a m st price) (l h.0) p r h

  one_bought :
      (s : c.Symbol) (o : Order c)
      → c.symbol_eq o.symbol s ≡ true
      → c.is_buy o.side ≡ true
      → (bought c s (o ∷ []) ≡ o.quantity) × (sold c s (o ∷ []) ≡ 0)
  one_bought s o e f = ground arith

  one_sold :
      (s : c.Symbol) (o : Order c)
      → c.symbol_eq o.symbol s ≡ true
      → c.is_buy o.side ≡ false
      → (bought c s (o ∷ []) ≡ 0) × (sold c s (o ∷ []) ≡ o.quantity)
  one_sold s o e f = ground arith

  -- The orders of a decision.
  abbrev pub orders : SymbolState c × Option (Order c) → List (Order c)
  orders d = listed c a c.buy d.1

  -- A decision on the symbol keeps the balance.
  abbrev pub Keeps : ℕ → c.Symbol → ℕ → ℕ → SymbolState c × Option (Order c) → Type 0
  Keeps size s b q d = Balanced c size (b + bought c s (orders d)) (q + sold c s (orders d)) d.0

  same : (s : c.Symbol) → c.symbol_eq s s ≡ true
  same s = (k.symbol_eq_iff s s).1 refl

  enter-Balanced :
      (m : MomentumStrategy c) (s : c.Symbol) (st : SymbolState c) (side : c.Side) (price : c.Price)
      → (ns : ℕ) (now : c.TimePoint) (b q : ℕ) → st.in_position ≡ false
      → Balanced c m.position_size b q st
      → Keeps m.position_size s b q (enter_position c a m s st side price ns now)
  unfolding enter_position new_order
  enter-Balanced m s st side price ns now b q out h =
      let o = new_order c ns s side c.market price m.position_size now in
      elim (Bool-cases (c.is_buy side)) [
        | inl f ↦
            let (x, y) = one_bought s o (same s) f in
            (h.0, λ e. absurd (cc), λ _ _. omega (arith, h.1 out, x, y), λ _ e. absurd (cc))
        | inr f ↦
            let (x, y) = one_sold s o (same s) f in
            (h.0, λ e. absurd (cc), λ _ e. absurd (cc), λ _ _. omega (arith, h.1 out, x, y))
      ]

  -- What exit_position returns while the position is held.
  exited :
      MomentumStrategy c
      → c.Symbol
      → SymbolState c
      → c.Side
      → c.Price
      → ℕ
      → c.TimePoint
      → SymbolState c × Option (Order c)
  exited m s st side price ns now = (
    record st { in_position = false; active_order_id = 0 },
    some (new_order c ns s side c.market price m.position_size now),
  )

  exit_held :
      (m : MomentumStrategy c) (s : c.Symbol) (st : SymbolState c) (price : c.Price)
      → (ns : ℕ) (now : c.TimePoint) → st.in_position ≡ true
      → exit_position c a m s st price ns now
        ≡ exited m s st (if c.is_buy st.position_side then c.sell else c.buy) price ns now
  unfolding exited exit_position
  exit_held m s st price ns now held = rw (exit_position, held) refl

  exited-Balanced :
      (m : MomentumStrategy c) (s : c.Symbol) (st : SymbolState c) (price : c.Price)
      → (ns : ℕ) (now : c.TimePoint) (b q : ℕ) → st.in_position ≡ true
      → Balanced c m.position_size b q st
      → Keeps m.position_size s b q
          (exited m s st (if c.is_buy st.position_side then c.sell else c.buy) price ns now)
  unfolding exited new_order
  exited-Balanced m s st price ns now b q held h = elim (Bool-cases (c.is_buy st.position_side)) [
    | inl f ↦
        let (x, y) =
          one_sold s (new_order c ns s c.sell c.market price m.position_size now) (same s)
            k.sell_lem in
        rw f (h.0, λ _. omega (arith, h.2 held f, x, y), λ e. absurd (cc), λ e. absurd (cc))
    | inr f ↦
        let (x, y) =
          one_bought s (new_order c ns s c.buy c.market price m.position_size now) (same s)
            k.buy_lem in
        rw f (h.0, λ _. omega (arith, h.3 held f, x, y), λ e. absurd (cc), λ e. absurd (cc))
  ]

  pub decide-Balanced :
      (m : MomentumStrategy c) (s : c.Symbol) (st : SymbolState c) (price : c.Price) (ns : ℕ)
      → (now : c.TimePoint) (b q : ℕ) → Balanced c m.position_size b q st
      → Keeps m.position_size s b q (decide c a m s st price ns now)
  unfolding decide
  decide-Balanced m s st price ns now b q h =
      if_three (Keeps m.position_size s b q) (not st.in_position && check_entry_signal c a m st)
        (st.in_position && check_exit_signal c a m st) _ _ _
        (λ e. enter-Balanced m s st _ price ns now b q (ground (arith, e)) h)
        (λ e.
          let held : st.in_position ≡ true = ground (arith, e) in
          subst (Keeps m.position_size s b q) (sym (exit_held m s st price ns now held))
            (exited-Balanced m s st price ns now b q held h))
        (unchanged st h)
    where
      unchanged :
          (st : SymbolState c)
          → Balanced c m.position_size b q st
          → Keeps m.position_size s b q (st, none)
      unchanged st h = (
        h.0,
        λ e. omega (arith, h.1 e),
        λ e f. omega (arith, h.2 e f),
        λ e f. omega (arith, h.3 e f),
      )

  -- Nothing is ordered of another symbol.
  unfoldable pub Others : c.Symbol → SymbolState c × Option (Order c) → Type 0
  Others s d = (bought c s (orders d) ≡ 0) × (sold c s (orders d) ≡ 0)

  other_order :
      (s : c.Symbol) (o : Order c)
      → c.symbol_eq o.symbol s ≡ false
      → (bought c s (o ∷ []) ≡ 0) × (sold c s (o ∷ []) ≡ 0)
  other_order s o e = ground arith

  enter-Others :
      (m : MomentumStrategy c) (j s : c.Symbol) (st : SymbolState c) (side : c.Side)
      (price : c.Price)
      → (ns : ℕ) (now : c.TimePoint) → c.symbol_eq j s ≡ false
      → Others s (enter_position c a m j st side price ns now)
  unfolding enter_position Others new_order
  enter-Others m j s st side price ns now e =
      other_order s (new_order c ns j side c.market price m.position_size now) e

  exited-Others :
      (m : MomentumStrategy c) (j s : c.Symbol) (st : SymbolState c) (side : c.Side)
      (price : c.Price)
      → (ns : ℕ) (now : c.TimePoint) → c.symbol_eq j s ≡ false
      → Others s (exited m j st side price ns now)
  unfolding exited Others new_order
  exited-Others m j s st side price ns now e =
      other_order s (new_order c ns j side c.market price m.position_size now) e

  pub decide-Others :
      (m : MomentumStrategy c) (j s : c.Symbol) (st : SymbolState c) (price : c.Price) (ns : ℕ)
      → (now : c.TimePoint) → c.symbol_eq j s ≡ false
      → Others s (decide c a m j st price ns now)
  unfolding decide Others
  decide-Others m j s st price ns now e =
      if_three (Others s) (not st.in_position && check_entry_signal c a m st)
        (st.in_position && check_exit_signal c a m st) _ _ _
        (λ f. enter-Others m j s st _ price ns now e)
        (λ f.
          let held : st.in_position ≡ true = ground (arith, f) in
          subst (Others s) (sym (exit_held m j st price ns now held))
            (exited-Others m j s st _ price ns now e))
        (refl, refl)
