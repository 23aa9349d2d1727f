-- ===== src/Engine/Properties/LegacyRounds.antt =====
-- A round of the worker in an engine without segment trees.
use hft_engine.Base.{
  ℕ, suc, Bool, true, false, some, List, [], ◌∷◌, ◌≡◌, refl, ◌∙◌, inl, inr, arith, Bool-cases, ◌==◌,
  All, All-append,
}
use hft_engine.Core.{Core}
use hft_engine.Containers.HashMap
use hft_engine.Containers.HashMap.{assign-Values, find-Values}
use hft_engine.Order.{Order}
use hft_engine.OrderBook.{OrderBook, Orders}
use hft_engine.OrderBook.TreeMode.{IsTreeBook, add_order-IsTreeBook}
use hft_engine.Engine.Types.{Fill, Event, Environment}
use hft_engine.Engine.State.{Engine, emit_if, get_or_create_order_book}
use hft_engine.Engine.Properties.Finish.{finish_order-SameBooks}
use hft_engine.Engine.Process.{rests, settle_in_book, process_in_book, finish_order, process_order}
use hft_engine.Engine.Properties.Runs.{HasNoFill, IsLegacy}
use hft_engine.Engine.Properties.TreeBooks.{match-IsTreeBook, book-IsTreeBook}

module _ (c : Core) (e : Environment c) where
  emitted_reports :
      (b : Bool) (x : Event c) (g : Engine c e)
      → HasNoFill x
      → All HasNoFill g.events
      → All HasNoFill (emit_if c e b x g).events
  emitted_reports true x g h hs = All-append HasNoFill g.events (x ∷ []) hs (h, tt)
  emitted_reports false x g h hs = hs

  settle-IsLegacy :
      (g : Engine c e) (o : Order c) (b : OrderBook c e.levels) (active : Orders c)
      → IsTreeBook c e.levels b
      → IsLegacy c e g
      → IsLegacy c e (settle_in_book c e g o b active)
  unfolding settle_in_book
  settle-IsLegacy g o b active j i = record {
    mode = i.mode;
    books =
        assign-Values c.symbol_eq (IsTreeBook c e.levels) o.symbol _ g.order_books
          (elim (Bool-cases (rests c o)) [
            | inl r ↦ rw r (add_order-IsTreeBook c e.levels b o j)
            | inr r ↦ rw r j
          ])
          i.books;
    no_fills = i.no_fills;
    no_matches = i.no_matches;
  }

  finish-IsLegacy :
      (g : Engine c e) (o : Order c) (now : c.TimePoint) (latency : c.Price)
      → IsLegacy c e g
      → IsLegacy c e (finish_order c e g o [] now latency)
  unfolding finish_order
  finish-IsLegacy g o now latency i =
      let same = finish_order-SameBooks c e g o [] now latency in
      record {
        mode = same.mode ∙ i.mode;
        books = rw same.books i.books;
        no_fills = ground (arith, i.no_fills);
        no_matches = ground (arith, i.no_matches);
      }

  process_order_book :
      (fuel : ℕ) (clock : ℕ → c.TimePoint) (now : c.TimePoint) (latency : c.Price) (g : Engine c e)
      (o : Order c) (g' : Engine c e) (fs : List (Fill c))
      → g.use_segment_tree ≡ false
      → process_in_book c e (suc fuel) clock g o ≡ some (g', fs)
      → process_order c e (suc fuel) clock now latency g o
        ≡ some (finish_order c e g' o fs now latency)
  unfolding process_order
  process_order_book fuel clock now latency g o g' fs m ran = simp (m, process_order) (rw ran)

  pub work-IsQuiet :
      (fuel : ℕ) (clock : ℕ → c.TimePoint) (now : c.TimePoint) (latency : c.Price) (g : Engine c e)
      (o : Order c)
      → IsLegacy c e g
      → (g' : Engine c e) × (process_order c e (suc fuel) clock now latency g o ≡ some g')
        × IsLegacy c e g'
        × (All HasNoFill g.events → All HasNoFill g'.events)
  unfolding process_order process_in_book settle_in_book finish_order
  work-IsQuiet fuel clock now latency g o i =
      let (b, active, ran, j) =
        match-IsTreeBook c e.levels clock fuel o (get_or_create_order_book c e g o.symbol)
          (HashMap.assign ◌==◌ o.id o g.active_orders) (book-IsTreeBook c e g o.symbol i.books) in
      let settled = settle_in_book c e g o b active in
      (
        finish_order c e settled o [] now latency,
        process_order_book fuel clock now latency g o settled [] i.mode (rw (ran, process_in_book)),
        finish-IsLegacy settled o now latency (settle-IsLegacy g o b active j i),
        emitted_reports g.has_execution_callback _ _ refl,
      )
