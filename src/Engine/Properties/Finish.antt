-- ===== src/Engine/Properties/Finish.antt =====
-- What the end of process_order leaves alone.
use hft_engine.Base.{ℕ, Bool, true, false, List, [], ◌∷◌, ◌≡◌, refl, ◌∙◌}
use hft_engine.Core.{Core}
use hft_engine.Order.{Order}
use hft_engine.Engine.Types.{
  Fill, MatchingStats, Event, filled, failed, validation_error, Environment,
}
use hft_engine.Engine.State.{Engine, emit_if}
use hft_engine.Engine.Process.{record_fill, record_fills, finish_order}

-- The engines hold the same books and orders, and are in the same mode.
pub record SameBooks (c : Core) (e : Environment c) (g h : Engine c e) : Type 0 where
  pub books : h.order_books ≡ g.order_books
  pub trees : h.segment_tree_books ≡ g.segment_tree_books
  pub tree_orders : h.segment_tree_orders ≡ g.segment_tree_orders
  pub active : h.active_orders ≡ g.active_orders
  pub mode : h.use_segment_tree ≡ g.use_segment_tree
  pub queue : h.incoming_orders ≡ g.incoming_orders

module _ (c : Core) (e : Environment c) where
  SameBooks-trans : {g h k : Engine c e} → SameBooks c e g h → SameBooks c e h k → SameBooks c e g k
  SameBooks-trans p q = record {
    books = q.books ∙ p.books;
    trees = q.trees ∙ p.trees;
    tree_orders = q.tree_orders ∙ p.tree_orders;
    active = q.active ∙ p.active;
    mode = q.mode ∙ p.mode;
    queue = q.queue ∙ p.queue;
  }

  -- New statistics, a new execution id and at most one callback.
  emit-SameBooks :
      (b : Bool) (x : Event c) (g : Engine c e) (s : MatchingStats c) (id : ℕ)
      → SameBooks c e g (emit_if c e b x (record g { stats = s; next_execution_id = id }))
  emit-SameBooks true x g s id = record {
    books = refl;
    trees = refl;
    tree_orders = refl;
    active = refl;
    mode = refl;
    queue = refl;
  }
  emit-SameBooks false x g s id = record {
    books = refl;
    trees = refl;
    tree_orders = refl;
    active = refl;
    mode = refl;
    queue = refl;
  }

  record_fills-SameBooks :
      (fs : List (Fill c)) (g : Engine c e) → SameBooks c e g (record_fills c e g fs)
  unfolding record_fills
  record_fills-SameBooks [] g = emit-SameBooks false (failed validation_error) g g.stats _
  record_fills-SameBooks (f ∷ fs) g =
      SameBooks-trans
        (emit-SameBooks g.has_fill_callback (filled f) g (record_fill c g.stats f)
          g.next_execution_id)
        (record_fills-SameBooks fs _)

  pub finish_order-SameBooks :
      (g : Engine c e) (o : Order c) (fs : List (Fill c)) (now : c.TimePoint) (latency : c.Price)
      → SameBooks c e g (finish_order c e g o fs now latency)
  unfolding finish_order
  finish_order-SameBooks g o fs now latency =
      SameBooks-trans (emit-SameBooks g.has_execution_callback _ g _ _)
        (record_fills-SameBooks fs _)
