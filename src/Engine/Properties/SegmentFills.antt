-- ===== src/Engine/Properties/SegmentFills.antt =====
-- The matching loop over a segment tree ends, and its fills fit the incoming order, whatever the tree
-- answers.
use hft_engine.Base.{
  ℕ, zero, suc, ◌+◌, ◌-◌, ◌≤◌, ◌<◌, Bool, false, some, List, [], ◌≡◌, ◌⊎◌, refl, inl, inr, arith,
  All, All-append, Bool-cases, List-cases, min, ◌==◌,
}
use hft_engine.Core.{Core, BookSegmentTree}
use hft_engine.Order.{Order, remaining_quantity}
use hft_engine.OrderBook.{Orders}
use hft_engine.Engine.Types.{Fill}
use hft_engine.Engine.Matching.{done, more, no_cross, add_filled, copy_filled}
use hft_engine.Engine.SegmentMatching.{
  SegmentState, best_price, top_of_book, make_fill, fill_top, cross, turn, match_loop,
  match_order_segment_tree_price_time,
}
use hft_engine.Engine.Properties.Fills.{
  IsFillable, IsWithin, total_filled, total_filled-append, remaining_exact, add_filled_exact,
}

-- The state of the loop that started with the order `o` and no fills.
pub record IsMatching (c : Core) (t : BookSegmentTree c.Price c.Side) (buying : Bool) (o : Order c)
    (s : SegmentState c t) : Type 0 where
  pub fillable : IsFillable c s.incoming
  pub same_id : s.incoming.id ≡ o.id
  pub same_price : s.incoming.price ≡ o.price
  pub same_quantity : s.incoming.quantity ≡ o.quantity
  pub accounted : s.incoming.filled_quantity ≡ o.filled_quantity + total_filled c s.fills
  pub within : All (IsWithin c buying o) s.fills

module _ (c : Core) (t : BookSegmentTree c.Price c.Side) (clock : ℕ → c.TimePoint) where
  fill_top-IsMatching :
      (buying : Bool) (o : Order c) (s : SegmentState c t) (best : c.Price) (q : ℕ)
      → IsMatching c t buying o s
      → no_cross c buying s.incoming.price best ≡ false
      → q ≤ remaining_quantity c s.incoming
      → IsMatching c t buying o (fill_top c t clock buying s best q)
  unfolding fill_top no_cross
  fill_top-IsMatching buying o s best q i n h =
      let a = add_filled_exact c s.incoming q i.fillable h in
      record {
        fillable = a.1;
        same_id = i.same_id;
        same_price = i.same_price;
        same_quantity = i.same_quantity;
        accounted =
            omega (
              arith,
              a.0,
              i.accounted,
              total_filled-append c s.fills (make_fill c t clock s best q),
            );
        within = All-append (IsWithin c buying o) s.fills _ i.within (
          record {
            aggressor = i.same_id;
            limit = rw (← i.same_price) (ground arith);
            priced = ground arith;
          },
          tt,
        );
      }

  cross_cases :
      (buying : Bool) (s : SegmentState c t) (best : c.Price)
      → (cross c t clock buying s best ≡ done s)
        ⊎ ((q : ℕ) × (cross c t clock buying s best ≡ more (fill_top c t clock buying s best q))
            × (q ≤ remaining_quantity c s.incoming)
            × (0 < q))
  unfolding cross
  cross_cases buying s best = elim (List-cases (top_of_book c t clock buying s.tree)) [
    | inl e ↦ inl (rw (e, cross))
    | inr ((p, q), ls, e) ↦ elim (Bool-cases (min (remaining_quantity c s.incoming) q == 0)) [
      | inl z ↦ inl (rw (e, cross) (rw z))
      | inr z ↦
          inr (
            min (remaining_quantity c s.incoming) q,
            rw (e, cross) (rw z),
            omega arith,
            ground arith,
          )
    ]
  ]

  -- A round ends the loop and changes nothing, or fills a positive part of what is left.
  turn_cases :
      (buying : Bool) (s : SegmentState c t)
      → (turn c t clock buying s ≡ done s)
        ⊎ ((q : ℕ) × (turn c t clock buying s
              ≡ more (fill_top c t clock buying s (best_price c t clock buying s.tree) q))
            × (no_cross c buying s.incoming.price (best_price c t clock buying s.tree) ≡ false)
            × (q ≤ remaining_quantity c s.incoming)
            × (0 < q))
  unfolding turn
  turn_cases buying s = elim (Bool-cases (remaining_quantity c s.incoming == 0)) [
    | inl e ↦ inl (rw e)
    | inr e ↦
        elim (Bool-cases
          (no_cross c buying s.incoming.price (best_price c t clock buying s.tree))) [
            | inl n ↦ inl (rw e (rw n))
            | inr n ↦ elim (cross_cases buying s (best_price c t clock buying s.tree)) [
              | inl d ↦ inl (rw e (rw n d))
              | inr (q, d, h, z) ↦ inr (q, rw e (rw n d), n, h, z)
            ]
          ]
  ]

  incoming-fill_top :
      (buying : Bool) (s : SegmentState c t) (best : c.Price) (q : ℕ)
      → (fill_top c t clock buying s best q).incoming ≡ add_filled c s.incoming q
  unfolding fill_top
  incoming-fill_top buying s best q = refl

  -- With more fuel than quantity left the loop ends, in a round that finds nothing to match.
  match_loop_lem :
      (fuel : ℕ) (buying : Bool) (o : Order c) (s : SegmentState c t)
      → IsMatching c t buying o s
      → remaining_quantity c s.incoming < fuel
      → (r : SegmentState c t) × (match_loop c t clock fuel buying s ≡ some r)
        × IsMatching c t buying o r
        × (turn c t clock buying r ≡ done r)
  unfolding match_loop
  match_loop_lem zero buying o s i h = absurd (omega arith)
  match_loop_lem (suc fuel) buying o s i h = elim (turn_cases buying s) [
    | inl d ↦ (s, rw (d, match_loop), i, d)
    | inr (q, d, n, b, z) ↦
        let j = fill_top-IsMatching buying o s _ q i n b in
        let less : remaining_quantity c (add_filled c s.incoming q) < fuel = omega (
          arith,
          h,
          z,
          b,
          remaining_exact c s.incoming i.fillable,
          remaining_exact c (add_filled c s.incoming q)
              (add_filled_exact c s.incoming q i.fillable b).1,
          (add_filled_exact c s.incoming q i.fillable b).0,
        ) in
        let (r, e, k, x) = match_loop_lem fuel buying o _ j (rw incoming-fill_top less) in
        (r, rw (d, match_loop) e, k, x)
  ]

  start-IsMatching :
      (buying : Bool) (o : Order c) (tree : t.Tree) (counter : ℕ)
      → IsFillable c o
      → IsMatching c t buying o
          (record { incoming = o; tree = tree; counter = counter; fills = [] })
  unfolding total_filled
  start-IsMatching buying o tree counter i = record {
    fillable = i;
    same_id = refl;
    same_price = refl;
    same_quantity = refl;
    accounted = omega arith;
    within = tt;
  }

  -- For an order that is not overfilled, and more fuel than it has quantity left, whatever the tree
  -- answers: the matching ends with a list of fills, all of them fills of this order at prices within
  -- its limit, whose quantities add up to no more than it has left.
  pub segment_matching_total :
      (fuel : ℕ) (o : Order c) (tree : t.Tree) (counter : ℕ) (os : Orders c)
      → IsFillable c o
      → remaining_quantity c o < fuel
      → (fills : List (Fill c)) × (rest : t.Tree × ℕ × Orders c)
        × (match_order_segment_tree_price_time c t clock fuel o tree counter os
            ≡ some (fills, rest.0, rest.1, rest.2))
        × (total_filled c fills ≤ o.quantity - o.filled_quantity)
        × All (IsWithin c (c.is_buy o.side) o) fills
  unfolding match_order_segment_tree_price_time
  segment_matching_total fuel o tree counter os i h =
      let (r, e, k, x) =
        match_loop_lem fuel (c.is_buy o.side) o _
          (start-IsMatching (c.is_buy o.side) o tree counter i) h in
      (
        r.fills,
        (r.tree, r.counter, copy_filled c os r.incoming),
        rw (e, match_order_segment_tree_price_time),
        omega (arith, k.accounted, k.same_quantity, k.fillable.not_over),
        k.within,
      )
