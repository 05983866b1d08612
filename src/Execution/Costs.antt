-- ===== src/Execution/Costs.antt =====
-- execution/costs.py: walking a book, and the breakdown of costs. Market impact and latency cost,
-- which take powers, are left out.
use octopush.Prelude.{ℕ, ◌+◌, Bool, true, List, [], ◌∷◌, if◌then◌else◌}
use octopush.Prelude.Int.{pos}
use octopush.Prelude.Float.{Float, ◌⊕◌, ◌⊖◌, ◌⊗◌, ◌⊘◌, ◌⋖◌, ◌⩽◌, zero_float, min_float}
use octopush.Order.{Side, buy, sell}
use octopush.Book.{PriceLevel}
use octopush.Oms.{qty_epsilon}
use octopush.Opportunity.{CostBreakdown}

pub record WalkResult (F : Type 0) : Type 0 where
  pub filled_notional : F
  pub filled_quantity : F
  pub average_price : F
  pub slippage_bps : F
  pub exhausted : Bool
  pub levels_consumed : ℕ

-- The variables of the loop of `walk_book`.
pub record Walk (F : Type 0) : Type 0 where
  pub remaining : F
  pub spent : F
  pub quantity : F
  pub consumed : ℕ

module _ {F : Type 0} ⦃fl : Float F⦄ where
  abbrev pub bps : F
  bps = fl.of_int (pos 10_000)

  abbrev pub nothing_filled : Bool → WalkResult F
  nothing_filled exhausted = record {
    filled_notional = zero_float;
    filled_quantity = zero_float;
    average_price = zero_float;
    slippage_bps = zero_float;
    exhausted = exhausted;
    levels_consumed = 0;
  }

  -- The loop over the levels, with its two breaks.
  unfoldable pub consume : List (PriceLevel F) → Walk F → Walk F
  consume [] w = w
  consume (level ∷ levels) w =
      let take = min_float w.remaining (level.price ⊗ level.size) in
      let next : Walk F = record {
        remaining = w.remaining ⊖ take;
        spent = w.spent ⊕ take;
        quantity = w.quantity ⊕ take ⊘ level.price;
        consumed = w.consumed + 1;
      } in
      let rest = consume levels next in
      if take ⩽ zero_float then w else if next.remaining ⩽ qty_epsilon then next else rest

  -- Positive when it is a cost.
  abbrev pub worse_by : Side → F → F → F
  worse_by buy average touch = average ⊖ touch
  worse_by sell average touch = touch ⊖ average

  abbrev pub walked : Side → F → Walk F → WalkResult F
  walked side touch w =
      let average = w.spent ⊘ w.quantity in
      if w.quantity ⩽ zero_float then nothing_filled true else record {
        filled_notional = w.spent;
        filled_quantity = w.quantity;
        average_price = average;
        slippage_bps =
            if zero_float ⋖ touch then worse_by side average touch ⊘ touch ⊗ bps else zero_float;
        exhausted = fl.decimal 1 6 ⋖ w.remaining;
        levels_consumed = w.consumed;
      }

  -- `walk_book`
  unfoldable pub walk_book : List (PriceLevel F) → F → Side → WalkResult F
  walk_book [] notional side = nothing_filled (zero_float ⋖ notional)
  walk_book (level ∷ levels) notional side =
      if notional ⩽ zero_float
      then nothing_filled (zero_float ⋖ notional)
      else walked side level.price (
          consume (level ∷ levels) (record {
            remaining = notional;
            spent = zero_float;
            quantity = zero_float;
            consumed = 0;
          }))

  abbrev pub build_cost_breakdown : F → F → F → F → F → F → F → CostBreakdown F
  build_cost_breakdown fees spread slippage hedge funding latency other = record {
    fees_bps = fees;
    spread_bps = spread;
    slippage_bps = slippage;
    hedge_bps = hedge;
    funding_bps = funding;
    latency_bps = latency;
    other_bps = other;
  }
