-- ===== src/Execution/Router.antt =====
-- execution/router/__init__.py: order type, time in force and limit of one leg.
use octopush.Prelude.{String, Bool, true, false, Option, none, some, List, [], ◌∷◌, if◌then◌else◌}
use octopush.Prelude.Int.{pos}
use octopush.Prelude.Float.{Float, ◌⊕◌, ◌⊖◌, ◌⊗◌, ◌⊘◌, ◌⋖◌}
use octopush.Order.{Side, buy, sell, OrderType, limit, TimeInForce, ioc, post_only}
use octopush.Book.{PriceLevel, OrderBookSnapshot}
use octopush.Market.{BookMetrics, MarketState, venue_state}
use octopush.Opportunity.{OpportunityLeg}
use octopush.Execution.Costs.{bps}

pub record RoutingDecision (F : Type 0) : Type 0 where
  pub venue : String
  pub order_type : OrderType
  pub time_in_force : TimeInForce
  pub limit_price : Option F
  pub expected_price : F
  pub is_maker : Bool
  pub reason : String

module _ {F : Type 0} where
  -- What a buyer takes are the asks.
  abbrev pub opposing_side : Side → OrderBookSnapshot F → List (PriceLevel F)
  opposing_side buy b = b.asks
  opposing_side sell b = b.bids

  abbrev pub own_best : Side → BookMetrics F → Option F
  own_best buy m = m.best_bid
  own_best sell m = m.best_ask

  -- `_levels`
  abbrev pub leg_levels : MarketState F → OpportunityLeg F → List (PriceLevel F)
  leg_levels m leg = elim (venue_state leg.venue leg.symbol m) [
    | none ↦ []
    | some s ↦ elim s.book [ none ↦ [] | some b ↦ opposing_side leg.side b ]
  ]

  abbrev pub own_touch : MarketState F → OpportunityLeg F → Option F
  own_touch m leg = elim (venue_state leg.venue leg.symbol m) [
    | none ↦ none
    | some s ↦ own_best leg.side s.metrics
  ]

module _ {F : Type 0} ⦃fl : Float F⦄ where
  abbrev pub passive : OpportunityLeg F → Option F → Option (RoutingDecision F)
  passive leg none = none
  passive leg (some price) = some (record {
    venue = leg.venue;
    order_type = limit;
    time_in_force = post_only;
    limit_price = some price;
    expected_price = price;
    is_maker = true;
    reason = "LOW_URGENCY_PASSIVE";
  })

  abbrev pub limit_from : Side → F → F → F
  limit_from buy touch budget = touch ⊗ (fl.of_int (pos 1) ⊕ budget)
  limit_from sell touch budget = touch ⊗ (fl.of_int (pos 1) ⊖ budget)

  abbrev pub crossing : OpportunityLeg F → F → F → RoutingDecision F
  crossing leg touch max_slippage_bps = record {
    venue = leg.venue;
    order_type = limit;
    time_in_force = ioc;
    limit_price = some (limit_from leg.side touch (max_slippage_bps ⊘ bps));
    expected_price = touch;
    is_maker = false;
    reason = "CROSS_WITH_SLIPPAGE_LIMIT";
  }

  abbrev pub routed :
      OpportunityLeg F → MarketState F → F → F → List (PriceLevel F) → Option (RoutingDecision F)
  routed leg m urgency max_slippage_bps [] = none
  routed leg m urgency max_slippage_bps (level ∷ _) =
      if urgency ⋖ fl.decimal 35 2
      then passive leg (own_touch m leg)
      else some (crossing leg level.price max_slippage_bps)

  -- `route`
  unfoldable pub route : OpportunityLeg F → MarketState F → F → F → Option (RoutingDecision F)
  route leg m urgency max_slippage_bps = routed leg m urgency max_slippage_bps (leg_levels m leg)
