-- ===== src/Execution/Veska.antt =====
-- execution/veska/engine.py: `Veska`, which turns an approved intent into a plan and hands it to the
-- executor. Polling, cancelling and the open orders are the executor's. The time and the depth of
-- the bus's queue are arguments.
use octopush.Prelude.{
  ℕ, ◌+◌, String, Option, none, some, List, [], ◌∷◌, ◌++◌, length, leb, if◌then◌else◌,
}
use octopush.Prelude.Dict.{Dict, insert}
use octopush.Prelude.Float.{Float, ◌⊘◌, ◌⋖◌, ◌⩽◌, zero_float}
use octopush.Prelude.Action.{Action, Result, ok, raised, ◌>>=◌, ◌>>◌, pure, modify}
use octopush.Settings.{VenueConfig, fee_bps, venue_named}
use octopush.Health.{healthy, degraded}
use octopush.Health.Registry.{HealthRegistry, heartbeat}
use octopush.Market.{MarketState}
use octopush.Oms.{PlannedOrder, live_orders}
use octopush.Opportunity.{OpportunityLeg, TradeIntent, ExecutionPlan}
use octopush.RuneCore.{RiskDecision}
use octopush.Events.{EventType, execution_plan, execution_report}
use octopush.Execution.Router.{RoutingDecision, route}
use octopush.Execution.Venue.{PaperExecutor, ExecutionReport, Posted, plan_posted, report_posted}
use octopush.Execution.Executor.{submit}

pub record Veska (F R : Type 0) : Type 0 where
  pub executor : PaperExecutor F R
  pub health : HealthRegistry
  pub plans : Dict (ExecutionPlan F (PlannedOrder F))
  pub plan_failures : ℕ
  pub max_open_orders : ℕ

abbrev pub service : String
service = "VESKA"

abbrev pub version : String
version = "veska-0.1"

-- How planning a leg ends: the plan fails, the leg is left out, or there is an order.
pub data Planned (F : Type 0) : Type 0 where
  failed skipped : Planned F
  planned : PlannedOrder F → Planned F

module _ {F : Type 0} where
  -- A leg's own quantity, where it is positive, or the notional at the expected price.
  abbrev pub quantity_for : ⦃fl : Float F⦄ → Option F → F → F → F
  quantity_for none notional price = notional ⊘ price
  quantity_for (some q) notional price = if zero_float ⋖ q then q else notional ⊘ price

  abbrev pub plan_from :
      TradeIntent F
      → MarketState F
      → F
      → ℕ
      → List (PlannedOrder F)
      → String
      → ExecutionPlan F (PlannedOrder F)
  plan_from intent market notional now orders id = record {
    created_at = now;
    source_data_timestamp = market.source_data_timestamp;
    correlation_id = intent.correlation_id;
    plan_id = id;
    intent_id = intent.intent_id;
    strategy = intent.strategy;
    symbol = intent.symbol;
    orders = orders;
    deadline_ms = intent.deadline_ms;
    max_slippage_bps = intent.max_slippage_bps;
    notional = notional;
  }

module _ {F R : Type 0} ⦃fl : Float F⦄ where
  abbrev pub order_from :
      OpportunityLeg F
      → RoutingDecision F
      → F
      → Result (VenueConfig F)
      → Action (Veska F R) (Planned F)
  order_from leg d quantity (raised e) v = (raised e, v)
  order_from leg d quantity (ok venue) v = (
    ok (
        planned (record {
          client_order_id = v.executor.mint v.executor.minted;
          venue = d.venue;
          symbol = leg.symbol;
          side = leg.side;
          quantity = quantity;
          order_type = d.order_type;
          time_in_force = d.time_in_force;
          limit_price = d.limit_price;
          expected_price = d.expected_price;
          expected_fee_bps = fee_bps venue.fees d.is_maker;
          ttl_ms = v.executor.config.default_order_ttl_ms;
        })),
    record v { executor = record v.executor { minted = v.executor.minted + 1 } },
  )

  abbrev pub leg_routed :
      OpportunityLeg F → F → Option (RoutingDecision F) → Action (Veska F R) (Planned F)
  leg_routed leg notional none v = (ok failed, v)
  leg_routed leg notional (some d) v =
      let quantity = quantity_for leg.quantity notional d.expected_price in
      if d.expected_price ⩽ zero_float
      then (ok failed, v)
      else if quantity ⩽ zero_float
      then (ok skipped, v)
      else order_from leg d quantity (venue_named leg.venue v.executor.venues) v

  -- The loop over the legs; `none` when one of them fails the plan.
  unfoldable pub plan_legs :
      TradeIntent F
      → MarketState F
      → F
      → List (OpportunityLeg F)
      → Action (Veska F R) (Option (List (PlannedOrder F)))
  plan_legs intent market notional [] = pure (some [])
  plan_legs intent market notional (leg ∷ legs) =
      leg_routed leg notional (route leg market intent.urgency intent.max_slippage_bps) >>= λ p.
      elim p [
        | failed ↦ pure none
        | skipped ↦ plan_legs intent market notional legs
        | planned o ↦ plan_legs intent market notional legs >>= λ rest. elim rest [
          | none ↦ pure none
          | some os ↦ pure (some (o ∷ os))
        ]
      ]

  abbrev pub keep_plan :
      ExecutionPlan F (PlannedOrder F)
      → Action (Veska F R) (Option (ExecutionPlan F (PlannedOrder F)))
  keep_plan plan v = (
    ok (some plan),
    record v {
      plans = insert plan.plan_id plan v.plans;
      executor = record v.executor { minted = v.executor.minted + 1 };
    },
  )

  -- The end of `build_plan`: a failure is counted, a plan without orders is not.
  abbrev pub conclude_plan :
      TradeIntent F
      → MarketState F
      → F
      → ℕ
      → Option (List (PlannedOrder F))
      → Action (Veska F R) (Option (ExecutionPlan F (PlannedOrder F)))
  conclude_plan intent market notional now none =
      modify (λ v. record v { plan_failures = v.plan_failures + 1 }) >> pure none
  conclude_plan intent market notional now (some []) = pure none
  conclude_plan intent market notional now (some (o ∷ os)) = λ v.
      keep_plan (plan_from intent market notional now (o ∷ os) (v.executor.mint v.executor.minted))
        v

  -- `build_plan`
  unfoldable pub build_plan :
      TradeIntent F
      → RiskDecision F
      → MarketState F
      → ℕ
      → Action (Veska F R) (Option (ExecutionPlan F (PlannedOrder F)))
  build_plan intent decision market now =
      if decision.approved_notional ⩽ zero_float
      then pure none
      else plan_legs intent market decision.approved_notional intent.legs
        >>= conclude_plan intent market decision.approved_notional now

  abbrev pub on_executor : {A : Type 0} → Action (PaperExecutor F R) A → Action (Veska F R) A
  on_executor act v = let (r, x) = act v.executor in (r, record v { executor = x })

  abbrev pub post : EventType → Posted F → Action (PaperExecutor F R) (Unit {0})
  post type p = modify (λ x. record x { published = x.published ++ (type, p) ∷ [] })

  -- `execute`
  unfoldable pub execute :
      ExecutionPlan F (PlannedOrder F) → ℕ → Action (Veska F R) (ExecutionReport F)
  execute plan now = on_executor (
      post execution_plan (plan_posted plan) >> submit plan now >>= λ r.
      post execution_report (report_posted r) >> pure r)

  -- `heartbeat`, with the depth of the bus's queue.
  unfoldable pub beat : ℕ → ℕ → Veska F R → Veska F R
  beat depth now v =
      let (_, health) =
        heartbeat service
          (record {
            status =
                if leb v.max_open_orders (length (live_orders v.executor.oms))
                then degraded
                else healthy;
            last_event_age_ms = none;
            queue_depth = depth;
            version = version;
          })
          now v.health in
      record v { health = health }
