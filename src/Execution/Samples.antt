-- ===== src/Execution/Samples.antt =====
-- A concrete paper executor and a plan.
use octopush.Prelude.{String, Bool, true, Option, none, some, [], ◌∷◌}
use octopush.Prelude.Int.{ℤ, pos}
use octopush.Prelude.Float.{fixed_point}
use octopush.Prelude.Dict.{lookup}
use octopush.Order.Status.{OrderStatus}
use octopush.Order.{buy, market, gtc}
use octopush.Settings.{VenueConfig, ExecutionConfig}
use octopush.Oms.{PlannedOrder, init}
use octopush.Account.{open_account}
use octopush.Opportunity.{ExecutionPlan}
use octopush.Execution.Simulator.{Draws}
use octopush.Execution.Venue.{PaperExecutor}
use octopush.Samples.{units}

-- A generator that always draws zero.
instance abbrev pub zeros : Draws ℤ (Unit {0})
zeros = record { draw = λ _. (pos 0, tt) }

abbrev pub venue_a : VenueConfig ℤ
venue_a = record {
  name = "A";
  display_name = "Venue A";
  adapter = "simulated";
  ws_url = none;
  rest_url = none;
  fees = record { maker_bps = units 1; taker_bps = units 5 };
  latency_ms = 40;
  cancel_latency_ms = 60;
  book_depth_levels = 25;
  enabled = true;
  symbols = "BTC-USD" ∷ [];
}

abbrev pub settings : ExecutionConfig ℤ
settings = record {
  maker_fill_probability = units 1;
  queue_ahead_fraction = pos 0;
  max_partial_fraction = units 1;
  liquidity_vanish_probability = pos 0;
  latency_drift_bps_per_100ms = pos 0;
  default_order_ttl_ms = 5_000;
  seed = 1;
}

abbrev pub executor : Bool → PaperExecutor ℤ (Unit {0})
executor disabled = record {
  venues = venue_a ∷ [];
  config = settings;
  oms = init 10;
  account = open_account (units 1000) 10 0;
  rng = tt;
  mint = λ _. "minted";
  minted = 0;
  market = none;
  pending = [];
  execution_disabled = disabled;
  rejected_submissions = 0;
  published = [];
}

abbrev pub planned : String → PlannedOrder ℤ
planned id = record {
  client_order_id = id;
  venue = "A";
  symbol = "BTC-USD";
  side = buy;
  quantity = units 2;
  order_type = market;
  time_in_force = gtc;
  limit_price = none;
  expected_price = units 100;
  expected_fee_bps = units 5;
  ttl_ms = 5_000;
}

abbrev pub plan : ExecutionPlan ℤ (PlannedOrder ℤ)
plan = record {
  created_at = 0;
  source_data_timestamp = none;
  correlation_id = none;
  plan_id = "plan-1";
  intent_id = "intent-1";
  strategy = "cross_venue";
  symbol = "BTC-USD";
  orders = planned "o1" ∷ planned "o2" ∷ [];
  deadline_ms = 10_000;
  max_slippage_bps = units 10;
  notional = units 400;
}

abbrev pub status_in : String → PaperExecutor ℤ (Unit {0}) → Option OrderStatus
status_in id x = elim (lookup id x.oms.orders) [ none ↦ none | some o ↦ some o.status ]
