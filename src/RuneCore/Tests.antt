-- ===== src/RuneCore/Tests.antt =====
-- Decisions of RUNE-CORE, and its theorems at concrete intents.
use octopush.Prelude.{ℕ, ◌/◌, ◌≡◌, ◌↔◌, refl, true, false, none, some, [], ◌∷◌}
use octopush.Prelude.Int.{ℤ, pos}
use octopush.Prelude.Float.{fixed_point, ◌⋖◌, unit_scale}
use octopush.Order.{buy, sell}
use octopush.Position.{notional}
use octopush.Portfolio.{
  PortfolioState, gross_exposure, net_exposure, drawdown, equity, exposure_by_venue, tally_venues,
}
use octopush.Health.{healthy, required_ok, bad_components}
use octopush.KillSwitch.{untriggered, trading_allowed}
use octopush.Opportunity.{TradeIntent}
use octopush.Risk.{
  blocking, gate_kill_switch, gate_system_health, gate_execution_health, gate_consensus,
  gate_data_age, gate_deadline, gate_min_edge, gate_liquidity, gate_hedge_available,
  gate_order_notional, gate_position_notional, gate_gross_exposure, gate_net_exposure,
  gate_leverage, gate_venue_exposure, gate_strategy_exposure, gate_daily_loss, gate_drawdown,
  gate_unhedged, gate_open_orders, gate_error_rate, current_notional, day_loss, worst_position,
  worst_venue, deployed, projected_net, projected_leverage,
}
use octopush.RuneCore.{
  RiskContext, RiskVerdict, approved_in_full, approved_reduced, rejected, new_core, approved,
  headroom, leg_candidates, checks, gate, sized, evaluate,
}
use octopush.RuneCore.Permission.{IsPermitted}
use octopush.RuneCore.Decisions.{IsSettled, evaluate-IsSettled, evaluate-approved}
use octopush.Samples.{units, limits}

abbrev portfolio : PortfolioState ℤ
portfolio = record {
  created_at = 0;
  initial_balance = units 100_000;
  cash = units 100_000;
  positions = [];
  realized_pnl = units 0;
  fees_paid = units 0;
  peak_equity = units 100_000;
  day_realized_pnl = units 0;
  day_started_at = none;
}

abbrev context : RiskContext ℤ
context = record {
  portfolio = portfolio;
  kill_switch = untriggered;
  health = some record {
    components =
        (
          "VESKA",
          record {
            service = "VESKA";
            status = healthy;
            last_event_age_ms = none;
            last_heartbeat_ms = none;
            queue_depth = 0;
            error_count = 0;
            version = "1";
          },
        )
        ∷ [];
  };
  consensus_threshold = pos (unit_scale / 2);
  consensus_complete = true;
  required_components = "VESKA" ∷ [];
  open_orders = 0;
  error_rate = units 0;
  unhedged_notional = units 0;
  strategy_exposure = units 0;
  max_economical_notional = some (units 20_000);
  hedge_available = true;
}

-- A relative-value trade of two legs.
abbrev intent : ℤ → TradeIntent ℤ
intent notional = record {
  created_at = 900;
  source_data_timestamp = some 900;
  correlation_id = none;
  intent_id = "i1";
  opportunity_id = "op1";
  strategy = "cross_venue";
  symbol = "BTC-USD";
  legs =
      record {
        venue = "A";
        symbol = "BTC-USD";
        side = buy;
        reference_price = units 100;
        quantity = none;
      }
      ∷ record {
        venue = "B";
        symbol = "BTC-USD";
        side = sell;
        reference_price = units 101;
        quantity = none;
      }
      ∷ [];
  notional = notional;
  gross_edge_bps = units 100;
  costs = record {
    fees_bps = units 10;
    spread_bps = units 1;
    slippage_bps = units 1;
    hedge_bps = units 0;
    funding_bps = units 0;
    latency_bps = units 1;
    other_bps = units 0;
  };
  expected_net_edge_bps = units 87;
  consensus_score = units 1;
  consensus_agreement = units 1;
  max_slippage_bps = units 5;
  deadline_ms = 5_000;
  urgency = pos (unit_scale / 2);
  is_exit = false;
}

abbrev verdict_at : ℤ → ℕ → RiskVerdict × ℤ
verdict_at notional now =
    let d = (evaluate (intent notional) context now "d1" (new_core limits)).1 in
    (d.verdict, d.approved_notional)

small_in_full : verdict_at (units 1_000) 1_000 ≡ (approved_in_full, units 1_000)
unfolding evaluate sized headroom leg_candidates checks gate blocking gate_kill_switch
    gate_system_health gate_execution_health gate_consensus gate_data_age gate_deadline
    gate_min_edge gate_liquidity gate_hedge_available gate_order_notional gate_position_notional
    gate_gross_exposure gate_net_exposure gate_leverage gate_venue_exposure gate_strategy_exposure
    gate_daily_loss gate_drawdown gate_unhedged gate_open_orders gate_error_rate current_notional
    day_loss worst_position worst_venue deployed projected_net projected_leverage gross_exposure
    net_exposure drawdown equity exposure_by_venue tally_venues required_ok bad_components
    trading_allowed
small_in_full = refl

large_reduced : verdict_at (units 40_000) 1_000 ≡ (approved_reduced, units 20_000)
unfolding evaluate sized headroom leg_candidates checks gate blocking gate_kill_switch
    gate_system_health gate_execution_health gate_consensus gate_data_age gate_deadline
    gate_min_edge gate_liquidity gate_hedge_available gate_order_notional gate_position_notional
    gate_gross_exposure gate_net_exposure gate_leverage gate_venue_exposure gate_strategy_exposure
    gate_daily_loss gate_drawdown gate_unhedged gate_open_orders gate_error_rate current_notional
    day_loss worst_position worst_venue deployed projected_net projected_leverage gross_exposure
    net_exposure drawdown equity exposure_by_venue tally_venues required_ok bad_components
    trading_allowed
large_reduced = refl

stale_rejected : verdict_at (units 1_000) 4_000 ≡ (rejected, units 0)
unfolding evaluate sized headroom leg_candidates checks gate blocking gate_kill_switch
    gate_system_health gate_execution_health gate_consensus gate_data_age gate_deadline
    gate_min_edge gate_liquidity gate_hedge_available gate_order_notional gate_position_notional
    gate_gross_exposure gate_net_exposure gate_leverage gate_venue_exposure gate_strategy_exposure
    gate_daily_loss gate_drawdown gate_unhedged gate_open_orders gate_error_rate current_notional
    day_loss worst_position worst_venue deployed projected_net projected_leverage gross_exposure
    net_exposure drawdown equity exposure_by_venue tally_venues required_ok bad_components
    trading_allowed
stale_rejected = refl

evaluate-approved_example :
    (approved (evaluate (intent (units 40_000)) context 1_000 "d1" (new_core limits)).1 ≡ true) ↔ (
      ((headroom limits (intent (units 40_000)) context ⋖ limits.min_trade_notional) ≡ false)
      × IsPermitted limits (sized limits (intent (units 40_000)) context) context 1_000)
evaluate-approved_example =
    evaluate-approved (new_core limits) (intent (units 40_000)) context 1_000 "d1"

evaluate-IsSettled_example :
    IsSettled
      (new_core limits)
      (intent (units 40_000))
      (sized limits (intent (units 40_000)) context)
      (evaluate (intent (units 40_000)) context 1_000 "d1" (new_core limits)).0
      (evaluate (intent (units 40_000)) context 1_000 "d1" (new_core limits)).1
evaluate-IsSettled_example =
    evaluate-IsSettled (new_core limits) (intent (units 40_000)) context 1_000 "d1"
