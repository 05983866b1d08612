-- ===== src/Risk.antt =====
-- core/models/risk.py (`GateResult`, `GateCheck`) and risk/limits: the deterministic gates. The
-- texts of details are left out.
use octopush.Prelude.{
  ℕ, String, Bool, true, false, not, ◌&&◌, Option, none, some, List, [], ◌∷◌, map, length,
  text_append, leb, ltb, if◌then◌else◌,
}
use octopush.Prelude.Int.{pos, ◌-ℤ◌, leb_ℤ}
use octopush.Prelude.Dict.{Dict, lookup, get_or}
use octopush.Prelude.Float.{Float, ◌⊕◌, ◌⊗◌, ◌⊘◌, ◌⋖◌, ◌⩽◌, zero_float, max_float}
use octopush.Order.{sign}
use octopush.Position.{notional}
use octopush.Portfolio.{
  PortfolioState, gross_exposure, net_exposure, equity, drawdown, exposure_by_venue,
}
use octopush.Health.{HealthState, SystemHealth, is_healthy, required_ok}
use octopush.KillSwitch.{KillSwitchState, trading_allowed}
use octopush.Settings.{RiskLimits}
use octopush.Opportunity.{OpportunityLeg, TradeIntent}

pub data GateResult : Type 0 where
  pass fail unknown : GateResult

pub record GateCheck (F : Type 0) : Type 0 where
  pub name : String
  pub result : GateResult
  pub mandatory : Bool
  pub observed : Option F
  pub limit : Option F

abbrev is_pass : GateResult → Bool
is_pass pass = true
is_pass _ = false

unfoldable pub blocking : {F : Type 0} → GateCheck F → Bool
blocking check = check.mandatory && not (is_pass check.result)

module _ {F : Type 0} ⦃fl : Float F⦄ where
  -- `_check`, and the form without observed value and limit
  abbrev measured : String → Bool → F → F → GateCheck F
  measured name holds observed limit = record {
    name = name;
    result = if holds then pass else fail;
    mandatory = true;
    observed = some observed;
    limit = some limit;
  }

  abbrev tested : String → Bool → GateCheck F
  tested name holds = record {
    name = name;
    result = if holds then pass else fail;
    mandatory = true;
    observed = none;
    limit = none;
  }

  -- `_unknown`
  abbrev unevaluable : String → GateCheck F
  unevaluable name = record {
    name = name;
    result = unknown;
    mandatory = true;
    observed = none;
    limit = none;
  }

  -- `float(n)`
  abbrev float_of : ℕ → F
  float_of n = fl.of_int (pos n)

  unfoldable pub gate_min_edge : TradeIntent F → RiskLimits F → GateCheck F
  gate_min_edge intent limits =
      measured "MIN_EXPECTED_EDGE" (limits.min_expected_edge_bps ⩽ intent.expected_net_edge_bps)
        intent.expected_net_edge_bps limits.min_expected_edge_bps

  unfoldable pub gate_order_notional : TradeIntent F → RiskLimits F → GateCheck F
  gate_order_notional intent limits =
      measured "MAX_ORDER_NOTIONAL" (intent.notional ⩽ limits.max_order_notional) intent.notional
        limits.max_order_notional

  abbrev pub is_fresh : ℕ → ℕ → RiskLimits F → Bool
  is_fresh now at limits = leb_ℤ (pos now -ℤ pos at) (pos limits.max_data_age_ms)

  unfoldable pub gate_data_age : TradeIntent F → RiskLimits F → ℕ → GateCheck F
  gate_data_age intent limits now = elim intent.source_data_timestamp [
    | none ↦ unevaluable "MARKET_DATA_FRESH"
    | some at ↦
        measured "MARKET_DATA_FRESH" (is_fresh now at limits) (fl.of_int (pos now -ℤ pos at))
          (float_of limits.max_data_age_ms)
  ]

  unfoldable pub gate_deadline : TradeIntent F → ℕ → GateCheck F
  gate_deadline intent now =
      measured "INTENT_NOT_EXPIRED" (leb now intent.deadline_ms) (float_of now)
        (float_of intent.deadline_ms)

  -- `portfolio.positions.get(key)`'s notional, or zero
  unfoldable pub current_notional : OpportunityLeg F → PortfolioState F → F
  current_notional leg p =
      elim (lookup (text_append leg.venue (text_append ":" leg.symbol)) p.positions) [
        | none ↦ zero_float
        | some position ↦ notional position
      ]

  unfoldable pub worst_position : List (OpportunityLeg F) → F → F → PortfolioState F → F
  worst_position [] worst size p = worst
  worst_position (leg ∷ legs) worst size p =
      worst_position legs (max_float worst (current_notional leg p ⊕ size)) size p

  unfoldable pub gate_position_notional :
      TradeIntent F → PortfolioState F → RiskLimits F → GateCheck F
  gate_position_notional intent p limits =
      let worst = worst_position intent.legs zero_float intent.notional p in
      measured "MAX_POSITION_NOTIONAL" (worst ⩽ limits.max_position_notional) worst
        limits.max_position_notional

  -- `intent.notional * len(intent.legs)`
  unfoldable pub deployed : TradeIntent F → F
  deployed intent = intent.notional ⊗ float_of (length intent.legs)

  unfoldable pub gate_gross_exposure : TradeIntent F → PortfolioState F → RiskLimits F → GateCheck F
  gate_gross_exposure intent p limits =
      let projected = gross_exposure p ⊕ deployed intent in
      measured "MAX_GROSS_EXPOSURE" (projected ⩽ limits.max_gross_exposure) projected
        limits.max_gross_exposure

  unfoldable pub projected_net : TradeIntent F → PortfolioState F → F
  projected_net intent p = fl.absolute (
      net_exposure p
      ⊕ fl.sum (map (λ leg. fl.of_int (sign leg.side) ⊗ intent.notional) intent.legs))

  unfoldable pub gate_net_exposure : TradeIntent F → PortfolioState F → RiskLimits F → GateCheck F
  gate_net_exposure intent p limits =
      measured "MAX_NET_EXPOSURE" (projected_net intent p ⩽ limits.max_net_exposure)
        (projected_net intent p) limits.max_net_exposure

  unfoldable pub projected_leverage : TradeIntent F → PortfolioState F → F
  projected_leverage intent p = (gross_exposure p ⊕ deployed intent) ⊘ equity p

  unfoldable pub gate_leverage : TradeIntent F → PortfolioState F → RiskLimits F → GateCheck F
  gate_leverage intent p limits =
      if equity p ⩽ zero_float
      then measured "MAX_LEVERAGE" false zero_float limits.max_leverage
      else measured "MAX_LEVERAGE" (projected_leverage intent p ⩽ limits.max_leverage)
          (projected_leverage intent p) limits.max_leverage

  unfoldable pub worst_venue : List (OpportunityLeg F) → F → F → Dict F → F
  worst_venue [] worst size exposure = worst
  worst_venue (leg ∷ legs) worst size exposure =
      worst_venue legs (max_float worst (get_or leg.venue zero_float exposure ⊕ size)) size exposure

  unfoldable pub gate_venue_exposure : TradeIntent F → PortfolioState F → RiskLimits F → GateCheck F
  gate_venue_exposure intent p limits =
      let worst = worst_venue intent.legs zero_float intent.notional (exposure_by_venue p) in
      measured "MAX_VENUE_EXPOSURE" (worst ⩽ limits.max_venue_exposure) worst
        limits.max_venue_exposure

  unfoldable pub gate_strategy_exposure : TradeIntent F → F → RiskLimits F → GateCheck F
  gate_strategy_exposure intent strategy_exposure limits =
      let projected = strategy_exposure ⊕ deployed intent in
      measured "MAX_STRATEGY_EXPOSURE" (projected ⩽ limits.max_strategy_exposure) projected
        limits.max_strategy_exposure

  unfoldable pub day_loss : PortfolioState F → F
  day_loss p = max_float zero_float (fl.opposite p.day_realized_pnl)

  unfoldable pub gate_daily_loss : PortfolioState F → RiskLimits F → GateCheck F
  gate_daily_loss p limits =
      measured "MAX_DAILY_LOSS" (day_loss p ⋖ limits.max_daily_loss) (day_loss p)
        limits.max_daily_loss

  unfoldable pub gate_drawdown : PortfolioState F → RiskLimits F → GateCheck F
  gate_drawdown p limits =
      measured "MAX_DRAWDOWN" (drawdown p ⋖ limits.max_drawdown) (drawdown p) limits.max_drawdown

  unfoldable pub gate_unhedged : F → RiskLimits F → GateCheck F
  gate_unhedged unhedged limits =
      measured "MAX_UNHEDGED_EXPOSURE" (fl.absolute unhedged ⩽ limits.max_unhedged_notional)
        (fl.absolute unhedged) limits.max_unhedged_notional

  unfoldable pub gate_open_orders : ℕ → RiskLimits F → GateCheck F
  gate_open_orders open_orders limits =
      measured "MAX_OPEN_ORDERS" (ltb open_orders limits.max_open_orders) (float_of open_orders)
        (float_of limits.max_open_orders)

  unfoldable pub gate_error_rate : F → RiskLimits F → GateCheck F
  gate_error_rate error_rate limits =
      measured "MAX_ERROR_RATE" (error_rate ⩽ limits.max_error_rate) error_rate
        limits.max_error_rate

  unfoldable pub gate_kill_switch : KillSwitchState → GateCheck F
  gate_kill_switch kill = tested "KILL_SWITCH_CLEAR" (trading_allowed kill)

  unfoldable pub gate_system_health : Option SystemHealth → List String → GateCheck F
  gate_system_health none required = unevaluable "SYSTEM_HEALTHY"
  gate_system_health (some h) required = tested "SYSTEM_HEALTHY" (required_ok h required)

  abbrev veska_check : Option HealthState → GateCheck F
  veska_check none = unevaluable "EXECUTION_HEALTHY"
  veska_check (some veska) = tested "EXECUTION_HEALTHY" (is_healthy veska.status)

  unfoldable pub gate_execution_health : Option SystemHealth → GateCheck F
  gate_execution_health none = unevaluable "EXECUTION_HEALTHY"
  gate_execution_health (some h) = veska_check (lookup "VESKA" h.components)

  unfoldable pub gate_consensus : TradeIntent F → F → Bool → GateCheck F
  gate_consensus intent threshold complete =
      if complete
      then measured "CONSENSUS_THRESHOLD" (threshold ⩽ intent.consensus_agreement)
          intent.consensus_agreement threshold
      else measured "CONSENSUS_COMPLETE" false intent.consensus_agreement threshold

  unfoldable pub gate_liquidity : Option F → TradeIntent F → GateCheck F
  gate_liquidity none intent = unevaluable "LIQUIDITY_SUFFICIENT"
  gate_liquidity (some economical) intent =
      measured "LIQUIDITY_SUFFICIENT" (intent.notional ⩽ economical) economical intent.notional

  unfoldable pub gate_hedge_available : Bool → GateCheck F
  gate_hedge_available hedge_available = tested "HEDGE_AVAILABLE" hedge_available
