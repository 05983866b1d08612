-- ===== src/RuneCore.antt =====
-- agents/rune/core.py: RUNE-CORE, which sizes a trade intent to the limits and runs every gate; with
-- `RiskVerdict` and `RiskDecision` of core/models/risk.py. The clock's time and
-- the new decision's id are arguments.
pub mod Permission
pub mod Safety
pub mod Decisions
pub mod Utilization
mod Tests
use octopush.Prelude.{
  ℕ, suc, ◌+◌, String, Bool, true, false, not, Option, none, some, List, [], ◌∷◌, ◌++◌, map, length,
  filterb, foldl, if◌then◌else◌,
}
use octopush.Prelude.Int.{pos}
use octopush.Prelude.Dict.{Dict, get_or}
use octopush.Prelude.Float.{Float, ◌⊖◌, ◌⊘◌, ◌⋖◌, ◌⩽◌, zero_float, max_float, min_float}
use octopush.Portfolio.{PortfolioState, gross_exposure, net_exposure, drawdown, exposure_by_venue}
use octopush.Health.{SystemHealth}
use octopush.KillSwitch.{KillSwitchState}
use octopush.Settings.{RiskLimits}
use octopush.Opportunity.{OpportunityLeg, TradeIntent}
use octopush.Risk.{
  GateCheck, fail, blocking, gate_kill_switch, gate_system_health, gate_execution_health,
  gate_consensus, gate_data_age, gate_deadline, gate_min_edge, gate_liquidity, gate_hedge_available,
  gate_order_notional, gate_position_notional, gate_gross_exposure, gate_net_exposure,
  gate_leverage, gate_venue_exposure, gate_strategy_exposure, gate_daily_loss, gate_drawdown,
  gate_unhedged, gate_open_orders, gate_error_rate, current_notional, day_loss,
}

pub data RiskVerdict : Type 0 where
  approved_in_full approved_reduced rejected : RiskVerdict

pub record RiskDecision (F : Type 0) : Type 0 where
  pub created_at : ℕ
  pub source_data_timestamp : Option ℕ
  pub correlation_id : Option String
  pub decision_id : String
  pub intent_id : String
  pub strategy : String
  pub symbol : String
  pub verdict : RiskVerdict
  pub approved_notional : F
  pub requested_notional : F
  pub gates : List (GateCheck F)
  pub reason_codes : List String

abbrev is_approval : RiskVerdict → Bool
is_approval rejected = false
is_approval _ = true

unfoldable pub approved : {F : Type 0} → RiskDecision F → Bool
approved d = is_approval d.verdict

unfoldable pub failed_gates : {F : Type 0} → RiskDecision F → List (GateCheck F)
failed_gates d = filterb blocking d.gates

pub record RiskContext (F : Type 0) : Type 0 where
  pub portfolio : PortfolioState F
  pub kill_switch : KillSwitchState
  pub health : Option SystemHealth
  pub consensus_threshold : F
  pub consensus_complete : Bool
  pub required_components : List String
  pub open_orders : ℕ
  pub error_rate : F
  pub unhedged_notional : F
  pub strategy_exposure : F
  pub max_economical_notional : Option F
  pub hedge_available : Bool

pub record RuneCore (F : Type 0) : Type 0 where
  pub limits : RiskLimits F
  pub evaluations : ℕ
  pub rejections : ℕ

abbrev pub new_core : {F : Type 0} → RiskLimits F → RuneCore F
new_core limits = record { limits = limits; evaluations = 0; rejections = 0 }

abbrev pub resized : {F : Type 0} → TradeIntent F → F → TradeIntent F
resized intent notional = record intent { notional = notional }

abbrev approval_codes : Bool → List String
approval_codes reduced =
    "ALL_GATES_PASSED" ∷ (if reduced then "SIZE_REDUCED_BY_HEADROOM" ∷ [] else [])

module _ {F : Type 0} ⦃fl : Float F⦄ where
  -- The two candidates that each leg adds.
  unfoldable pub leg_candidates :
      List (OpportunityLeg F) → RiskLimits F → Dict F → PortfolioState F → List F
  leg_candidates [] limits exposure p = []
  leg_candidates (leg ∷ legs) limits exposure p =
      (limits.max_venue_exposure ⊖ get_or leg.venue zero_float exposure)
      ∷ (limits.max_position_notional ⊖ current_notional leg p)
      ∷ leg_candidates legs limits exposure p

  -- `max(1, len(intent.legs))`, as a float
  abbrev leg_count : List (OpportunityLeg F) → F
  leg_count [] = fl.of_int (pos 1)
  leg_count legs = fl.of_int (pos (length legs))

  abbrev economical : Option F → List F
  economical none = []
  economical (some n) = n ∷ []

  -- `_headroom`
  unfoldable pub headroom : RiskLimits F → TradeIntent F → RiskContext F → F
  headroom limits intent ctx =
      let legs = leg_count intent.legs in
      let candidates =
        limits.max_order_notional
        ∷ ((limits.max_gross_exposure ⊖ gross_exposure ctx.portfolio) ⊘ legs)
        ∷ ((limits.max_strategy_exposure ⊖ ctx.strategy_exposure) ⊘ legs)
        ∷ (leg_candidates intent.legs limits (exposure_by_venue ctx.portfolio) ctx.portfolio
            ++ economical ctx.max_economical_notional) in
      max_float zero_float (foldl min_float intent.notional candidates)

  unfoldable pub checks : RiskLimits F → TradeIntent F → RiskContext F → ℕ → List (GateCheck F)
  checks limits intent ctx now =
      gate_kill_switch ctx.kill_switch
      ∷ gate_system_health ctx.health ctx.required_components
      ∷ gate_execution_health ctx.health
      ∷ gate_consensus intent ctx.consensus_threshold ctx.consensus_complete
      ∷ gate_data_age intent limits now
      ∷ gate_deadline intent now
      ∷ gate_min_edge intent limits
      ∷ gate_liquidity ctx.max_economical_notional intent
      ∷ gate_hedge_available ctx.hedge_available
      ∷ gate_order_notional intent limits
      ∷ gate_position_notional intent ctx.portfolio limits
      ∷ gate_gross_exposure intent ctx.portfolio limits
      ∷ gate_net_exposure intent ctx.portfolio limits
      ∷ gate_leverage intent ctx.portfolio limits
      ∷ gate_venue_exposure intent ctx.portfolio limits
      ∷ gate_strategy_exposure intent ctx.strategy_exposure limits
      ∷ gate_daily_loss ctx.portfolio limits
      ∷ gate_drawdown ctx.portfolio limits
      ∷ gate_unhedged ctx.unhedged_notional limits
      ∷ gate_open_orders ctx.open_orders limits
      ∷ gate_error_rate ctx.error_rate limits
      ∷ []

  -- The decision that the three exits of `evaluate` and `_gate` build.
  abbrev decision_on :
      TradeIntent F
      → TradeIntent F
      → ℕ
      → String
      → RiskVerdict
      → F
      → List (GateCheck F)
      → List String
      → RiskDecision F
  decision_on original intent now decision_id verdict size gates reasons = record {
    created_at = now;
    source_data_timestamp = intent.source_data_timestamp;
    correlation_id = intent.correlation_id;
    decision_id = decision_id;
    intent_id = original.intent_id;
    strategy = intent.strategy;
    symbol = intent.symbol;
    verdict = verdict;
    approved_notional = size;
    requested_notional = original.notional;
    gates = gates;
    reason_codes = reasons;
  }

  abbrev counted : RuneCore F → Bool → RuneCore F
  counted core refused = record core {
    evaluations = core.evaluations + 1;
    rejections = if refused then core.rejections + 1 else core.rejections;
  }

  -- The end of `_gate`, from the blocking checks.
  abbrev pub decided :
      TradeIntent F
      → TradeIntent F
      → ℕ
      → String
      → Bool
      → List (GateCheck F)
      → List (GateCheck F)
      → RuneCore F
      → RuneCore F × RiskDecision F
  decided original intent now id reduced all [] core = (
    counted core false,
    decision_on original intent now id (if reduced then approved_reduced else approved_in_full)
        intent.notional all (approval_codes reduced),
  )
  decided original intent now id reduced all (b ∷ blocked) core = (
    counted core true,
    decision_on original intent now id rejected zero_float all (map (λ c. c.name) (b ∷ blocked)),
  )

  -- `_gate`
  unfoldable pub gate :
      TradeIntent F
      → TradeIntent F
      → RiskContext F
      → ℕ
      → String
      → Bool
      → RuneCore F
      → RuneCore F × RiskDecision F
  gate original intent ctx now id reduced core =
      let all = checks core.limits intent ctx now in
      decided original intent now id reduced all (filterb blocking all) core

  -- The check that `evaluate` makes of the headroom itself, where it is too small.
  abbrev min_trade_check : RiskLimits F → F → GateCheck F
  min_trade_check limits room = record {
    name = "MIN_TRADE_NOTIONAL";
    result = fail;
    mandatory = true;
    observed = some room;
    limit = some limits.min_trade_notional;
  }

  -- `sized`: the intent, or the intent at the headroom where that is smaller by more than 1e-9
  unfoldable pub sized : RiskLimits F → TradeIntent F → RiskContext F → TradeIntent F
  sized limits intent ctx =
      let room = headroom limits intent ctx in
      if (intent.notional ⊖ fl.decimal 1 9) ⩽ room then intent else resized intent room

  unfoldable pub evaluate :
      TradeIntent F → RiskContext F → ℕ → String → RuneCore F → RuneCore F × RiskDecision F
  evaluate intent ctx now id core =
      let room = headroom core.limits intent ctx in
      let fitted = sized core.limits intent ctx in
      let reduced = fitted.notional ⋖ (intent.notional ⊖ fl.decimal 1 9) in
      if room ⋖ core.limits.min_trade_notional
      then (
        counted core true,
        decision_on intent intent now id rejected zero_float (min_trade_check core.limits room ∷ [])
            ("MIN_TRADE_NOTIONAL" ∷ []),
      )
      else gate intent fitted ctx now id reduced core
