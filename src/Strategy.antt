-- ===== src/Strategy.antt =====
-- The strategy state machine: `StrategyState` and `STRATEGY_TRANSITIONS` of
-- core/models/opportunity.py, the part of `OpportunityRecord` of core/state/__init__.py that it
-- moves, and `transition` and `_reject` of apps/orchestrator/orchestrator.py. The events published
-- are a list in order; what is released where an opportunity ends is a flag.
pub mod Trail
mod Tests
use octopush.Prelude.{
  ℕ, String, Bool, true, false, ◌||◌, Option, none, some, List, [], ◌∷◌, ◌++◌, any, ◌==◌,
  if◌then◌else◌,
}
use octopush.Prelude.Action.{Action, ok, raised, illegal_strategy_transition}

pub data StrategyState : Type 0 where
  idle opportunity_detected agents_evaluating consensus_reached risk_check authorized executing
        hedging reconciling monitoring exiting closed rejected :
      StrategyState

-- A number for each state, by which two are compared.
abbrev pub code : StrategyState → ℕ
code idle = 0
code opportunity_detected = 1
code agents_evaluating = 2
code consensus_reached = 3
code risk_check = 4
code authorized = 5
code executing = 6
code hedging = 7
code reconciling = 8
code monitoring = 9
code exiting = 10
code closed = 11
code rejected = 12

abbrev pub is_state : StrategyState → StrategyState → Bool
is_state a b = code a == code b

-- `STRATEGY_TRANSITIONS`
abbrev pub strategy_transitions : StrategyState → List StrategyState
strategy_transitions idle = opportunity_detected ∷ []
strategy_transitions opportunity_detected = agents_evaluating ∷ rejected ∷ []
strategy_transitions agents_evaluating = consensus_reached ∷ rejected ∷ []
strategy_transitions consensus_reached = risk_check ∷ rejected ∷ []
strategy_transitions risk_check = authorized ∷ rejected ∷ []
strategy_transitions authorized = executing ∷ rejected ∷ []
strategy_transitions executing = hedging ∷ reconciling ∷ exiting ∷ closed ∷ []
strategy_transitions hedging = reconciling ∷ exiting ∷ []
strategy_transitions reconciling = monitoring ∷ exiting ∷ []
strategy_transitions monitoring = exiting ∷ closed ∷ []
strategy_transitions exiting = reconciling ∷ closed ∷ []
strategy_transitions closed = []
strategy_transitions rejected = []

-- An event of a change: its time, the state before and the state after.
pub record StateChange : Type 0 where
  pub at : ℕ
  pub before : StrategyState
  pub after : StrategyState

pub record OpportunityRecord : Type 0 where
  pub state : StrategyState
  pub rejected_reason : Option String
  pub updated_at : ℕ
  pub published : List StateChange
  -- The detector, the working notional and ZEPHR have let go of the opportunity.
  pub released : Bool

abbrev pub detected : OpportunityRecord
detected = record {
  state = opportunity_detected;
  rejected_reason = none;
  updated_at = 0;
  published = [];
  released = false;
}

-- `target in (StrategyState.CLOSED, StrategyState.REJECTED)`
abbrev pub is_end : StrategyState → Bool
is_end closed = true
is_end rejected = true
is_end _ = false

unfoldable pub can_move : StrategyState → StrategyState → Bool
can_move s target = any (is_state target) (strategy_transitions s)

abbrev pub moved : StrategyState → ℕ → OpportunityRecord → OpportunityRecord
moved target now r = record r {
  state = target;
  updated_at = now;
  published = r.published ++ record { at = now; before = r.state; after = target } ∷ [];
  released = r.released || is_end target;
}

unfoldable pub transition : StrategyState → ℕ → Action OpportunityRecord (Unit {0})
transition target now r =
    if can_move r.state target
    then (ok tt, moved target now r)
    else (raised illegal_strategy_transition, r)

-- `_reject`: the reason is written before the transition is tried.
unfoldable pub reject : String → ℕ → Action OpportunityRecord (Unit {0})
reject reason now r = transition rejected now (record r { rejected_reason = some reason })
