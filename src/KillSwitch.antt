-- ===== src/KillSwitch.antt =====
-- risk/kill_switch/__init__.py: the kill switch, with `KillAction` and `KillSwitchState` of
-- core/models/ops.py. What it publishes is listed in the order of publication; the free text of
-- messages is left out. The time is an argument where the source asks the clock.
pub mod Engagement
pub mod Streaks
pub mod Confirmation
mod Tests
use octopush.Prelude.{
  ℕ, zero, suc, ◌+◌, ◌*◌, String, Bool, true, false, not, ◌||◌, Option, none, some, List, [], ◌∷◌,
  ◌++◌, map, contains, ltb, ◌==◌, if◌then◌else◌,
}
use octopush.Prelude.Int.{pos}
use octopush.Prelude.Dict.{Dict, lookup, insert, erase, get_or}
use octopush.Prelude.Float.{Float, ◌⋖◌, ◌⩽◌}
use octopush.Portfolio.{PortfolioState, drawdown}
use octopush.Settings.{RiskLimits}
use octopush.Health.{SystemHealth, required_ok}

pub data KillAction : Type 0 where
  halt_new_trades cancel_all flatten disable_execution : KillAction

pub record KillSwitchState : Type 0 where
  pub halt_new_trades : Bool
  pub execution_disabled : Bool
  pub flatten_requested : Bool
  pub cancel_all_requested : Bool
  pub triggered_by : List String
  pub triggered_at : Option ℕ

abbrev pub untriggered : KillSwitchState
untriggered = record {
  halt_new_trades = false;
  execution_disabled = false;
  flatten_requested = false;
  cancel_all_requested = false;
  triggered_by = [];
  triggered_at = none;
}

unfoldable pub trading_allowed : KillSwitchState → Bool
trading_allowed s = not (s.halt_new_trades || s.execution_disabled)

-- `TRIGGER_ACTIONS`
abbrev pub trigger_actions : Dict (List KillAction)
trigger_actions =
    ("MAX_DRAWDOWN_BREACHED", halt_new_trades ∷ flatten ∷ [])
    ∷ ("MAX_DAILY_LOSS_BREACHED", halt_new_trades ∷ flatten ∷ [])
    ∷ ("MARKET_DATA_OUTAGE", halt_new_trades ∷ cancel_all ∷ [])
    ∷ ("BOOK_CORRUPTION", halt_new_trades ∷ cancel_all ∷ [])
    ∷ ("RECONCILIATION_MISMATCH", halt_new_trades ∷ cancel_all ∷ disable_execution ∷ [])
    ∷ ("UNEXPECTED_POSITION", halt_new_trades ∷ disable_execution ∷ [])
    ∷ ("SYSTEM_HEALTH_FAILURE", halt_new_trades ∷ [])
    ∷ ("EXCESSIVE_LATENCY", halt_new_trades ∷ [])
    ∷ ("AGENT_FAILURE", halt_new_trades ∷ [])
    ∷ ("STORAGE_FAILURE", halt_new_trades ∷ [])
    ∷ ("RISK_LIMIT_BREACH", halt_new_trades ∷ cancel_all ∷ [])
    ∷ ("MANUAL", halt_new_trades ∷ cancel_all ∷ flatten ∷ [])
    ∷ []

-- `CONFIRMATIONS`
abbrev pub confirmations : Dict ℕ
confirmations =
    ("SYSTEM_HEALTH_FAILURE", 3) ∷ ("EXCESSIVE_LATENCY", 3) ∷ ("MARKET_DATA_OUTAGE", 2) ∷ []

-- Events on the bus: a trigger that engaged, with the state then, or a manual reset.
pub data Notice : Type 0 where
  triggered : ℕ → String → KillSwitchState → Notice
  cleared : ℕ → Notice

pub record KillSwitch : Type 0 where
  pub state : KillSwitchState
  pub history : List (ℕ × String)
  pub streaks : Dict ℕ
  pub published : List Notice

abbrev pub init : KillSwitch
init = record { state = untriggered; history = []; streaks = []; published = [] }

abbrev pub act : KillAction → KillSwitchState → KillSwitchState
act halt_new_trades s = record s { halt_new_trades = true }
act cancel_all s = record s { cancel_all_requested = true }
act flatten s = record s { flatten_requested = true }
act disable_execution s = record s { execution_disabled = true }

-- `_apply`
unfoldable pub apply_actions : List KillAction → KillSwitchState → KillSwitchState
apply_actions [] s = s
apply_actions (a ∷ rest) s = apply_actions rest (act a s)

-- `triggered_at or now`: zero counts as unset.
abbrev or_now : Option ℕ → ℕ → ℕ
or_now none now = now
or_now (some t) now = if t == 0 then now else t

abbrev pub actions_of : String → List KillAction
actions_of trigger = get_or trigger (halt_new_trades ∷ []) trigger_actions

unfoldable pub engaged_by : String → ℕ → KillSwitchState → KillSwitchState
engaged_by trigger now s = apply_actions (actions_of trigger) (record s {
  triggered_by = s.triggered_by ++ trigger ∷ [];
  triggered_at = some (or_now s.triggered_at now);
})

-- `engage`
unfoldable pub engage : String → ℕ → KillSwitch → KillSwitch
engage trigger now k =
    if contains trigger k.state.triggered_by
    then k
    else (let s = engaged_by trigger now k.state in
        record k {
          state = s;
          history = k.history ++ (now, trigger) ∷ [];
          published = k.published ++ triggered now trigger s ∷ [];
        })

unfoldable pub required : String → ℕ
required name = get_or name 1 confirmations

-- A trigger's condition holds: the streak grows, and the trigger engages once it is confirmed.
unfoldable pub observe : String → ℕ → KillSwitch → KillSwitch × List String
observe name now k =
    let streak = get_or name 0 k.streaks + 1 in
    let k' = record k { streaks = insert name streak k.streaks } in
    if ltb streak (required name) then (k', []) else (engage name now k', name ∷ [])

-- One round of the loop in `evaluate`. The condition is `none` where the predicate raises.
unfoldable pub evaluate_one : ℕ → String × Option Bool → KillSwitch → KillSwitch × List String
evaluate_one now (name, condition) k =
    if contains name k.state.triggered_by then (k, []) else elim condition [
      | none ↦ (k, [])
      | some holds ↦
          if holds then observe name now k else (record k { streaks = erase name k.streaks }, [])
    ]

unfoldable pub evaluate_all :
    ℕ → List (String × Option Bool) → KillSwitch → KillSwitch × List String
evaluate_all now [] k = (k, [])
evaluate_all now (c ∷ cs) k =
    let (k', fired) = evaluate_one now c k in
    let (k'', rest) = evaluate_all now cs k' in (k'', fired ++ rest)

-- `clear`
unfoldable pub clear : ℕ → KillSwitch → KillSwitch
clear now k = record k {
  state = untriggered;
  streaks = [];
  published = k.published ++ cleared now ∷ [];
}

unfoldable pub acknowledge_cancel_all : KillSwitch → KillSwitch
acknowledge_cancel_all k = record k { state = record k.state { cancel_all_requested = false } }

unfoldable pub acknowledge_flatten : KillSwitch → KillSwitch
acknowledge_flatten k = record k { state = record k.state { flatten_requested = false } }

pub record KillSwitchInputs (F : Type 0) : Type 0 where
  pub portfolio : PortfolioState F
  pub health : Option SystemHealth
  pub reconciliation_ok : Bool
  pub market_data_ok : Bool
  pub book_corruption : Bool
  pub max_latency_ms : F
  pub storage_ok : Bool
  pub unexpected_position : Bool
  pub required_components : List String

abbrev health_fails : Option SystemHealth → List String → Bool
health_fails none req = true
health_fails (some h) req = not (required_ok h req)

module _ {F : Type 0} ⦃fl : Float F⦄ where
  -- `TRIGGERS`, each predicate applied; none of them raises.
  unfoldable pub conditions : KillSwitchInputs F → RiskLimits F → List (String × Option Bool)
  conditions i limits =
      ("MAX_DRAWDOWN_BREACHED", some (limits.max_drawdown ⩽ drawdown i.portfolio))
      ∷ (
        "MAX_DAILY_LOSS_BREACHED",
        some (limits.max_daily_loss ⩽ fl.opposite i.portfolio.day_realized_pnl),
      )
      ∷ ("MARKET_DATA_OUTAGE", some (not i.market_data_ok))
      ∷ ("BOOK_CORRUPTION", some i.book_corruption)
      ∷ ("RECONCILIATION_MISMATCH", some (not i.reconciliation_ok))
      ∷ ("UNEXPECTED_POSITION", some i.unexpected_position)
      ∷ ("SYSTEM_HEALTH_FAILURE", some (health_fails i.health i.required_components))
      ∷ (
        "EXCESSIVE_LATENCY",
        some (fl.of_int (pos (limits.max_data_age_ms * 5)) ⋖ i.max_latency_ms),
      )
      ∷ ("STORAGE_FAILURE", some (not i.storage_ok))
      ∷ []

  -- `evaluate`
  unfoldable pub evaluate :
      ℕ → KillSwitchInputs F → RiskLimits F → KillSwitch → KillSwitch × List String
  evaluate now i limits k = evaluate_all now (conditions i limits) k
