-- ===== src/KillSwitch/Tests.antt =====
-- Runs of the kill switch, and its theorems at concrete runs.
use octopush.Prelude.{
  ℕ, ◌≡◌, refl, Bool, true, false, none, some, List, [], ◌∷◌, map, contains, is_nil,
}
use octopush.Prelude.Int.{ℤ}
use octopush.Prelude.Float.{fixed_point}
use octopush.Health.{required_ok, bad_components}
use octopush.Portfolio.{PortfolioState, drawdown, equity}
use octopush.Dedupe.Horizon.{NoRepeats}
use octopush.KillSwitch.{
  KillSwitchInputs, init, trading_allowed, required, apply_actions, engaged_by, engage, observe,
  evaluate_one, evaluate_all, clear, conditions, acknowledge_cancel_all,
}
use octopush.KillSwitch.Engagement.{
  Call, engages, evaluates, acknowledges_cancel, step, run, run-trading_allowed,
}
use octopush.KillSwitch.Confirmation.{has_run, rounds, holds, rounds-fired}
use octopush.Samples.{units, limits}

-- A manual halt, its cancellation acknowledged, and a storage failure on top of it.
abbrev halted : List (ℕ × Call)
halted =
    (5, engages "MANUAL")
    ∷ (6, acknowledges_cancel)
    ∷ (7, evaluates (("STORAGE_FAILURE", some true) ∷ []))
    ∷ (8, engages "MANUAL")
    ∷ []

halted_listed : (run init halted).state.triggered_by ≡ "MANUAL" ∷ "STORAGE_FAILURE" ∷ []
unfolding run step engage engaged_by apply_actions evaluate_all evaluate_one observe required
    acknowledge_cancel_all
halted_listed = refl

cleared_allows : trading_allowed (clear 9 (run init halted)).state ≡ true
unfolding clear trading_allowed
cleared_allows = refl

run-trading_allowed_example :
    (trading_allowed (run init halted).state ≡ is_nil (run init halted).state.triggered_by)
    × NoRepeats (run init halted).state.triggered_by
run-trading_allowed_example = run-trading_allowed halted

abbrev portfolio : PortfolioState ℤ
portfolio = record {
  created_at = 0;
  initial_balance = units 1000;
  cash = units 1000;
  positions = [];
  realized_pnl = units 0;
  fees_paid = units 0;
  peak_equity = units 1000;
  day_realized_pnl = units 0;
  day_started_at = none;
}

-- The inputs of one evaluation, by whether market data arrives.
abbrev inputs : Bool → KillSwitchInputs ℤ
inputs fresh = record {
  portfolio = portfolio;
  health = some (record { components = [] });
  reconciliation_ok = true;
  market_data_ok = fresh;
  book_corruption = false;
  max_latency_ms = units 1;
  storage_ok = true;
  unexpected_position = false;
  required_components = [];
}

-- Market data drops out once, comes back, and drops out twice in a row.
abbrev outages : List (ℕ × KillSwitchInputs ℤ)
outages = (1, inputs false) ∷ (2, inputs true) ∷ (3, inputs false) ∷ (4, inputs false) ∷ []

outages-run :
    has_run
      (required "MARKET_DATA_OUTAGE")
      (map (λ r. holds limits "MARKET_DATA_OUTAGE" r.1) outages)
    ≡ true
unfolding required holds conditions drawdown equity required_ok bad_components
outages-run = refl

rounds-fired_example :
    contains "MARKET_DATA_OUTAGE" (rounds limits init outages).state.triggered_by
    ≡ has_run
        (required "MARKET_DATA_OUTAGE")
        (map (λ r. holds limits "MARKET_DATA_OUTAGE" r.1) outages)
rounds-fired_example = rounds-fired limits "MARKET_DATA_OUTAGE" outages refl
