-- ===== src/Execution/Mirror/Runs.antt =====
-- Any calls of the paper executor (execution/paper/executor.py), as the orchestrator and the kill
-- switch make them.
use octopush.Prelude.{ℕ, String, ◌≡◌, true, List, [], ◌∷◌, inl, inr, Option-cases}
use octopush.Prelude.Dict.{lookup}
use octopush.Prelude.Float.{Float}
use octopush.Prelude.Action.{Action, ok, ◌>>◌, pure, modify}
use octopush.Market.{MarketState}
use octopush.Oms.{PlannedOrder}
use octopush.Opportunity.{ExecutionPlan}
use octopush.Execution.Simulator.{Draws}
use octopush.Execution.Venue.{PaperExecutor, update_market}
use octopush.Execution.Executor.{submit, cancel, cancel_all, inject_timeout}
use octopush.Execution.Polling.{poll}
use octopush.Execution.Mirror.{IsMirrored, Keeps, bind-Keeps, pure-Keeps}
use octopush.Execution.Mirror.Requests.{submit-Keeps, cancel-Keeps, cancel_all-Keeps}
use octopush.Execution.Mirror.Turns.{poll-Keeps}

-- A call of a method, or the assignment with which the kill switch disables submissions.
pub data Call (F : Type 0) : Type 0 where
  submits : ExecutionPlan F (PlannedOrder F) → Call F
  cancels : String → Call F
  cancels_all polls disables : Call F
  updates : MarketState F → Call F
  times_out : String → Call F

module _ {F R : Type 0} ⦃fl : Float F⦄ ⦃dr : Draws F R⦄ where
  unfoldable pub step : ℕ × Call F → Action (PaperExecutor F R) (Unit {0})
  step (now, submits plan) = submit plan now >> pure tt
  step (now, cancels id) = cancel id now
  step (now, cancels_all) = cancel_all now >> pure tt
  step (now, polls) = poll now >> pure tt
  step (now, disables) = modify (λ x. record x { execution_disabled = true })
  step (now, updates m) = modify (update_market m)
  step (now, times_out id) = modify (inject_timeout id)

  -- Calls in a row, up to the first that raises.
  unfoldable pub run : List (ℕ × Call F) → Action (PaperExecutor F R) (Unit {0})
  run [] = pure tt
  run (c ∷ cs) = step c >> run cs

  inject_timeout-IsMirrored :
      (id : String) (x : PaperExecutor F R) → IsMirrored x → IsMirrored (inject_timeout id x)
  inject_timeout-IsMirrored id x v = elim (Option-cases (lookup id x.pending)) [
    | inl missing ↦ rw (missing, inject_timeout) v
    | inr (p, e) ↦ rw (e, inject_timeout) (record { windows = v.windows; counts = v.counts })
  ]

  step-Keeps : (c : ℕ × Call F) → Keeps {F = F} {R = R} (step c)
  unfolding step update_market
  step-Keeps (now, submits plan) =
      bind-Keeps (submit plan now) (λ _. pure tt) (submit-Keeps plan now) (λ _. pure-Keeps tt)
  step-Keeps (now, cancels id) = cancel-Keeps id now
  step-Keeps (now, cancels_all) =
      bind-Keeps (cancel_all now) (λ _. pure tt) (cancel_all-Keeps now) (λ _. pure-Keeps tt)
  step-Keeps (now, polls) =
      bind-Keeps (poll now) (λ _. pure tt) (poll-Keeps now) (λ _. pure-Keeps tt)
  step-Keeps (now, disables) = λ x v _ _. record { windows = v.windows; counts = v.counts }
  step-Keeps (now, updates m) = λ x v _ _. record { windows = v.windows; counts = v.counts }
  step-Keeps (now, times_out id) = λ x v _ _. inject_timeout-IsMirrored id x v

  run-Keeps : (cs : List (ℕ × Call F)) → Keeps {F = F} {R = R} (run cs)
  unfolding run
  run-Keeps [] = pure-Keeps tt
  run-Keeps (c ∷ cs) = bind-Keeps (step c) (λ _. run cs) (step-Keeps c) (λ _. run-Keeps cs)

  -- Let the order manager and the account know the same fills as duplicates and count equally many,
  -- as they do when both are new and keep equally many ids. Whatever is submitted, cancelled, polled,
  -- timed out and disabled then, and however the market and the draws of the simulator turn out: as
  -- long as no call raises, the two still know the same fills and count equally many.
  pub run-IsMirrored :
      (cs : List (ℕ × Call F)) (x : PaperExecutor F R)
      → IsMirrored x
      → (run cs x).0 ≡ ok tt
      → IsMirrored (run cs x).1
  run-IsMirrored cs x v e = run-Keeps cs x v tt e
