-- ===== src/Strategy/Tests.antt =====
-- Runs of the strategy state machine, and its theorems at concrete runs.
use octopush.Prelude.{ℕ, ◌≡◌, refl, false, some, List, [], ◌∷◌}
use octopush.Strategy.{
  agents_evaluating, consensus_reached, risk_check, authorized, executing, rejected, detected,
  is_end, can_move, transition, reject,
}
use octopush.Strategy.Trail.{
  Request, moves, rejects, step, run, entered, run-executing, run-released,
}

-- Execution is asked for too early once, and refused.
abbrev to_execution : List (ℕ × Request)
to_execution =
    (1, moves agents_evaluating)
    ∷ (2, moves executing)
    ∷ (3, moves consensus_reached)
    ∷ (4, moves risk_check)
    ∷ (5, moves authorized)
    ∷ (6, moves executing)
    ∷ (7, rejects "too late")
    ∷ []

reaches-executing : (run detected to_execution).state ≡ executing
unfolding run step transition reject can_move
reaches-executing = refl

run-executing_example :
    (entered (run detected to_execution)
      ≡ agents_evaluating ∷ consensus_reached ∷ risk_check ∷ authorized ∷ executing ∷ [])
    × ((run detected to_execution).released ≡ false)
run-executing_example = run-executing to_execution reaches-executing

abbrev turned_down : List (ℕ × Request)
turned_down = (1, moves agents_evaluating) ∷ (2, rejects "consensus") ∷ (3, moves executing) ∷ []

ends-rejected :
    ((run detected turned_down).state ≡ rejected)
    × ((run detected turned_down).rejected_reason ≡ some "consensus")
unfolding run step transition reject can_move
ends-rejected = (refl, refl)

run-released_example : (run detected turned_down).released ≡ is_end (run detected turned_down).state
run-released_example = run-released turned_down
