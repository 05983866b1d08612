-- ===== src/Order/Terminal.antt =====
-- Terminal orders under all that changes an order: the methods `transition` and `apply_fill` of
-- core/models/execution.py.
use octopush.Prelude.{ℕ, ◌≡◌, refl, sym, ap, ◌∙◌, subst, true, List, [], ◌∷◌}
use octopush.Prelude.Float.{Float}
use octopush.Prelude.Action.{raised, illegal_transition}
use octopush.Order.Status.{OrderStatus}
use octopush.Order.Lifecycle.{transition_outcome, terminal-no-step}
use octopush.Order.Totals.{SameCourse, apply_fill-SameCourse}
use octopush.Order.{FillEvent, PaperOrder, is_terminal, transition, apply_fill}

-- A call of a method that changes the order.
pub data Request (F : Type 0) : Type 0 where
  moves : OrderStatus → Request F
  fills : FillEvent F → Request F

module _ {F : Type 0} ⦃fl : Float F⦄ where
  unfoldable pub step : PaperOrder F → ℕ × Request F → PaperOrder F
  step o (now, moves s) = (transition s now o).1
  step o (now, fills f) = (apply_fill f o).1

  -- Calls in a row; the caller catches what one raises and goes on.
  unfoldable pub run : PaperOrder F → List (ℕ × Request F) → PaperOrder F
  run o [] = o
  run o (r ∷ rs) = run (step o r) rs

  step-SameCourse :
      (o : PaperOrder F) (r : ℕ × Request F) → is_terminal o ≡ true → SameCourse o (step o r)
  unfolding step is_terminal
  step-SameCourse o (now, moves s) h =
      let refused : transition s now o ≡ (raised illegal_transition, o) =
        transition_outcome s now o ∙ rw (terminal-no-step o.status s h) refl in
      subst (λ r. SameCourse o r.1) (sym refused) refl
  step-SameCourse o (now, fills f) h = apply_fill-SameCourse f o

  -- Whatever transitions and fills are asked of an order in a terminal status, refused ones included,
  -- nothing of it changes but the fills, the filled quantity, the fees and the average price: its
  -- status, its history and all its times stay.
  pub run-terminal :
      (rs : List (ℕ × Request F)) (o : PaperOrder F)
      → is_terminal o ≡ true
      → SameCourse o (run o rs)
  unfolding run is_terminal
  run-terminal [] o h = refl
  run-terminal (r ∷ rs) o h =
      let first = step-SameCourse o r h in
      let rest = run-terminal rs (step o r) (ap is_terminal first ∙ h) in
      rest
      ∙ ap
          (λ (p : PaperOrder F).
            let o' = run (step o r) rs in
            record p {
              fills = o'.fills;
              filled_quantity = o'.filled_quantity;
              fees_paid = o'.fees_paid;
              average_price = o'.average_price;
            })
          first
