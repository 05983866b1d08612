-- ===== src/Oms/History.antt =====
-- Any history of calls on the order manager (execution/oms/__init__.py).
use octopush.Prelude.{ℕ, String, List, [], ◌∷◌}
use octopush.Prelude.Float.{Float}
use octopush.Order.Status.{OrderStatus}
use octopush.Order.{FillEvent}
use octopush.Dedupe.Horizon.{empty-IsWindow}
use octopush.Oms.Orders.{
  IsValid, create-IsValid, transition-IsValid, mark_unknown-IsValid, resolve_unknown-IsValid,
  reject-IsValid, apply_fill-IsValid,
}
use octopush.Oms.Compaction.{compact-IsValid}
use octopush.Oms.{
  OrderManager, NewOrder, init, create, transition, mark_unknown, resolve_unknown, reject,
  apply_fill, compact,
}

-- A call of a method that changes the manager.
pub data Call (F : Type 0) : Type 0 where
  creates : NewOrder F → String → Call F
  transitions : String → OrderStatus → Call F
  marks_unknown : String → String → Call F
  resolves : String → OrderStatus → Call F
  rejects : String → String → Call F
  fills : FillEvent F → Call F
  compacts : List String → Call F

module _ {F : Type 0} ⦃fl : Float F⦄ where
  -- The caller catches what a call raises and goes on.
  unfoldable pub step : OrderManager F → ℕ × Call F → OrderManager F
  step m (now, creates n minted) = (create n minted now m).1
  step m (now, transitions id s) = (transition id s now m).1
  step m (now, marks_unknown id reason) = (mark_unknown id reason now m).1
  step m (now, resolves id s) = (resolve_unknown id s now m).1
  step m (now, rejects id reason) = (reject id reason now m).1
  step m (now, fills f) = (apply_fill f now m).1
  step m (now, compacts unsealed) = (compact unsealed m).1

  unfoldable pub run : OrderManager F → List (ℕ × Call F) → OrderManager F
  run m [] = m
  run m (c ∷ cs) = run (step m c) cs

  step-IsValid : (m : OrderManager F) (c : ℕ × Call F) → IsValid m → IsValid (step m c)
  unfolding step
  step-IsValid m (now, creates n minted) v = create-IsValid n minted now m v
  step-IsValid m (now, transitions id s) v = transition-IsValid id s now m v
  step-IsValid m (now, marks_unknown id reason) v = mark_unknown-IsValid id reason now m v
  step-IsValid m (now, resolves id s) v = resolve_unknown-IsValid id s now m v
  step-IsValid m (now, rejects id reason) v = reject-IsValid id reason now m v
  step-IsValid m (now, fills f) v = apply_fill-IsValid f now m v
  step-IsValid m (now, compacts unsealed) v = compact-IsValid unsealed m v

  pub run-IsValid : (cs : List (ℕ × Call F)) (m : OrderManager F) → IsValid m → IsValid (run m cs)
  unfolding run
  run-IsValid [] m v = v
  run-IsValid (c ∷ cs) m v = run-IsValid cs (step m c) (step-IsValid m c v)

  -- After any calls at all, refused ones included, on a manager that started empty: every order is
  -- stored once and under its own id, its history is a way through the transition table to its
  -- status, its totals are those of its fills, and the duplicate window is in order.
  pub run-init-IsValid : (n : ℕ) (cs : List (ℕ × Call F)) → IsValid (run (init n) cs)
  run-init-IsValid n cs =
      run-IsValid cs (init n) (record { keyed = tt; sound = tt; windowed = empty-IsWindow n })
