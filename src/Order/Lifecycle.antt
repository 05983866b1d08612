-- ===== src/Order/Lifecycle.antt =====
-- The order state machine of core/models/execution.py: what its table allows, and what an order's
-- history records of it.
use octopush.Prelude.{
  ℕ, ◌≡◌, refl, ap, inl, inr, Bool, true, false, not, ◌&&◌, ◌||◌, Option, none, some, List, [], ◌∷◌,
  ◌++◌, arith, Bool-cases, if◌then◌else◌,
}
use octopush.Prelude.Action.{ok, raised, illegal_transition}
use octopush.Order.Status.{
  OrderStatus, created, submitting, acknowledged, open_order, partially_filled, filled,
  cancel_pending, cancelled, rejected, expired, unknown, is_status, is_terminal_status, can_step,
}
use octopush.Order.{PaperOrder, can_transition_to, moved, transition}

pub terminal-no-step : (s t : OrderStatus) → is_terminal_status s ≡ true → can_step s t ≡ false
unfolding is_terminal_status can_step
terminal-no-step filled t h = refl
terminal-no-step cancelled t h = refl
terminal-no-step rejected t h = refl
terminal-no-step expired t h = refl
terminal-no-step _ t h = cc

-- UNKNOWN can be entered from exactly the statuses that are neither terminal, nor UNKNOWN itself,
-- nor CREATED; and it can be left for exactly the terminal statuses, OPEN and PARTIALLY_FILLED.
pub can_step-unknown :
    (s : OrderStatus)
    → (can_step s unknown
        ≡ (not (is_terminal_status s) && not (is_status s unknown) && not (is_status s created)))
      × (can_step unknown s
          ≡ (is_terminal_status s || (is_status s open_order || is_status s partially_filled)))
unfolding can_step is_terminal_status is_status
can_step-unknown created = (refl, refl)
can_step-unknown _ = (refl, refl)

-- A way through the table from one status to another, as an order's history lists it.
abbrev pub Chain : OrderStatus → List (ℕ × OrderStatus) → OrderStatus → Type 0
Chain a [] b = a ≡ b
Chain a ((t, s) ∷ h) b = (can_step a s ≡ true) × Chain s h b

Chain-snoc :
    (a b c : OrderStatus) (h : List (ℕ × OrderStatus)) (t : ℕ)
    → Chain a h b
    → can_step b c ≡ true
    → Chain a (h ++ (t, c) ∷ []) c
Chain-snoc a b c [] t e s = (ground arith, refl)
Chain-snoc a b c ((u, d) ∷ h) t e s = (e.0, Chain-snoc d b c h t e.1 s)

-- From every status some way through the table ends in a terminal status.
pub can_terminate :
    (s : OrderStatus)
    → (h : List (ℕ × OrderStatus)) × (t : OrderStatus) × Chain s h t × (is_terminal_status t ≡ true)
unfolding can_step is_terminal_status
can_terminate created = ((0, rejected) ∷ [], rejected, (refl, refl), refl)
can_terminate submitting = ((0, rejected) ∷ [], rejected, (refl, refl), refl)
can_terminate acknowledged = ((0, rejected) ∷ [], rejected, (refl, refl), refl)
can_terminate open_order = ((0, cancelled) ∷ [], cancelled, (refl, refl), refl)
can_terminate partially_filled = ((0, cancelled) ∷ [], cancelled, (refl, refl), refl)
can_terminate cancel_pending = ((0, cancelled) ∷ [], cancelled, (refl, refl), refl)
can_terminate unknown = ((0, cancelled) ∷ [], cancelled, (refl, refl), refl)
can_terminate filled = ([], filled, refl, refl)
can_terminate cancelled = ([], cancelled, refl, refl)
can_terminate rejected = ([], rejected, refl, refl)
can_terminate expired = ([], expired, refl, refl)

abbrev pub is_some : {A : Type 0} → Option A → Bool
is_some none = false
is_some (some _) = true

-- The history opens with CREATED, each entry follows from the one before by the table, and the
-- last is the status; `terminal_at` is set exactly on terminal orders.
pub record IsTracked {F : Type 0} (o : PaperOrder F) : Type 0 where
  pub opened_at : ℕ
  pub steps : List (ℕ × OrderStatus)
  pub recorded : o.history ≡ (opened_at, created) ∷ steps
  pub legal : Chain created steps o.status
  pub stamped : is_some o.terminal_at ≡ is_terminal_status o.status

module _ {F : Type 0} where
  pub moved-IsTracked :
      (s : OrderStatus) (now : ℕ) (o : PaperOrder F)
      → IsTracked o
      → can_step o.status s ≡ true
      → IsTracked (moved s now o)
  unfolding moved
  moved-IsTracked s now o v h = record {
    opened_at = v.opened_at;
    steps = v.steps ++ (now, s) ∷ [];
    recorded = ap (λ (l : List (ℕ × OrderStatus)). l ++ (now, s) ∷ []) v.recorded;
    legal = Chain-snoc created o.status s v.steps now v.legal h;
    stamped = ground (arith, v.stamped, terminal-no-step o.status s);
  }

  -- `transition` raises and changes nothing, or the table allows the move and the order makes it:
  -- the move is appended to the history, with the time as `terminal_at` if the new status is
  -- terminal.
  pub transition_outcome :
      (s : OrderStatus) (now : ℕ) (o : PaperOrder F)
      → transition s now o
        ≡ (if can_step o.status s then (ok tt, moved s now o) else (raised illegal_transition, o))
  unfolding transition can_transition_to
  transition_outcome s now o = ground arith

  -- Every transition, refused or made, keeps the history a way through the table.
  pub transition-IsTracked :
      (s : OrderStatus) (now : ℕ) (o : PaperOrder F)
      → IsTracked o
      → IsTracked (transition s now o).1
  transition-IsTracked s now o v = elim (Bool-cases (can_step o.status s)) [
    | inl h ↦ rw (transition_outcome s now o, h) (moved-IsTracked s now o v h)
    | inr h ↦ rw (transition_outcome s now o, h) v
  ]

module _ {F : Type 0} where
  -- Transitions asked for one after the other, refused ones skipped.
  unfoldable pub attempts : List (ℕ × OrderStatus) → PaperOrder F → PaperOrder F
  attempts [] o = o
  attempts ((now, s) ∷ rest) o = attempts rest (transition s now o).1

  -- From any tracked order, transitions asked for in any order leave a tracked order.
  pub attempts-IsTracked :
      (requests : List (ℕ × OrderStatus)) (o : PaperOrder F)
      → IsTracked o
      → IsTracked (attempts requests o)
  unfolding attempts
  attempts-IsTracked [] o v = v
  attempts-IsTracked ((now, s) ∷ rest) o v =
      attempts-IsTracked rest (transition s now o).1 (transition-IsTracked s now o v)
