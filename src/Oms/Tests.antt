-- ===== src/Oms/Tests.antt =====
-- Runs of the order manager, and its theorems at concrete managers.
use octopush.Prelude.{ℕ, ◌+◌, ◌≡◌, refl, false, none, some, List, [], ◌∷◌, length, filterb, arith}
use octopush.Prelude.Int.{ℤ}
use octopush.Prelude.Float.{fixed_point}
use octopush.Prelude.Dict.{lookup, values}
use octopush.Prelude.Action.{ok, raised, illegal_transition}
use octopush.Order.Status.{
  created, submitting, acknowledged, open_order, partially_filled, cancelled, is_terminal_status,
  can_step, is_status,
}
use octopush.Order.{
  FillEvent, PaperOrder, is_terminal, moved, holds_fill, filled_by, remaining_quantity,
  can_transition_to,
}
use octopush.Order
use octopush.Dedupe.{seen, admit, trim_dedupe, discard_oldest}
use octopush.Oms.{
  OrderManager, init, on_order, transition, create, new_order, settle, advance, target_status,
  accept_fill, apply_fill, compact, is_doomed, resident_fills,
}
use octopush.Oms.Orders.{IsValid}
use octopush.Oms.Fills.{apply_fill_twice}
use octopush.Oms.Taking.{IsTaken, apply_fill-IsTaken}
use octopush.Oms.Compaction.{spare, compact_lem}
use octopush.Oms.History.{
  Call, creates, transitions, fills, step, run, run-IsValid, run-init-IsValid,
}
use octopush.Samples.{first_fill, buy_five}

-- An order is placed, acknowledged, opened and partly filled; then it is cancelled.
abbrev placed : List (ℕ × Call ℤ)
placed =
    (0, creates buy_five "minted")
    ∷ (1, transitions "o1" submitting)
    ∷ (2, transitions "o1" acknowledged)
    ∷ (3, transitions "o1" open_order)
    ∷ (4, transitions "o1" created)
    ∷ []

abbrev manager : OrderManager ℤ
manager = run (init 3) placed

abbrev cancelled_manager : OrderManager ℤ
cancelled_manager = run manager ((5, transitions "o1" cancelled) ∷ [])

-- The last request, back to CREATED, is refused and counted.
placed_run : manager.illegal_transitions ≡ 1
unfolding run step create new_order transition on_order Order.transition moved can_transition_to
    can_step is_terminal_status
placed_run = refl

abbrev order_in : OrderManager ℤ → PaperOrder ℤ
order_in m = elim (lookup "o1" m.orders) [ none ↦ new_order buy_five "minted" 0 | some o ↦ o ]

filled_twice :
    let m = run manager ((6, fills first_fill) ∷ (7, fills first_fill) ∷ []) in
    ((order_in m).status ≡ partially_filled) × (m.fills_applied ≡ 1) × (m.duplicate_fills ≡ 1)
unfolding run step create new_order transition on_order Order.transition moved can_transition_to
    can_step is_terminal_status apply_fill accept_fill settle advance target_status
    remaining_quantity Order.apply_fill holds_fill filled_by seen admit trim_dedupe discard_oldest
    is_status
filled_twice = (refl, refl, refl)

run-init-IsValid_example : IsValid (run (init 3) placed)
run-init-IsValid_example = run-init-IsValid 3 placed

-- A fill of a cancelled order raises, and is there all the same.
filled_late :
    let (r, m) = apply_fill first_fill 6 cancelled_manager in
    (r ≡ raised illegal_transition)
    × ((order_in m).status ≡ cancelled)
    × ((order_in m).fills ≡ first_fill ∷ [])
unfolding run step create new_order transition on_order Order.transition moved can_transition_to
    can_step is_terminal_status apply_fill accept_fill settle advance target_status
    remaining_quantity Order.apply_fill holds_fill filled_by seen admit trim_dedupe discard_oldest
    is_status
filled_late = (refl, refl, refl)

manager-IsValid : IsValid manager
manager-IsValid = run-init-IsValid 3 placed

apply_fill-IsTaken_example :
    IsTaken first_fill 6 manager (order_in manager) (apply_fill first_fill 6 manager)
unfolding run step create new_order transition on_order Order.transition moved can_transition_to
    can_step is_terminal_status holds_fill seen
apply_fill-IsTaken_example =
    apply_fill-IsTaken first_fill 6 manager (order_in manager) manager-IsValid (omega arith) refl
      refl refl refl

apply_fill_twice_example :
    let m' = (apply_fill first_fill 6 manager).1 in
    apply_fill first_fill 9 m' ≡ (ok false, record m' { duplicate_fills = m'.duplicate_fills + 1 })
unfolding run step create new_order transition on_order Order.transition moved can_transition_to
    can_step is_terminal_status apply_fill accept_fill settle advance target_status
    remaining_quantity Order.apply_fill holds_fill filled_by seen admit trim_dedupe discard_oldest
    is_status
apply_fill_twice_example =
    apply_fill_twice first_fill 6 9 manager manager-IsValid (omega arith) (λ e. cc) (λ e. cc)

cancelled-IsValid : IsValid cancelled_manager
cancelled-IsValid = run-IsValid ((5, transitions "o1" cancelled) ∷ []) manager manager-IsValid

compact_lem_example :
    let (r, m') = compact [] cancelled_manager in
    (m'.orders ≡ spare (is_doomed []) cancelled_manager.orders)
    × (r ≡ ok (length (filterb (is_doomed []) (values cancelled_manager.orders))))
    × (m'.archived.count + length m'.orders
        ≡ cancelled_manager.archived.count + length cancelled_manager.orders)
    × (m'.archived.fills + resident_fills m'.orders
        ≡ cancelled_manager.archived.fills + resident_fills cancelled_manager.orders)
compact_lem_example = compact_lem [] cancelled_manager cancelled-IsValid
