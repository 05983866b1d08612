-- ===== src/Marin/Tests.antt =====
-- A run of reconciliation and compaction, and their theorems at a concrete agent.
use octopush.Prelude.{ℕ, ◌≡◌, refl, true, false, none, some, List, [], ◌∷◌, length}
use octopush.Prelude.Int.{ℤ}
use octopush.Prelude.Float.{fixed_point}
use octopush.Prelude.Dict.{lookup}
use octopush.Prelude.Action.{Result, ok, raised}
use octopush.Order.Status.{
  submitting, acknowledged, open_order, is_terminal_status, can_step, is_status,
}
use octopush.Order.{
  FillEvent, PaperOrder, buy, is_terminal, moved, holds_fill, filled_by, remaining_quantity,
  can_transition_to, cash_delta, signed_quantity,
}
use octopush.Order
use octopush.Dedupe.{seen, admit, trim_dedupe, discard_oldest}
use octopush.Position.{is_flat, increase, reduce, apply}
use octopush.Oms.{
  OrderManager, init, on_order, transition, create, new_order, settle, advance, target_status,
  accept_fill, is_doomed, absorb, all_fills,
}
use octopush.Oms
use octopush.Oms.Orders.{IsValid}
use octopush.Oms.History.{Call, creates, transitions, fills, step, run, run-init-IsValid}
use octopush.Account.{
  PaperAccount, Ledger, open_account, admitted, roll_day, booked, finish, replay, continue,
  recompute_from_fills, seal,
}
use octopush.Account
use octopush.Health.Registry.{register}
use octopush.Marin.{
  Marin, ReconciliationResult, new_marin, compact, ids, reconcile, result_at, checks, fill_checks,
  cash_checks, position_checks, count_checks, fee_checks, order_checks, unknown_checks,
  any_critical, by_id, sorted, either_keys, seal_boundary, settled_fills, pull_back,
}
use octopush.Marin.Agreement.{IsAgreed, reconcile-IsAgreed}
use octopush.Marin.Sealing.{LeftOf, compact-left}
use octopush.Marin.Straddling.{reconcile-compact_straddling}
use octopush.Samples.{units, fill_of, first_fill, buy_five}

abbrev last_fill : FillEvent ℤ
last_fill = fill_of "f2" "o1" 20 buy (units 3) (units 100) (units 1)

-- An order that two fills complete.
abbrev calls : List (ℕ × Call ℤ)
calls =
    (0, creates buy_five "minted")
    ∷ (1, transitions "o1" submitting)
    ∷ (2, transitions "o1" acknowledged)
    ∷ (3, transitions "o1" open_order)
    ∷ (10, fills first_fill)
    ∷ (20, fills last_fill)
    ∷ []

abbrev manager : OrderManager ℤ
manager = run (init 10) calls

-- The account retains a single fill.
abbrev account : PaperAccount ℤ
account =
    (Account.apply_fill last_fill
      (Account.apply_fill first_fill (open_account (units 1000) 1 0)).1).1

abbrev agent : Marin ℤ (Unit {0})
agent =
    new_marin tt
      (record {
        policy = record {
          degraded_after_ms = 5_000;
          offline_after_ms = 15_000;
          error_budget = 10;
          error_window_ms = 60_000;
        };
        states = [];
        errors = [];
      })
      manager account

abbrev no_result : ReconciliationResult ℤ
no_result = record {
  created_at = 0;
  is_ok = false;
  mismatches = [];
  orders_checked = 0;
  fills_checked = 0;
  positions_checked = 0;
}

abbrev result_in : Result (ReconciliationResult ℤ) → ReconciliationResult ℤ
result_in (ok r) = r
result_in (raised e) = no_result

abbrev order_in : OrderManager ℤ → PaperOrder ℤ
order_in m = elim (lookup "o1" m.orders) [ none ↦ new_order buy_five "minted" 0 | some o ↦ o ]

reconciled : (result_in (reconcile 30 agent).0).is_ok ≡ true
unfolding run step create new_order transition on_order Order.transition moved can_transition_to
    can_step is_terminal_status Oms.apply_fill accept_fill settle advance target_status
    remaining_quantity Order.apply_fill holds_fill filled_by seen admit trim_dedupe discard_oldest
    is_status open_account Account.apply_fill admitted roll_day booked finish replay continue
    recompute_from_fills apply is_flat increase reduce cash_delta signed_quantity reconcile
    result_at checks fill_checks cash_checks position_checks count_checks fee_checks order_checks
    unknown_checks any_critical by_id sorted either_keys all_fills register
reconciled = refl

-- The log is over by one fill, and its cut goes through the order, which stays in memory.
cut_through :
    let m = (compact 40 agent).1 in
    (ids m.account.fill_log ≡ "f2" ∷ [])
    × (length (all_fills m.oms.orders) ≡ 2)
    × ((result_in (reconcile 50 m).0).is_ok ≡ false)
unfolding run step create new_order transition on_order Order.transition moved can_transition_to
    can_step is_terminal_status Oms.apply_fill accept_fill settle advance target_status
    remaining_quantity Order.apply_fill holds_fill filled_by seen admit trim_dedupe discard_oldest
    is_status open_account Account.apply_fill admitted roll_day booked finish replay continue
    recompute_from_fills apply is_flat increase reduce cash_delta signed_quantity reconcile
    result_at checks fill_checks cash_checks position_checks count_checks fee_checks order_checks
    unknown_checks any_critical by_id sorted either_keys all_fills register compact seal
    seal_boundary settled_fills pull_back is_terminal Oms.compact is_doomed absorb
cut_through = (refl, refl, refl)

agent-IsValid : IsValid agent.oms
agent-IsValid = run-init-IsValid 10 calls

reconcile-compact_straddling_example :
    (lookup "o1" (compact 40 agent).1.oms.orders ≡ some (order_in agent.oms))
    × ((result_in (reconcile 50 (compact 40 agent).1).0).is_ok ≡ false)
unfolding run step create new_order transition on_order Order.transition moved can_transition_to
    can_step is_terminal_status Oms.apply_fill accept_fill settle advance target_status
    remaining_quantity Order.apply_fill holds_fill filled_by seen admit trim_dedupe discard_oldest
    is_status open_account Account.apply_fill admitted roll_day booked finish replay continue
    recompute_from_fills apply is_flat increase reduce cash_delta signed_quantity reconcile
    result_at checks fill_checks cash_checks position_checks count_checks fee_checks order_checks
    unknown_checks any_critical by_id sorted either_keys all_fills register compact seal
    seal_boundary settled_fills pull_back is_terminal Oms.compact is_doomed absorb
reconcile-compact_straddling_example =
    reconcile-compact_straddling "o1" "f2" "f1" (order_in agent.oms) 40 50 agent
      (result_in (reconcile 50 (compact 40 agent).1).0) agent-IsValid refl refl refl refl refl refl

reconcile-IsAgreed_example :
    (l : Ledger ℤ) × (recompute_from_fills agent.account ≡ ok l)
    × IsAgreed l agent.oms agent.account
unfolding run step create new_order transition on_order Order.transition moved can_transition_to
    can_step is_terminal_status Oms.apply_fill accept_fill settle advance target_status
    remaining_quantity Order.apply_fill holds_fill filled_by seen admit trim_dedupe discard_oldest
    is_status open_account Account.apply_fill admitted roll_day booked finish replay continue
    recompute_from_fills apply is_flat increase reduce cash_delta signed_quantity reconcile
    result_at checks fill_checks cash_checks position_checks count_checks fee_checks order_checks
    unknown_checks any_critical by_id sorted either_keys all_fills register
reconcile-IsAgreed_example =
    reconcile-IsAgreed 30 agent (result_in (reconcile 30 agent).0) refl refl

compact-left_example :
    LeftOf agent.oms agent.account.fill_log 1 (compact 40 agent).1.account.fill_log
unfolding run step create new_order transition on_order Order.transition moved can_transition_to
    can_step is_terminal_status Oms.apply_fill accept_fill settle advance target_status
    remaining_quantity Order.apply_fill holds_fill filled_by seen admit trim_dedupe discard_oldest
    is_status open_account Account.apply_fill admitted roll_day booked finish replay continue
    recompute_from_fills apply is_flat increase reduce cash_delta signed_quantity reconcile
    result_at checks fill_checks cash_checks position_checks count_checks fee_checks order_checks
    unknown_checks any_critical by_id sorted either_keys all_fills register
compact-left_example = compact-left 40 agent
