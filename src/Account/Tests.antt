-- ===== src/Account/Tests.antt =====
-- Runs of the paper account, and its theorems at concrete accounts.
use octopush.Prelude.{ℕ, ◌+◌, ◌≡◌, refl, false, some, List, [], ◌∷◌, length, arith}
use octopush.Prelude.Int.{ℤ, negsuc}
use octopush.Prelude.Float.{fixed_point}
use octopush.Prelude.Action.{Result, ok, raised, validation_error}
use octopush.Order.{cash_delta, signed_quantity}
use octopush.Dedupe.{seen, admit, trim_dedupe, discard_oldest}
use octopush.Dedupe.Horizon.{empty-IsWindow}
use octopush.Position.{is_flat, increase, reduce, apply, signed_notional}
use octopush.Account.{
  PaperAccount, open_account, apply_fill, admitted, roll_day, booked, finish, mark, mark_all,
  equity, replay, continue, recompute_from_fills, running_ledger, seal, seal_limit, position_of,
}
use octopush.Account.Reconcile.{IsReconciled, seal_lem}
use octopush.Account.Session.{Call, fills, marks, seals, step, run, run-open_account-IsReconciled}
use octopush.Account.Torn.{apply_fill_rebate}
use octopush.Samples.{units, first_fill, second_fill, rebate_fill}

abbrev opened : PaperAccount ℤ
opened = open_account (units 1000) 3 0

-- Two bought at 100 and three sold at 110, one unit of fee each: the position flips, 20 are
-- realised, and the third one sold is open at 110.
abbrev session : List (Call ℤ)
session =
    fills first_fill
    ∷ marks (("BTC-USD", units 105) ∷ []) 15
    ∷ fills second_fill
    ∷ seals (some 1) 30
    ∷ fills second_fill
    ∷ []

abbrev after_session : Result (PaperAccount ℤ)
after_session = run session opened

abbrev cash_of : Result (PaperAccount ℤ) → ℤ × ℤ × ℕ × ℕ
cash_of (ok a) = (a.cash, a.realized_pnl, length a.fill_log, a.fills_applied)
cash_of (raised e) = (negsuc 0, negsuc 0, 0, 0)

session-run : cash_of (run session opened) ≡ (units 1128, units 20, 1, 2)
unfolding run step open_account apply_fill admitted roll_day booked finish mark mark_all equity seal
    replay continue seen admit trim_dedupe discard_oldest apply is_flat increase reduce cash_delta
    signed_quantity signed_notional
session-run = refl

abbrev unwrap : Result (PaperAccount ℤ) → PaperAccount ℤ
unwrap (ok a) = a
unwrap (raised e) = open_account (units 1) 0 0

run-open_account-IsReconciled_example : IsReconciled (unwrap (run session opened))
unfolding run step open_account apply_fill admitted roll_day booked finish mark mark_all equity seal
    replay continue seen admit trim_dedupe discard_oldest apply is_flat increase reduce cash_delta
    signed_quantity signed_notional
run-open_account-IsReconciled_example =
    run-open_account-IsReconciled session (units 1000) 3 0 (unwrap (run session opened)) refl

abbrev one_fill : PaperAccount ℤ
one_fill = unwrap (run (fills first_fill ∷ fills second_fill ∷ []) opened)

one_fill-IsReconciled : IsReconciled one_fill
unfolding run step open_account apply_fill admitted roll_day booked finish mark mark_all equity seal
    replay continue seen admit trim_dedupe discard_oldest apply is_flat increase reduce cash_delta
    signed_quantity signed_notional recompute_from_fills
one_fill-IsReconciled = refl

seal_lem_example :
    let (r, b) = seal (some 1) 40 one_fill in
    (r ≡ ok (seal_limit (some 1) (length one_fill.fill_log)))
    × (recompute_from_fills b ≡ recompute_from_fills one_fill)
    × (running_ledger b ≡ running_ledger one_fill)
    × (b.checkpoint.fills_sealed + length b.fill_log
        ≡ one_fill.checkpoint.fills_sealed + length one_fill.fill_log)
    × IsReconciled b
seal_lem_example = seal_lem (some 1) 40 one_fill one_fill-IsReconciled

-- A rebate of 0.01 on a position that has paid no fee.
apply_fill_rebate_example :
    let (r, b) = apply_fill rebate_fill opened in
    (r ≡ raised validation_error)
    × (b.fills_applied ≡ opened.fills_applied + 1)
    × ((position_of rebate_fill b.positions).quantity ≡ units 1)
    × (b.cash ≡ opened.cash)
    × (b.fees_paid ≡ opened.fees_paid)
    × (b.fill_log ≡ opened.fill_log)
    × (apply_fill rebate_fill b ≡ (ok false, b))
unfolding open_account seen is_flat
apply_fill_rebate_example =
    apply_fill_rebate rebate_fill opened (empty-IsWindow 3) (omega arith) refl refl refl refl
