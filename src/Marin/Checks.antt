-- ===== src/Marin/Checks.antt =====
-- The checks of `reconcile` in agents/marin/agent.py, in the order of the source.
use octopush.Marin.Report.{
  Severity, warning, critical, MismatchKind, position_mismatch, cash_mismatch, fee_mismatch,
  pnl_mismatch, unknown_fill, missing_fill, order_state_mismatch, number, text, Mismatch,
  ReconciliationResult, any_critical, unfigured, sorted, either_keys,
}
use octopush.Prelude.{
  ℕ, String, Bool, not, ◌&&◌, none, some, List, [], ◌∷◌, ◌++◌, map, foldl, filterb, length, ◌==◌,
  if◌then◌else◌,
}
use octopush.Prelude.Int.{pos, ◌-ℤ◌}
use octopush.Prelude.Dict.{Dict, lookup, insert, has}
use octopush.Prelude.Float.{Float, ◌⊕◌, ◌⊖◌, ◌⋖◌, zero_float}
use octopush.Order.Status.{filled, is_status}
use octopush.Order.{FillEvent, PaperOrder, remaining_quantity}
use octopush.Position.{PositionState}
use octopush.Oms.{OrderManager, all_fills, unknown_orders, qty_epsilon}
use octopush.Account.{PaperAccount, Ledger, fee_of}

-- The entries of `d` whose keys are not in `e`: `d.keys() - e.keys()`.
abbrev pub apart_from : {V W : Type 0} → Dict W → Dict V → Dict V
apart_from e = filterb (λ x. not (has x.0 e))

module _ {F : Type 0} where
  -- `{fill.fill_id: fill for fill in fills}`
  unfoldable pub by_id : List (FillEvent F) → Dict (FillEvent F)
  by_id fills = foldl (λ d f. insert f.fill_id f d) [] fills

  abbrev pub oms_fills : OrderManager F → Dict (FillEvent F)
  oms_fills o = by_id (all_fills o.orders)

module _ {F : Type 0} ⦃fl : Float F⦄ where
  abbrev pub cash_tolerance : F
  cash_tolerance = fl.decimal 1 6

  abbrev pub qty_tolerance : F
  qty_tolerance = qty_epsilon

  -- `abs(expected - actual) > tolerance`
  abbrev pub differs : F → F → F → Bool
  differs tolerance expected actual = tolerance ⋖ fl.absolute (expected ⊖ actual)

  -- A mismatch of two figures, where there is one.
  abbrev pub figures : MismatchKind → Severity → F → String → F → F → List (Mismatch F)
  figures kind severity tolerance key expected actual =
      if differs tolerance expected actual
      then record {
        kind = kind;
        severity = severity;
        key = key;
        expected = some (number expected);
        actual = some (number actual);
        difference = some (actual ⊖ expected);
      }
        ∷ []
      else []

  -- 1. Fill sets.
  unfoldable pub fill_checks : Dict (FillEvent F) → Dict (FillEvent F) → List (Mismatch F)
  fill_checks oms account =
      map (λ x. unfigured missing_fill x.0) (apart_from account oms)
      ++ map (λ x. unfigured unknown_fill x.0) (apart_from oms account)

  -- 2. Cash and realised P&L.
  unfoldable pub cash_checks : Ledger F → PaperAccount F → List (Mismatch F)
  cash_checks l a =
      figures cash_mismatch critical cash_tolerance "cash" l.cash a.cash
      ++ figures pnl_mismatch critical cash_tolerance "realized_pnl" l.realized a.realized_pnl

  abbrev pub quantity_at : String → Dict (PositionState F) → F
  quantity_at key ps = elim (lookup key ps) [ none ↦ zero_float | some p ↦ p.quantity ]

  -- 3. Positions, key by key.
  unfoldable pub position_checks :
      List String → Dict (PositionState F) → Dict (PositionState F) → List (Mismatch F)
  position_checks [] expected actual = []
  position_checks (key ∷ keys) expected actual =
      figures position_mismatch critical qty_tolerance key (quantity_at key expected)
        (quantity_at key actual)
      ++ position_checks keys expected actual

  -- 3b. Lifetime counts.
  unfoldable pub count_checks : ℕ → ℕ → List (Mismatch F)
  count_checks oms account =
      if oms == account
      then []
      else record {
        kind = missing_fill;
        severity = critical;
        key = "fills_applied";
        expected = some (number (fl.of_int (pos oms)));
        actual = some (number (fl.of_int (pos account)));
        difference = some (fl.of_int (pos account -ℤ pos oms));
      }
        ∷ []

  -- 4. Fees.
  unfoldable pub fee_checks : Dict (FillEvent F) → PaperAccount F → List (Mismatch F)
  fee_checks account a =
      figures fee_mismatch warning cash_tolerance "fees"
        (a.checkpoint.fees_paid ⊕ fl.sum (map (λ x. fee_of x.1) account)) a.fees_paid

  abbrev pub outstanding : PaperOrder F → List (Mismatch F)
  outstanding o =
      if is_status o.status filled && qty_tolerance ⋖ remaining_quantity o
      then record {
        kind = order_state_mismatch;
        severity = critical;
        key = o.client_order_id;
        expected = some (number zero_float);
        actual = some (number (remaining_quantity o));
        difference = none;
      }
        ∷ []
      else []

  -- 5. Order bookkeeping.
  unfoldable pub order_checks : Dict (PaperOrder F) → List (Mismatch F)
  order_checks [] = []
  order_checks ((k, o) ∷ orders) =
      figures order_state_mismatch critical qty_tolerance o.client_order_id
        (fl.sum (map (λ f. f.quantity) o.fills)) o.filled_quantity
      ++ outstanding o
      ++ order_checks orders

  -- 6. Orders in UNKNOWN.
  unfoldable pub unknown_checks : OrderManager F → List (Mismatch F)
  unknown_checks o =
      map
        (λ order. record {
          kind = order_state_mismatch;
          severity = warning;
          key = order.client_order_id;
          expected = none;
          actual = some (text "UNKNOWN");
          difference = none;
        })
        (unknown_orders o)

  -- All checks, in the order of the source; `l` is what the fills of the log rebuild.
  unfoldable pub checks : Ledger F → OrderManager F → PaperAccount F → List (Mismatch F)
  checks l o a =
      let logged = by_id a.fill_log in
      fill_checks (oms_fills o) logged
      ++ cash_checks l a
      ++ position_checks (sorted (either_keys l.positions a.positions)) l.positions a.positions
      ++ count_checks o.fills_applied a.fills_applied
      ++ fee_checks logged a
      ++ order_checks o.orders
      ++ unknown_checks o

  unfoldable pub result_at : ℕ → Ledger F → OrderManager F → PaperAccount F → ReconciliationResult F
  result_at now l o a =
      let mismatches = checks l o a in
      record {
        created_at = now;
        is_ok = not (any_critical mismatches);
        mismatches = mismatches;
        orders_checked = length o.orders;
        fills_checked = length (oms_fills o);
        positions_checked = length (either_keys l.positions a.positions);
      }
