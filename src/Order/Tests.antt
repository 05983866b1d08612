-- ===== src/Order/Tests.antt =====
-- Runs of the order state machine, and its theorems at concrete orders.
use octopush.Prelude.{
  ℕ, ◌≡◌, ◌≢◌, ◌⊎◌, refl, true, false, not, ◌&&◌, ◌||◌, none, List, [], ◌∷◌, ◌*◌,
}
use octopush.Prelude.Int.{ℤ, pos}
use octopush.Prelude.Float.{fixed_point, unit_scale}
use octopush.Prelude.Action.{ok, raised, value_error}
use octopush.Order.Status.{
  OrderStatus, created, submitting, open_order, partially_filled, filled, cancelled, rejected,
  unknown, is_terminal_status, can_step, is_status,
}
use octopush.Order.Lifecycle.{
  Chain, IsTracked, can_step-unknown, can_terminate, attempts, attempts-IsTracked,
}
use octopush.Order.Totals.{IsTotalled, SameCourse, apply_fill-IsTotalled}
use octopush.Order.Terminal.{moves, fills, step, run, run-terminal}
use octopush.Order.{
  buy, limit, gtc, taker, FillEvent, PaperOrder, is_terminal, transition, moved, apply_fill,
  holds_fill, can_transition_to, filled_by,
}

abbrev fresh : PaperOrder ℤ
fresh = record {
  created_at = 0;
  client_order_id = "o1";
  venue_order_id = none;
  plan_id = none;
  intent_id = none;
  strategy = none;
  venue = "A";
  symbol = "BTC-USD";
  side = buy;
  order_type = limit;
  time_in_force = gtc;
  quantity = pos (5 * unit_scale);
  limit_price = none;
  expected_price = pos (100 * unit_scale);
  status = created;
  filled_quantity = pos 0;
  average_price = none;
  fees_paid = pos 0;
  submitted_at = none;
  acknowledged_at = none;
  terminal_at = none;
  expires_at = none;
  reject_reason = none;
  fills = [];
  history = (0, created) ∷ [];
}

abbrev two_bought : FillEvent ℤ
two_bought = record {
  fill_id = "f1";
  client_order_id = "o1";
  created_at = 10;
  venue = "A";
  symbol = "BTC-USD";
  side = buy;
  quantity = pos (2 * unit_scale);
  price = pos (100 * unit_scale);
  fee = pos unit_scale;
  liquidity = taker;
  slippage_bps = pos 0;
  strategy = none;
}

abbrev requests : List (ℕ × OrderStatus)
requests = (1, submitting) ∷ (2, filled) ∷ (3, rejected) ∷ (4, unknown) ∷ []

-- FILLED is refused from SUBMITTING, and UNKNOWN from REJECTED.
requests_run :
    (attempts requests fresh).history ≡ (0, created) ∷ (1, submitting) ∷ (3, rejected) ∷ []
unfolding attempts transition can_transition_to moved can_step is_terminal_status
requests_run = refl

fresh-IsTracked : IsTracked fresh
unfolding is_terminal_status
fresh-IsTracked = record {
  opened_at = 0;
  steps = [];
  recorded = refl;
  legal = refl;
  stamped = refl;
}

fresh-IsTotalled : IsTotalled fresh
fresh-IsTotalled = record {
  quantities = refl;
  fees = refl;
  average = refl;
  own = tt;
  distinct = tt;
}

can_step-unknown_example :
    (can_step open_order unknown ≡ (
      not (is_terminal_status open_order)
      && not (is_status open_order unknown)
      && not (is_status open_order created)))
    × (can_step unknown open_order ≡ (
        is_terminal_status open_order
        || (is_status open_order open_order || is_status open_order partially_filled)))
can_step-unknown_example = can_step-unknown open_order

can_terminate_example :
    (h : List (ℕ × OrderStatus)) × (t : OrderStatus) × Chain unknown h t
    × (is_terminal_status t ≡ true)
can_terminate_example = can_terminate unknown

attempts-IsTracked_example : IsTracked (attempts requests fresh)
attempts-IsTracked_example = attempts-IsTracked requests fresh fresh-IsTracked

-- A fill of a cancelled order counts, and its status stays.
cancelled_run :
    let o =
      run
        (record fresh { status = cancelled })
        ((1, fills two_bought) ∷ (2, moves open_order) ∷ []) in
    (o.status ≡ cancelled) × (o.filled_quantity ≡ pos (2 * unit_scale))
unfolding run step transition can_transition_to can_step apply_fill holds_fill filled_by
cancelled_run = (refl, refl)

run-terminal_example :
    SameCourse
      (record fresh { status = cancelled })
      (run
        (record fresh { status = cancelled })
        ((1, fills two_bought) ∷ (2, moves open_order) ∷ []))
unfolding is_terminal is_terminal_status
run-terminal_example =
    run-terminal ((1, fills two_bought) ∷ (2, moves open_order) ∷ [])
      (record fresh { status = cancelled }) refl

apply_fill-IsTotalled_example :
    let (r, o) = apply_fill two_bought fresh in
    IsTotalled o
    × (((two_bought.client_order_id ≢ fresh.client_order_id)
          × (apply_fill two_bought fresh ≡ (raised value_error, fresh)))
        ⊎ (((two_bought.client_order_id ≡ fresh.client_order_id)
              × (holds_fill two_bought.fill_id fresh.fills ≡ true)
              × (apply_fill two_bought fresh ≡ (ok tt, fresh)))
            ⊎ ((two_bought.client_order_id ≡ fresh.client_order_id)
                × (holds_fill two_bought.fill_id fresh.fills ≡ false)
                × (r ≡ ok tt)
                × (o.fills ≡ two_bought ∷ [])
                × SameCourse fresh o)))
apply_fill-IsTotalled_example = apply_fill-IsTotalled two_bought fresh fresh-IsTotalled
