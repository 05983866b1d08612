-- ===== src/Execution/Mirror/Tests.antt =====
-- The paper executor at a venue with a book: an order that fills.
use octopush.Prelude.{ℕ, ◌≡◌, refl, true, false, none, some, List, [], ◌∷◌}
use octopush.Prelude.Int.{ℤ, pos}
use octopush.Prelude.Float.{fixed_point}
use octopush.Order.Status.{filled, is_status, is_terminal_status, can_step, among}
use octopush.Order.{
  buy, limit, market, gtc, PaperOrder, is_live, is_terminal, moved, can_transition_to,
}
use octopush.Order
use octopush.Oms.{PlannedOrder, create, from_plan, new_order, transition, on_order, live_orders}
use octopush.Account.{open_account}
use octopush.Opportunity.{ExecutionPlan}
use octopush.Execution.Costs.{consume, walk_book}
use octopush.Execution.Simulator.{cancel_wins_race}
use octopush.Execution.Venue.{latency_of, book_view}
use octopush.Execution.Executor.{
  submit, submit_all, submit_one, send, refuse, cancel, cancel_order, request_cancel, cancel_each,
  cancel_all,
}
use octopush.Execution.Polling.{
  poll, poll_each, poll_one, poll_order, poll_pending, arrive, work, trade, attempt_fill, expire,
}
use octopush.Samples.{units}
use octopush.Execution.Samples.{zeros, executor, planned, plan, status_in}
use octopush.Market.{MarketState}
use octopush.Consensus.{fresh}
use octopush.Dedupe.{seen, admit, trim_dedupe, discard_oldest}
use octopush.Position.{is_flat, increase}
use octopush.Position
use octopush.Account.{admitted, roll_day, booked, finish}
use octopush.Account
use octopush.Oms.{apply_fill, accept_fill, settle, advance, target_status}
use octopush.Order.{cash_delta, filled_by, remaining_quantity, holds_fill}
use octopush.Execution.Simulator.{
  is_marketable, fill_marketable, apply_vanishing_liquidity, latency_adjusted_levels, moved_levels,
  taken,
}
use octopush.Execution.Polling.{simulate, record_fill}
use octopush.Execution.Venue.{update_market, accrue}
use octopush.Execution.Mirror.{IsMirrored}
use octopush.Execution.Mirror.Runs.{
  Call, updates, submits, polls, cancels_all, disables, step, run, run-IsMirrored,
}

-- A fresh book with one bid and one ask.
abbrev quoted : MarketState ℤ
quoted = record {
  created_at = 0;
  source_data_timestamp = none;
  venues =
      (
        "A:BTC-USD",
        record {
          venue = "A";
          symbol = "BTC-USD";
          metrics = record {
            best_bid = some (units 99);
            best_ask = some (units 100);
            mid = none;
            microprice = none;
            spread = none;
            spread_bps = none;
            bid_depth_notional = pos 0;
            ask_depth_notional = pos 0;
            bid_depth_by_bps = [];
            ask_depth_by_bps = [];
            imbalance = pos 0;
            short_vol_bps = pos 0;
            buy_volume = pos 0;
            sell_volume = pos 0;
          };
          book = some (record {
            venue = "A";
            symbol = "BTC-USD";
            exchange_ts = 0;
            received_ts = 0;
            sequence = none;
            bids = record { price = units 99; size = units 5 } ∷ [];
            asks = record { price = units 100; size = units 5 } ∷ [];
            is_checkpoint = false;
          });
          exchange_ts = none;
          last_update_ts = none;
          as_of = 0;
          quality = fresh;
          latency_ms = none;
          connected = true;
          sequence_gaps = 0;
          reconnects = 0;
        },
      )
      ∷ [];
  consolidated = [];
}

abbrev single_plan : ExecutionPlan ℤ (PlannedOrder ℤ)
single_plan = record plan { orders = planned "o1" ∷ [] }

abbrev calls : List (ℕ × Call ℤ)
calls =
    (0, updates quoted)
    ∷ (0, submits single_plan)
    ∷ (50, polls)
    ∷ (60, cancels_all)
    ∷ (70, disables)
    ∷ []

-- The order fills at the quoted ask.
traded :
    let x = (run calls (executor false)).1 in
    (status_in "o1" x ≡ some filled) × (x.account.fills_applied ≡ 1)
unfolding run step update_market accrue submit submit_all submit_one send refuse cancel cancel_order
    request_cancel cancel_each cancel_all poll poll_each poll_one poll_order poll_pending arrive
    work trade attempt_fill expire create from_plan new_order transition on_order Order.transition
    moved can_transition_to can_step among is_status is_terminal_status is_live is_terminal
    live_orders latency_of book_view cancel_wins_race open_account Account.apply_fill admitted
    roll_day booked finish seen admit trim_dedupe discard_oldest Position.apply is_flat increase
    cash_delta apply_fill accept_fill settle Order.apply_fill filled_by advance target_status
    remaining_quantity holds_fill record_fill simulate is_marketable fill_marketable
    apply_vanishing_liquidity latency_adjusted_levels moved_levels taken walk_book consume
traded = (refl, refl)

run-IsMirrored_example : IsMirrored (run calls (executor false)).1
unfolding run step update_market accrue submit submit_all submit_one send refuse cancel cancel_order
    request_cancel cancel_each cancel_all poll poll_each poll_one poll_order poll_pending arrive
    work trade attempt_fill expire create from_plan new_order transition on_order Order.transition
    moved can_transition_to can_step among is_status is_terminal_status is_live is_terminal
    live_orders latency_of book_view cancel_wins_race open_account Account.apply_fill admitted
    roll_day booked finish seen admit trim_dedupe discard_oldest Position.apply is_flat increase
    cash_delta apply_fill accept_fill settle Order.apply_fill filled_by advance target_status
    remaining_quantity holds_fill record_fill simulate is_marketable fill_marketable
    apply_vanishing_liquidity latency_adjusted_levels moved_levels taken walk_book consume
run-IsMirrored_example =
    run-IsMirrored calls (executor false) (record { windows = refl; counts = refl }) refl
