-- ===== src/Execution/Tests.antt =====
-- Runs of the paper executor, and its theorems at concrete executors.
use octopush.Prelude.{◌≡◌, refl, true, false, none, some, [], ◌∷◌}
use octopush.Prelude.Int.{ℤ}
use octopush.Prelude.Float.{fixed_point}
use octopush.Prelude.Dict.{lookup}
use octopush.Prelude.Action.{raised, illegal_transition}
use octopush.Order.Status.{
  open_order, cancel_pending, is_status, is_terminal_status, can_step, among,
}
use octopush.Order.{
  buy, limit, market, gtc, PaperOrder, is_live, is_terminal, moved, can_transition_to,
}
use octopush.Order
use octopush.Oms.{create, from_plan, new_order, transition, on_order, live_orders}
use octopush.Execution.Costs.{consume, walk_book}
use octopush.Execution.Simulator.{cancel_wins_race}
use octopush.Execution.Venue.{PaperExecutor, latency_of, book_view}
use octopush.Execution.Executor.{
  submit, submit_all, submit_one, send, refuse, cancel, cancel_order, request_cancel, cancel_each,
  cancel_all,
}
use octopush.Execution.Polling.{
  poll, poll_each, poll_one, poll_order, poll_pending, arrive, work, trade, attempt_fill, expire,
}
use octopush.Execution.Disabled.{IsRefusal, submit-disabled}
use octopush.Execution.Stuck.{counted, cancel_all-cancel_pending}
use octopush.Samples.{units}
use octopush.Execution.Samples.{zeros, executor, plan, status_in}

-- Half of the second level is needed to fill 300.
walked :
    (walk_book
      (record { price = units 100; size = units 2 }
        ∷ record { price = units 200; size = units 1 }
        ∷ [])
      (units 300)
      buy).levels_consumed
    ≡ 2
unfolding walk_book consume
walked = refl

submit-disabled_example : IsRefusal (executor true) 2 (submit plan 10 (executor true))
submit-disabled_example = submit-disabled plan 10 (executor true) refl (refl, (refl, tt))

-- Both orders are open, and a cancel of the first is under way.
abbrev cancelling : PaperExecutor ℤ (Unit {0})
cancelling = (cancel "o1" 60 (poll 50 (submit plan 0 (executor false)).1).1).1

abbrev first_order : PaperOrder ℤ
first_order = elim (lookup "o1" cancelling.oms.orders) [
  | none ↦
      new_order
        (record {
          venue = "A";
          symbol = "BTC-USD";
          side = buy;
          quantity = units 2;
          order_type = market;
          time_in_force = gtc;
          expected_price = units 100;
          limit_price = none;
          plan_id = none;
          intent_id = none;
          strategy = none;
          client_order_id = some "o1";
          ttl_ms = none;
        })
        "minted" 0
  | some o ↦ o
]

cancel_all-cancel_pending_example :
    cancel_all 70 cancelling ≡ (raised illegal_transition, counted first_order cancelling)
unfolding submit submit_all submit_one send refuse cancel cancel_order request_cancel cancel_each
    cancel_all poll poll_each poll_one poll_order poll_pending arrive work trade attempt_fill expire
    create from_plan new_order transition on_order Order.transition moved can_transition_to can_step
    among is_status is_terminal_status is_live is_terminal live_orders latency_of book_view
    cancel_wins_race
cancel_all-cancel_pending_example =
    cancel_all-cancel_pending first_order ("o2" ∷ []) 70 cancelling refl refl refl

-- A cancel of an order that is still SUBMITTING is forgotten: the order opens.
cancelled_early :
    let x = (poll 1_000 (cancel "o1" 10 (submit plan 0 (executor false)).1).1).1 in
    status_in "o1" x ≡ some open_order
unfolding submit submit_all submit_one send refuse cancel cancel_order request_cancel cancel_each
    cancel_all poll poll_each poll_one poll_order poll_pending arrive work trade attempt_fill expire
    create from_plan new_order transition on_order Order.transition moved can_transition_to can_step
    among is_status is_terminal_status is_live is_terminal live_orders latency_of book_view
    cancel_wins_race
cancelled_early = refl

-- A cancel that loses its race until the order's time is over makes `poll` raise, and the second
-- order is not polled.
poll_stuck :
    let (r, x) = poll 6_000 cancelling in
    (r ≡ raised illegal_transition)
    × (status_in "o1" x ≡ some cancel_pending)
    × (status_in "o2" x ≡ some open_order)
unfolding submit submit_all submit_one send refuse cancel cancel_order request_cancel cancel_each
    cancel_all poll poll_each poll_one poll_order poll_pending arrive work trade attempt_fill expire
    create from_plan new_order transition on_order Order.transition moved can_transition_to can_step
    among is_status is_terminal_status is_live is_terminal live_orders latency_of book_view
    cancel_wins_race
poll_stuck = (refl, refl, refl)
