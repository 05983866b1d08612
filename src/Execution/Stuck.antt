-- ===== src/Execution/Stuck.antt =====
-- `cancel_all` of execution/paper/executor.py where a cancel is under way already.
use octopush.Prelude.{ℕ, ◌+◌, String, ◌≡◌, refl, ap, ◌∙◌, false, not, ◌||◌, some, List, ◌∷◌, length}
use octopush.Prelude.Dict.{lookup, insert}
use octopush.Prelude.Float.{Float}
use octopush.Prelude.Action.{Result, raised, illegal_transition, bind-raised, ◌>>◌, pure}
use octopush.Order.Status.{
  created, submitting, cancel_pending, can_step, is_status, is_terminal_status, among,
}
use octopush.Order.{PaperOrder, is_live, is_terminal, can_transition_to}
use octopush.Order
use octopush.Oms.{OrderManager, transition, on_order, count_illegal}
use octopush.Execution.Venue.{PaperExecutor, on_oms, publish_order}
use octopush.Execution.Executor.{
  await_cancel, request_cancel, cancel_order, cancel, cancel_each, live_ids, cancel_all,
}

module _ {F : Type 0} where
  -- The order manager after a refused transition of an order.
  abbrev pub oms_counted : PaperOrder F → OrderManager F → OrderManager F
  oms_counted o m = record m {
    orders = insert o.client_order_id o m.orders;
    illegal_transitions = m.illegal_transitions + 1;
  }

  transition-again :
      (o : PaperOrder F) (now : ℕ)
      → o.status ≡ cancel_pending
      → Order.transition cancel_pending now o ≡ (raised illegal_transition, o)
  unfolding Order.transition can_transition_to can_step among is_status
  transition-again o now s = rw (s, Order.transition, can_transition_to) refl

  -- Such an order is live, and the venue knows it.
  live-cancel_pending :
      (o : PaperOrder F)
      → o.status ≡ cancel_pending
      → (not (is_live o) ≡ false)
        × ((is_status o.status created || is_status o.status submitting) ≡ false)
  unfolding is_live is_terminal is_terminal_status among is_status
  live-cancel_pending o s = (rw (s, is_live) refl, rw s refl)

  Oms_transition-again :
      (o : PaperOrder F) (now : ℕ) (m : OrderManager F)
      → lookup o.client_order_id m.orders ≡ some o
      → o.status ≡ cancel_pending
      → transition o.client_order_id cancel_pending now m
        ≡ (raised illegal_transition, oms_counted o m)
  unfolding transition on_order
  Oms_transition-again o now m e s =
      rw (e, on_order)
        (ap
          (λ (r : Result (Unit {0}) × PaperOrder F).
            (r.0, count_illegal r.0 (record m { orders = insert o.client_order_id r.1 m.orders })))
          (transition-again o now s))

module _ {F R : Type 0} ⦃fl : Float F⦄ where
  abbrev pub counted : PaperOrder F → PaperExecutor F R → PaperExecutor F R
  counted o x = record x { oms = oms_counted o x.oms }

  request_cancel-again :
      (o : PaperOrder F) (now : ℕ) (x : PaperExecutor F R)
      → lookup o.client_order_id x.oms.orders ≡ some o
      → o.status ≡ cancel_pending
      → request_cancel o now x ≡ (raised illegal_transition, counted o x)
  unfolding request_cancel
  request_cancel-again o now x e s =
      bind-raised (on_oms (transition o.client_order_id cancel_pending now) >> await_cancel o now)
        (λ _. publish_order _ o.client_order_id)
        (bind-raised (on_oms (transition o.client_order_id cancel_pending now))
          (λ _. await_cancel o now)
          (ap (λ (r : Result (Unit {0}) × OrderManager F). (r.0, record x { oms = r.1 }))
            (Oms_transition-again o now x.oms e s)))

  cancel-again :
      (o : PaperOrder F) (now : ℕ) (x : PaperExecutor F R)
      → lookup o.client_order_id x.oms.orders ≡ some o
      → o.status ≡ cancel_pending
      → cancel o.client_order_id now x ≡ (raised illegal_transition, counted o x)
  unfolding cancel cancel_order
  cancel-again o now x e s =
      let (live, known) = live-cancel_pending o s in
      rw (e, cancel, live, known) (request_cancel-again o now x e s)

  -- Where the first live order is CANCEL_PENDING already, `cancel_all` raises IllegalTransition and
  -- asks no order to cancel: all that it leaves is one more counted illegal transition, the order
  -- being written back as it was.
  pub cancel_all-cancel_pending :
      (o : PaperOrder F) (others : List String) (now : ℕ) (x : PaperExecutor F R)
      → live_ids x ≡ o.client_order_id ∷ others
      → lookup o.client_order_id x.oms.orders ≡ some o
      → o.status ≡ cancel_pending
      → cancel_all now x ≡ (raised illegal_transition, counted o x)
  unfolding cancel_all cancel_each
  cancel_all-cancel_pending o others now x first e s =
      bind-raised (cancel_each (live_ids x) now) (λ _. pure (length (live_ids x)))
        (ap (λ ids. cancel_each ids now x) first
          ∙ bind-raised (cancel o.client_order_id now) (λ _. cancel_each others now)
              (cancel-again o now x e s))
