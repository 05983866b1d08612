-- ===== src/Execution/Disabled/Refusal.antt =====
-- One planned order of `submit` in execution/paper/executor.py, once execution is disabled.
use octopush.Prelude.{ℕ, ◌+◌, String, ◌≡◌, refl, ap, ◌∙◌, true, some, [], ◌∷◌, ◌++◌, if◌then◌else◌}
use octopush.Prelude.Dict.{lookup, insert, lookup-insert_self}
use octopush.Prelude.Float.{Float, ◌⋖◌, zero_float}
use octopush.Prelude.Action.{Result, ok, bind-ok, ◌>>◌, modify, pure}
use octopush.Order.Status.{rejected, can_step, is_status}
use octopush.Order.{PaperOrder, moved, can_transition_to}
use octopush.Order
use octopush.Oms.{
  OrderManager, PlannedOrder, chosen_id, new_order, create, from_plan, on_order, reject,
  with_reason,
}
use octopush.Opportunity.{ExecutionPlan}
use octopush.Events.{paper_order_updated}
use octopush.Execution.Venue.{PaperExecutor, on_oms, publish_order, order_posted}
use octopush.Execution.Executor.{placed, refuse, send, submit_one}

module _ {F : Type 0} ⦃fl : Float F⦄ where
  -- The keyword arguments that `from_plan` gives to `create`.
  abbrev pub order_for :
      ExecutionPlan F (PlannedOrder F) → PlannedOrder F → String → ℕ → PaperOrder F
  order_for plan p minted now =
      new_order
        (record {
          venue = p.venue;
          symbol = p.symbol;
          side = p.side;
          quantity = p.quantity;
          order_type = p.order_type;
          time_in_force = p.time_in_force;
          expected_price = p.expected_price;
          limit_price = p.limit_price;
          plan_id = some plan.plan_id;
          intent_id = some plan.intent_id;
          strategy = some plan.strategy;
          client_order_id = some p.client_order_id;
          ttl_ms = some p.ttl_ms;
        })
        minted now

  abbrev pub id_for : PlannedOrder F → String → String
  id_for p minted = chosen_id (some p.client_order_id) minted

  -- The order once it is refused.
  abbrev pub rejected_order : PaperOrder F → ℕ → PaperOrder F
  rejected_order o now = moved rejected now (with_reason "execution disabled" o)

  -- The order manager with an order refused.
  abbrev pub oms_refused : PaperOrder F → ℕ → OrderManager F → OrderManager F
  oms_refused o now m = record m {
    orders = insert o.client_order_id (rejected_order o now) m.orders;
  }

  reject-order :
      (o : PaperOrder F) (now : ℕ)
      → can_step o.status rejected ≡ true
      → (modify (with_reason "execution disabled") >> Order.transition rejected now) o
        ≡ (ok tt, rejected_order o now)
  unfolding Order.transition can_transition_to
  reject-order o now h = rw h refl

  reject_lem :
      (o : PaperOrder F) (now : ℕ) (m : OrderManager F)
      → lookup o.client_order_id m.orders ≡ some o
      → can_step o.status rejected ≡ true
      → reject o.client_order_id "execution disabled" now m ≡ (ok tt, oms_refused o now m)
  unfolding reject on_order
  reject_lem o now m e h =
      rw (e, on_order)
        (ap
          (λ (r : Result (Unit {0}) × PaperOrder F).
            (r.0, record m { orders = insert o.client_order_id r.1 m.orders }))
          (reject-order o now h))

module _ {F R : Type 0} ⦃fl : Float F⦄ where
  -- The executor with a new order in its order manager.
  abbrev pub with_new : PaperOrder F → PaperExecutor F R → PaperExecutor F R
  with_new o x = record x {
    minted = x.minted + 1;
    oms = record x.oms {
      orders = insert o.client_order_id o x.oms.orders;
      orders_created = x.oms.orders_created + 1;
    };
  }

  placed_lem :
      (plan : ExecutionPlan F (PlannedOrder F)) (now : ℕ) (p : PlannedOrder F)
      (x : PaperExecutor F R)
      → (zero_float ⋖ p.quantity) ≡ true
      → let o = order_for plan p (x.mint x.minted) now in placed plan p now x ≡ (ok o, with_new o x)
  unfolding from_plan create new_order
  placed_lem plan now p x q = rw q refl

  -- The executor after a refusal.
  abbrev pub with_refused : PaperOrder F → ℕ → PaperExecutor F R → PaperExecutor F R
  with_refused o now x = record x {
    rejected_submissions = x.rejected_submissions + 1;
    oms = record x.oms { orders = insert o.client_order_id (rejected_order o now) x.oms.orders };
    published = x.published ++ (paper_order_updated, order_posted (rejected_order o now)) ∷ [];
  }

  publish_lem :
      (o : PaperOrder F) (id : String) (x : PaperExecutor F R)
      → lookup id x.oms.orders ≡ some o
      → publish_order paper_order_updated id x ≡ (
        ok tt,
        record x { published = x.published ++ (paper_order_updated, order_posted o) ∷ [] },
      )
  publish_lem o id x e = rw (e, publish_order) refl

  refuse_lem :
      (o : PaperOrder F) (now : ℕ) (x : PaperExecutor F R)
      → lookup o.client_order_id x.oms.orders ≡ some o
      → can_step o.status rejected ≡ true
      → refuse o.client_order_id now x ≡ (ok o.client_order_id, with_refused o now x)
  unfolding refuse
  refuse_lem o now x e h =
      bind-ok
        (modify (λ y. record y { rejected_submissions = y.rejected_submissions + 1 })
          >> on_oms (reject o.client_order_id "execution disabled" now)
          >> publish_order paper_order_updated o.client_order_id)
        (λ _. pure o.client_order_id)
        (bind-ok
            (modify (λ y. record y { rejected_submissions = y.rejected_submissions + 1 })
              >> on_oms (reject o.client_order_id "execution disabled" now))
            (λ _. publish_order paper_order_updated o.client_order_id)
            (ap
              (λ (r : Result (Unit {0}) × OrderManager F).
                (r.0, record x { rejected_submissions = x.rejected_submissions + 1; oms = r.1 }))
              (reject_lem o now x.oms e h))
          ∙ publish_lem (rejected_order o now) o.client_order_id _
              (lookup-insert_self o.client_order_id _ x.oms.orders))

  -- One planned order is refused.
  pub submit_one_lem :
      (plan : ExecutionPlan F (PlannedOrder F)) (now : ℕ) (p : PlannedOrder F)
      (x : PaperExecutor F R)
      → x.execution_disabled ≡ true
      → (zero_float ⋖ p.quantity) ≡ true
      → let o = order_for plan p (x.mint x.minted) now in
        submit_one plan now p x ≡ (ok o.client_order_id, with_refused o now (with_new o x))
  unfolding submit_one can_step new_order is_status
  submit_one_lem plan now p x off q =
      let o = order_for plan p (x.mint x.minted) now in
      bind-ok (placed plan p now)
        (λ o' y. if y.execution_disabled then refuse o'.client_order_id now y else send o' now y)
        (placed_lem plan now p x q)
      ∙ ap
          (λ b.
            (if b then refuse o.client_order_id now (with_new o x) else send o now (with_new o x)))
          off
      ∙ refuse_lem o now (with_new o x) (lookup-insert_self o.client_order_id o x.oms.orders) refl
