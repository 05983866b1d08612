-- ===== src/Execution/Mirror/Requests.antt =====
-- `submit`, `cancel` and `cancel_all` of execution/paper/executor.py, for the relation of Mirror.antt.
use octopush.Prelude.{ℕ, ◌+◌, String, some, List, [], ◌∷◌, ◌||◌, not, length, if◌then◌else◌}
use octopush.Prelude.Dict.{lookup}
use octopush.Prelude.Float.{Float}
use octopush.Prelude.Action.{Result, ok, raised, ◌>>=◌, ◌>>◌, pure, modify}
use octopush.Order.Status.{submitting, cancel_pending, created, is_status}
use octopush.Order.{PaperOrder, is_live}
use octopush.Settings.{VenueConfig, venue_named}
use octopush.Oms.{PlannedOrder, transition, reject, from_plan}
use octopush.Opportunity.{ExecutionPlan}
use octopush.Events.{paper_order_created, paper_order_updated}
use octopush.Execution.Venue.{
  PaperExecutor, on_oms, change_order, publish_order, set_pending, cancel_from, acknowledged_from,
  latency_of,
}
use octopush.Execution.Executor.{
  refuse, send, placed, submit_one, submit_all, report_on, submit, cancel_at_venue, await_cancel,
  request_cancel, cancel_order, cancel, cancel_each, live_ids, cancel_all,
}
use octopush.Execution.Mirror.{
  Keeps, bind-Keeps, if_Kept, if_Keeps, option_Kept, pure-Keeps, on_oms-Keeps, change_order-Keeps,
  publish_order-Keeps, transition-Still, reject-Still, from_plan-Still,
}

module _ {F R : Type 0} ⦃fl : Float F⦄ where
  refuse-Keeps : (id : String) (now : ℕ) → Keeps {F = F} {R = R} (refuse id now)
  unfolding refuse
  refuse-Keeps id now =
      let tally = modify (λ (x : PaperExecutor F R). record x {
        rejected_submissions = x.rejected_submissions + 1;
      }) in
      let rejects = on_oms {R = R} (reject id "execution disabled" now) in
      bind-Keeps (tally >> rejects >> publish_order paper_order_updated id) (λ _. pure id)
        (bind-Keeps (tally >> rejects) (λ _. publish_order paper_order_updated id)
          (bind-Keeps tally (λ _. rejects)
            (λ x v _ _. record { windows = v.windows; counts = v.counts })
            (λ _. on_oms-Keeps _ (reject-Still id "execution disabled" now)))
          (λ _. publish_order-Keeps paper_order_updated id))
        (λ _. pure-Keeps id)

  send-Keeps : (o : PaperOrder F) (now : ℕ) → Keeps {F = F} {R = R} (send o now)
  unfolding send
  send-Keeps o now =
      let id = o.client_order_id in
      let submits = on_oms {R = R} (transition id submitting now) in
      let stamp =
        change_order {R = R} id (λ (q : PaperOrder F). record q { submitted_at = some now }) in
      let waits = λ (x : PaperExecutor F R).
        set_pending id (acknowledged_from (now + latency_of o.venue x)) x in
      bind-Keeps (submits >> stamp >> waits >> publish_order paper_order_created id) (λ _. pure id)
        (bind-Keeps (submits >> stamp >> waits) (λ _. publish_order paper_order_created id)
          (bind-Keeps (submits >> stamp) (λ _. waits)
            (bind-Keeps submits (λ _. stamp) (on_oms-Keeps _ (transition-Still id submitting now))
              (λ _. change_order-Keeps id (λ q. record q { submitted_at = some now })))
            (λ _ x v _ _. record { windows = v.windows; counts = v.counts }))
          (λ _. publish_order-Keeps paper_order_created id))
        (λ _. pure-Keeps id)

  placed-Keeps :
      (plan : ExecutionPlan F (PlannedOrder F)) (p : PlannedOrder F) (now : ℕ)
      → Keeps {F = F} {R = R} (placed plan p now)
  placed-Keeps plan p now x v =
      on_oms-Keeps (from_plan p plan.plan_id plan.intent_id plan.strategy (x.mint x.minted) now)
        (from_plan-Still p plan.plan_id plan.intent_id plan.strategy (x.mint x.minted) now)
        (record x { minted = x.minted + 1 }) (record { windows = v.windows; counts = v.counts })

  submit_one-Keeps :
      (plan : ExecutionPlan F (PlannedOrder F)) (now : ℕ) (p : PlannedOrder F)
      → Keeps {F = F} {R = R} (submit_one plan now p)
  unfolding submit_one
  submit_one-Keeps plan now p =
      bind-Keeps (placed plan p now)
        (λ o x. if x.execution_disabled then refuse o.client_order_id now x else send o now x)
        (placed-Keeps plan p now)
        (λ o x.
          if_Kept x.execution_disabled x (refuse o.client_order_id now x) (send o now x)
            (refuse-Keeps o.client_order_id now x) (send-Keeps o now x))

  submit_all-Keeps :
      (plan : ExecutionPlan F (PlannedOrder F)) (now : ℕ) (ps : List (PlannedOrder F))
      → Keeps {F = F} {R = R} (submit_all plan now ps)
  unfolding submit_all
  submit_all-Keeps plan now [] = pure-Keeps []
  submit_all-Keeps plan now (p ∷ ps) =
      bind-Keeps (submit_one plan now p) (λ id. submit_all plan now ps >>= λ ids. pure (id ∷ ids))
        (submit_one-Keeps plan now p)
        (λ id.
          bind-Keeps (submit_all plan now ps) (λ ids. pure (id ∷ ids))
            (submit_all-Keeps plan now ps) (λ ids. pure-Keeps (id ∷ ids)))

  pub submit-Keeps :
      (plan : ExecutionPlan F (PlannedOrder F)) (now : ℕ) → Keeps {F = F} {R = R} (submit plan now)
  unfolding submit
  submit-Keeps plan now =
      bind-Keeps (submit_all plan now plan.orders) (report_on plan now)
        (submit_all-Keeps plan now plan.orders) (λ ids x v _ _. v)

  cancel_at_venue-Keeps :
      (o : PaperOrder F) (now : ℕ) (c : Result (VenueConfig F))
      → Keeps {F = F} {R = R} (cancel_at_venue o now c)
  cancel_at_venue-Keeps o now (ok c) x v _ _ = record { windows = v.windows; counts = v.counts }
  cancel_at_venue-Keeps o now (raised e) x v _ _ = record { windows = v.windows; counts = v.counts }

  request_cancel-Keeps : (o : PaperOrder F) (now : ℕ) → Keeps {F = F} {R = R} (request_cancel o now)
  unfolding request_cancel
  request_cancel-Keeps o now =
      let id = o.client_order_id in
      let asks = on_oms {R = R} (transition id cancel_pending now) in
      bind-Keeps (asks >> await_cancel o now) (λ _. publish_order paper_order_updated id)
        (bind-Keeps asks (λ _. await_cancel o now)
          (on_oms-Keeps _ (transition-Still id cancel_pending now))
          (λ _ x. cancel_at_venue-Keeps o now (venue_named o.venue x.venues) x))
        (λ _. publish_order-Keeps paper_order_updated id)

  cancel_order-Keeps : (o : PaperOrder F) (now : ℕ) → Keeps {F = F} {R = R} (cancel_order o now)
  unfolding cancel_order
  cancel_order-Keeps o now = if_Keeps (not (is_live o)) (pure tt) _ (pure-Keeps tt) (
      if_Keeps (is_status o.status created || is_status o.status submitting)
        (cancel_from o.client_order_id now now) (request_cancel o now)
        (λ x v _ _. record { windows = v.windows; counts = v.counts }) (request_cancel-Keeps o now))

  pub cancel-Keeps : (id : String) (now : ℕ) → Keeps {F = F} {R = R} (cancel id now)
  unfolding cancel
  cancel-Keeps id now x =
      option_Kept (lookup id x.oms.orders) x (ok tt, x) (λ o. cancel_order o now x) (λ v _ _. v)
        (λ o. cancel_order-Keeps o now x)

  cancel_each-Keeps : (ids : List String) (now : ℕ) → Keeps {F = F} {R = R} (cancel_each ids now)
  unfolding cancel_each
  cancel_each-Keeps [] now = pure-Keeps tt
  cancel_each-Keeps (id ∷ ids) now =
      bind-Keeps (cancel id now) (λ _. cancel_each ids now) (cancel-Keeps id now)
        (λ _. cancel_each-Keeps ids now)

  pub cancel_all-Keeps : (now : ℕ) → Keeps {F = F} {R = R} (cancel_all now)
  unfolding cancel_all
  cancel_all-Keeps now x =
      bind-Keeps (cancel_each (live_ids x) now) (λ _. pure (length (live_ids x)))
        (cancel_each-Keeps (live_ids x) now) (λ _. pure-Keeps (length (live_ids x))) x
