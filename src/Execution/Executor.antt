-- ===== src/Execution/Executor.antt =====
-- execution/paper/executor.py: `PaperExecutor`, over the order manager and the account. The time is an
-- argument; a loop over order objects is a loop over their ids, each looked up when its turn comes.
use octopush.Prelude.{
  ℕ, ◌+◌, String, true, false, not, ◌||◌, none, some, List, [], ◌∷◌, map, length, if◌then◌else◌,
}
use octopush.Prelude.Dict.{lookup, insert}
use octopush.Prelude.Float.{Float}
use octopush.Prelude.Action.{Action, Result, ok, raised, ◌>>=◌, ◌>>◌, pure, modify}
use octopush.Order.Status.{created, submitting, cancel_pending, is_status}
use octopush.Order.{PaperOrder, is_live}
use octopush.Settings.{VenueConfig, venue_named}
use octopush.Oms.{PlannedOrder, from_plan, transition, reject, live_orders}
use octopush.Opportunity.{ExecutionPlan}
use octopush.Events.{paper_order_created, paper_order_updated}
use octopush.Execution.Venue.{
  PaperExecutor, ExecutionReport, on_oms, change_order, publish_order, set_pending, latency_of,
  acknowledged_from, pending_or, cancel_from, orders_at,
}

module _ {F R : Type 0} ⦃fl : Float F⦄ where
  -- One planned order of `submit`: refused where execution is disabled. The id of the order is
  -- returned.
  unfoldable pub refuse : String → ℕ → Action (PaperExecutor F R) String
  refuse id now =
      modify (λ x. record x { rejected_submissions = x.rejected_submissions + 1 })
      >> on_oms (reject id "execution disabled" now)
      >> publish_order paper_order_updated id
      >> pure id

  unfoldable pub send : PaperOrder F → ℕ → Action (PaperExecutor F R) String
  send o now =
      on_oms (transition o.client_order_id submitting now)
      >> change_order o.client_order_id (λ q. record q { submitted_at = some now })
      >> (λ x. set_pending o.client_order_id (acknowledged_from (now + latency_of o.venue x)) x)
      >> publish_order paper_order_created o.client_order_id
      >> pure o.client_order_id

  abbrev pub placed :
      ExecutionPlan F (PlannedOrder F)
      → PlannedOrder F
      → ℕ
      → Action (PaperExecutor F R) (PaperOrder F)
  placed plan p now x =
      on_oms (from_plan p plan.plan_id plan.intent_id plan.strategy (x.mint x.minted) now)
        (record x { minted = x.minted + 1 })

  unfoldable pub submit_one :
      ExecutionPlan F (PlannedOrder F) → ℕ → PlannedOrder F → Action (PaperExecutor F R) String
  submit_one plan now p = placed plan p now >>= λ o x.
      if x.execution_disabled then refuse o.client_order_id now x else send o now x

  unfoldable pub submit_all :
      ExecutionPlan F (PlannedOrder F)
      → ℕ
      → List (PlannedOrder F)
      → Action (PaperExecutor F R) (List String)
  submit_all plan now [] = pure []
  submit_all plan now (p ∷ ps) =
      submit_one plan now p >>= λ id. submit_all plan now ps >>= λ ids. pure (id ∷ ids)

  -- The report at the end of `submit`, on the order objects as they are then.
  abbrev pub report_of :
      ExecutionPlan F (PlannedOrder F) → ℕ → List String → PaperExecutor F R → ExecutionReport F
  report_of plan now ids x = record {
    created_at = now;
    correlation_id = plan.correlation_id;
    plan_id = plan.plan_id;
    intent_id = plan.intent_id;
    orders = orders_at ids x.oms.orders;
    complete = false;
  }

  abbrev pub report_on :
      ExecutionPlan F (PlannedOrder F)
      → ℕ
      → List String
      → Action (PaperExecutor F R) (ExecutionReport F)
  report_on plan now ids x = (ok (report_of plan now ids x), x)

  -- `submit`
  unfoldable pub submit :
      ExecutionPlan F (PlannedOrder F) → ℕ → Action (PaperExecutor F R) (ExecutionReport F)
  submit plan now = submit_all plan now plan.orders >>= report_on plan now

  -- The pending entry is there also when the venue is unknown, which raises.
  abbrev pub cancel_at_venue :
      PaperOrder F → ℕ → Result (VenueConfig F) → Action (PaperExecutor F R) (Unit {0})
  cancel_at_venue o now (ok v) x = cancel_from o.client_order_id now (now + v.cancel_latency_ms) x
  cancel_at_venue o now (raised e) x = (
    raised e,
    record x {
      pending =
          insert o.client_order_id
            (pending_or (acknowledged_from now) (lookup o.client_order_id x.pending)) x.pending;
    },
  )

  abbrev pub await_cancel : PaperOrder F → ℕ → Action (PaperExecutor F R) (Unit {0})
  await_cancel o now x = cancel_at_venue o now (venue_named o.venue x.venues) x

  -- The end of `cancel` for an order that the venue knows.
  unfoldable pub request_cancel : PaperOrder F → ℕ → Action (PaperExecutor F R) (Unit {0})
  request_cancel o now =
      on_oms (transition o.client_order_id cancel_pending now)
      >> await_cancel o now
      >> publish_order paper_order_updated o.client_order_id

  unfoldable pub cancel_order : PaperOrder F → ℕ → Action (PaperExecutor F R) (Unit {0})
  cancel_order o now =
      if not (is_live o)
      then pure tt
      else if is_status o.status created || is_status o.status submitting
      then cancel_from o.client_order_id now now
      else request_cancel o now

  -- `cancel`
  unfoldable pub cancel : String → ℕ → Action (PaperExecutor F R) (Unit {0})
  cancel id now x = elim (lookup id x.oms.orders) [
    | none ↦ (ok tt, x)
    | some o ↦ cancel_order o now x
  ]

  unfoldable pub cancel_each : List String → ℕ → Action (PaperExecutor F R) (Unit {0})
  cancel_each [] now = pure tt
  cancel_each (id ∷ ids) now = cancel id now >> cancel_each ids now

  abbrev pub live_ids : PaperExecutor F R → List String
  live_ids x = map (λ o. o.client_order_id) (live_orders x.oms)

  -- `cancel_all`
  unfoldable pub cancel_all : ℕ → Action (PaperExecutor F R) ℕ
  cancel_all now x = (cancel_each (live_ids x) now >> pure (length (live_ids x))) x

  abbrev pub inject_timeout : String → PaperExecutor F R → PaperExecutor F R
  inject_timeout id x = elim (lookup id x.pending) [
    | none ↦ x
    | some p ↦ record x { pending = insert id (record p { force_unknown = true }) x.pending }
  ]
