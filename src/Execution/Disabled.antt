-- ===== src/Execution/Disabled.antt =====
-- `submit` of execution/paper/executor.py once execution is disabled, as the kill switch does it.
mod Refusal
use octopush.Prelude.{
  suc, ℕ, ◌+◌, String, ◌≡◌, refl, sym, ap, ◌∙◌, subst, true, some, List, [], ◌∷◌, ◌++◌, length, All,
  arith, inl, inr, Bool-cases, str_eq, if◌then◌else◌,
}
use octopush.Prelude.Dict.{Dict, lookup, insert, lookup-insert, lookup-insert_self}
use octopush.Prelude.Float.{Float, ◌⋖◌, zero_float}
use octopush.Prelude.Action.{Result, ok, bind-ok_at, bind-ok, ◌>>=◌, ◌>>◌, modify, pure}
use octopush.Order.Status.{rejected, can_step, is_status}
use octopush.Order.{PaperOrder, moved, can_transition_to}
use octopush.Order
use octopush.Oms.{
  OrderManager, PlannedOrder, chosen_id, new_order, create, from_plan, on_order, reject,
  with_reason,
}
use octopush.Opportunity.{ExecutionPlan}
use octopush.Events.{paper_order_updated}
use octopush.Execution.Venue.{
  PaperExecutor, ExecutionReport, on_oms, publish_order, order_posted, orders_at,
}
use octopush.Execution.Executor.{
  placed, refuse, send, submit_one, submit_all, report_of, report_on, submit,
}
use octopush.Execution.Disabled.Refusal.{
  order_for, rejected_order, with_new, with_refused, submit_one_lem,
}

-- The order under an id is REJECTED.
abbrev IsRejectedAt : {F : Type 0} → Dict (PaperOrder F) → String → Type 0
IsRejectedAt {F} d id = (o : PaperOrder F) × (lookup id d ≡ some o) × (o.status ≡ rejected)

-- An order that is placed and then rejected leaves every rejected order rejected.
insert-IsRejectedAt :
    {F : Type 0} (id k : String) (o p : PaperOrder F) (d : Dict (PaperOrder F))
    → p.status ≡ rejected
    → IsRejectedAt d k
    → IsRejectedAt (insert id p (insert id o d)) k
insert-IsRejectedAt id k o p d r (q, e, h) = elim (Bool-cases (str_eq id k)) [
  | inl same ↦ (p, lookup-insert id k p (insert id o d) ∙ rw same refl, r)
  | inr other ↦
      (q, rw (lookup-insert id k p (insert id o d), other, lookup-insert id k o d, other) e, h)
]

module _ {F : Type 0} where
  All-IsRejectedAt :
      (ids : List String) (d : Dict (PaperOrder F))
      → All (IsRejectedAt d) ids
      → All (λ o. o.status ≡ rejected) (orders_at ids d) × (length (orders_at ids d) ≡ length ids)
  All-IsRejectedAt [] d a = (tt, refl)
  All-IsRejectedAt (id ∷ ids) d a =
      let (o, e, h) = a.0 in
      let (later, same) = All-IsRejectedAt ids d a.1 in rw (e, orders_at) ((h, later), ap suc same)

  All-implies :
      (d e : Dict (PaperOrder F)) (ids : List String)
      → ((k : String) → IsRejectedAt d k → IsRejectedAt e k)
      → All (IsRejectedAt d) ids
      → All (IsRejectedAt e) ids
  All-implies d e [] f a = tt
  All-implies d e (id ∷ ids) f a = (f id a.0, All-implies d e ids f a.1)

module _ {F R : Type 0} ⦃fl : Float F⦄ where
  -- What refusing some planned orders has done to an executor.
  record Refusals (n : ℕ) (x y : PaperExecutor F R) : Type 0 where
    pub persists : (k : String) → IsRejectedAt x.oms.orders k → IsRejectedAt y.oms.orders k
    pub same_pending : y.pending ≡ x.pending
    pub same_account : y.account ≡ x.account
    pub tally : y.rejected_submissions ≡ x.rejected_submissions + n
    pub disabled : y.execution_disabled ≡ true

  -- All planned orders were refused, and their ids are returned.
  abbrev AllRefused :
      PaperExecutor F R → List (PlannedOrder F) → Result (List String) × PaperExecutor F R → Type 0
  AllRefused x ps (r, y) =
      (ids : List String) × (r ≡ ok ids)
      × (length ids ≡ length ps)
      × All (IsRejectedAt y.oms.orders) ids
      × Refusals (length ps) x y

  submit_all-AllRefused :
      (plan : ExecutionPlan F (PlannedOrder F)) (now : ℕ) (ps : List (PlannedOrder F))
      (x : PaperExecutor F R)
      → x.execution_disabled ≡ true
      → All (λ p. (zero_float ⋖ p.quantity) ≡ true) ps
      → AllRefused x ps (submit_all plan now ps x)
  unfolding submit_all moved
  submit_all-AllRefused plan now [] x off a = (
    [],
    refl,
    refl,
    tt,
    record {
      persists = λ k h. h;
      same_pending = refl;
      same_account = refl;
      tally = omega arith;
      disabled = off;
    },
  )
  submit_all-AllRefused plan now (p ∷ ps) x off a =
      let o = order_for plan p (x.mint x.minted) now in
      let x' = with_refused o now (with_new o x) in
      let (ids, fine, many, each, f) = submit_all-AllRefused plan now ps x' off a.1 in
      subst (AllRefused x (p ∷ ps))
        (sym (
          bind-ok (submit_one plan now p)
            (λ id. submit_all plan now ps >>= λ more. pure (id ∷ more))
            (submit_one_lem plan now p x off a.0)
          ∙ bind-ok_at (submit_all plan now ps) (λ more. pure (o.client_order_id ∷ more)) x' fine))
        (
          o.client_order_id ∷ ids,
          refl,
          ap suc many,
          (f.persists o.client_order_id (own o x), each),
          record {
            persists = λ k h. f.persists k (kept o k x h);
            same_pending = f.same_pending;
            same_account = f.same_account;
            tally = omega (arith, f.tally);
            disabled = f.disabled;
          },
        )
    where
      own :
          (o : PaperOrder F) (x : PaperExecutor F R)
          → IsRejectedAt (with_refused o now (with_new o x)).oms.orders o.client_order_id
      own o x = (rejected_order o now, lookup-insert_self o.client_order_id _ _, refl)

      kept :
          (o : PaperOrder F) (k : String) (x : PaperExecutor F R)
          → IsRejectedAt x.oms.orders k
          → IsRejectedAt (with_refused o now (with_new o x)).oms.orders k
      kept o k x h =
          insert-IsRejectedAt o.client_order_id k o (rejected_order o now) x.oms.orders refl h

  -- A submission of a plan of `n` orders that refused them all.
  pub record IsRefusal (x : PaperExecutor F R) (n : ℕ)
      (out : Result (ExecutionReport F) × PaperExecutor F R) : Type 0 where
    pub report : ExecutionReport F
    pub returned : out.0 ≡ ok report
    pub one_each : length report.orders ≡ n
    pub all_rejected : All (λ o. o.status ≡ rejected) report.orders
    pub same_pending : out.1.pending ≡ x.pending
    pub same_account : out.1.account ≡ x.account
    pub tally : out.1.rejected_submissions ≡ x.rejected_submissions + n

  -- Once execution is disabled, submitting a plan whose quantities are positive returns a report in
  -- which each planned order stands, REJECTED; nothing is pending at the venue that was not before,
  -- the account is untouched, and each order is counted as a rejected submission.
  pub submit-disabled :
      (plan : ExecutionPlan F (PlannedOrder F)) (now : ℕ) (x : PaperExecutor F R)
      → x.execution_disabled ≡ true
      → All (λ p. (zero_float ⋖ p.quantity) ≡ true) plan.orders
      → IsRefusal x (length plan.orders) (submit plan now x)
  unfolding submit
  submit-disabled plan now x off a =
      let (ids, fine, many, each, f) = submit_all-AllRefused plan now plan.orders x off a in
      let y = (submit_all plan now plan.orders x).1 in
      let (all_rejected, found) = All-IsRejectedAt ids y.oms.orders each in
      subst (IsRefusal x (length plan.orders))
        (sym (bind-ok_at (submit_all plan now plan.orders) (report_on plan now) x fine))
        (record {
          report = report_of plan now ids y;
          returned = refl;
          one_each = found ∙ many;
          all_rejected = all_rejected;
          same_pending = f.same_pending;
          same_account = f.same_account;
          tally = f.tally;
        })
