-- ===== src/Execution/Mirror.antt =====
-- The relation between the order manager and the account of execution/paper/executor.py, and its rules
-- for the executor's parts and for the ways in which actions are put together.
mod Fills
mod Turns
mod Requests
pub mod Runs
mod Tests
use octopush.Prelude.{
  ℕ, ◌+◌, String, ◌≡◌, refl, sym, ap, ◌∙◌, subst, Bool, true, false, Option, none, some, List, inl,
  inr, Bool-cases, Option-cases, if◌then◌else◌,
}
use octopush.Prelude.Dict.{lookup}
use octopush.Prelude.Float.{Float, ◌⋖◌, zero_float}
use octopush.Prelude.Action.{
  Action, Result, ok, raised, illegal_transition, Result-cases, bind-ok_at, bind-raised, ◌>>=◌,
  ◌>>◌, pure, modify,
}
use octopush.Order.{PaperOrder}
use octopush.Order
use octopush.Order.Status.{OrderStatus}
use octopush.Oms.{
  OrderManager, PlannedOrder, NewOrder, on_order, transition, count_illegal, mark_unknown, reject,
  create, from_plan,
}
use octopush.Account.{PaperAccount}
use octopush.Events.{EventType}
use octopush.Execution.Venue.{PaperExecutor, Pending, on_oms, change_order, publish_order}

module _ {F : Type 0} where
  -- An operation of the order manager that neither admits nor counts a fill.
  abbrev pub Still : {A : Type 0} → Action (OrderManager F) A → Type 0
  Still act =
      (m : OrderManager F)
      → ((act m).1.window ≡ m.window) × ((act m).1.fills_applied ≡ m.fills_applied)

  on_order-Still :
      {A : Type 0} (id : String) (act : Action (PaperOrder F) A) → Still (on_order id act)
  unfolding on_order
  on_order-Still id act m = elim (Option-cases (lookup id m.orders)) [
    | inl missing ↦ rw (missing, on_order) (refl, refl)
    | inr (o, e) ↦ rw (e, on_order) (refl, refl)
  ]

  count_illegal_lem :
      {A : Type 0} (r : Result A) (m : OrderManager F)
      → ((count_illegal r m).window ≡ m.window)
        × ((count_illegal r m).fills_applied ≡ m.fills_applied)
  count_illegal_lem (raised illegal_transition) m = (refl, refl)
  count_illegal_lem _ m = (refl, refl)

  pub transition-Still : (id : String) (s : OrderStatus) (now : ℕ) → Still (transition id s now)
  unfolding transition
  transition-Still id s now m =
      let (window, count) = on_order-Still id (Order.transition s now) m in
      let (window', count') = count_illegal_lem (on_order id (Order.transition s now) m).0 _ in
      (window' ∙ window, count' ∙ count)

  pub mark_unknown-Still : (id reason : String) (now : ℕ) → Still (mark_unknown id reason now)
  unfolding mark_unknown
  mark_unknown-Still id reason now = on_order-Still id _

  pub reject-Still : (id reason : String) (now : ℕ) → Still (reject id reason now)
  unfolding reject
  reject-Still id reason now = on_order-Still id _

module _ {F : Type 0} ⦃fl : Float F⦄ where
  create-Still : (n : NewOrder F) (minted : String) (now : ℕ) → Still (create n minted now)
  unfolding create
  create-Still n minted now m = elim (Bool-cases (zero_float ⋖ n.quantity)) [
    | inl positive ↦ rw positive (refl, refl)
    | inr bad ↦ rw bad (refl, refl)
  ]

  pub from_plan-Still :
      (p : PlannedOrder F) (plan_id intent_id strategy minted : String) (now : ℕ)
      → Still (from_plan p plan_id intent_id strategy minted now)
  unfolding from_plan
  from_plan-Still p plan_id intent_id strategy minted now = create-Still _ minted now

module _ {F R : Type 0} where
  -- Both know the same ids as duplicates, and count the same number of fills.
  pub record IsMirrored (x : PaperExecutor F R) : Type 0 where
    pub windows : x.oms.window ≡ x.account.window
    pub counts : x.oms.fills_applied ≡ x.account.fills_applied

  -- Unless it is an exception, an outcome leaves them so.
  abbrev pub Ends : {A : Type 0} → Result A × PaperExecutor F R → Type 0
  Ends {A} out = (a : A) → out.0 ≡ ok a → IsMirrored out.1

  abbrev pub Kept : {A : Type 0} → PaperExecutor F R → Result A × PaperExecutor F R → Type 0
  Kept {A} x out = IsMirrored x → Ends {A = A} out

  abbrev pub Keeps : {A : Type 0} → Action (PaperExecutor F R) A → Type 0
  Keeps act = (x : PaperExecutor F R) → Kept x (act x)

  pub bind-Ends :
      {A B : Type 0} (m : Action (PaperExecutor F R) A) (f : A → Action (PaperExecutor F R) B)
      (x : PaperExecutor F R)
      → Ends (m x)
      → ((a : A) → Keeps (f a))
      → Ends ((m >>= f) x)
  bind-Ends m f x first then_ b e = elim (Result-cases (m x).0) [
    | inl (a, fine) ↦
        let same = bind-ok_at m f x fine in
        subst (λ r. IsMirrored r.1) (sym same)
          (then_ a (m x).1 (first a fine) b (ap (λ r. r.0) (sym same) ∙ e))
    | inr (bad, failed) ↦
        let same = ap (λ r. r.0) (bind-raised m f (λ i. (failed i, (m x).1))) in cc
  ]

  pub bind-Keeps :
      {A B : Type 0} (m : Action (PaperExecutor F R) A) (f : A → Action (PaperExecutor F R) B)
      → Keeps m
      → ((a : A) → Keeps (f a))
      → Keeps (m >>= f)
  bind-Keeps m f first then_ x v = bind-Ends m f x (first x v) then_

  pub if_Kept :
      {A : Type 0} (b : Bool) (x : PaperExecutor F R) (p q : Result A × PaperExecutor F R)
      → Kept x p
      → Kept x q
      → Kept x (if b then p else q)
  if_Kept true x p q kp kq = kp
  if_Kept false x p q kp kq = kq

  pub if_Keeps :
      {A : Type 0} (b : Bool) (p q : Action (PaperExecutor F R) A)
      → Keeps p
      → Keeps q
      → Keeps (if b then p else q)
  if_Keeps true p q kp kq = kp
  if_Keeps false p q kp kq = kq

  pub option_Kept :
      {A P : Type 0} (o : Option P) (x : PaperExecutor F R) (p : Result A × PaperExecutor F R)
      (q : P → Result A × PaperExecutor F R)
      → Kept x p
      → ((y : P) → Kept x (q y))
      → Kept {A = A} x (elim o [ none ↦ p | some y ↦ q y ])
  option_Kept none x p q kp kq = kp
  option_Kept (some y) x p q kp kq = kq y

  pub pure-Keeps : {A : Type 0} (a : A) → Keeps (pure a)
  pure-Keeps a x v b e = v

  pub on_oms-Keeps : {A : Type 0} (act : Action (OrderManager F) A) → Still act → Keeps (on_oms act)
  on_oms-Keeps act still x v a e =
      let (window, count) = still x.oms in
      record { windows = window ∙ v.windows; counts = count ∙ v.counts }

  pub change_order-Keeps :
      (id : String) (f : PaperOrder F → PaperOrder F) → Keeps (change_order id f)
  change_order-Keeps id f x =
      option_Kept (lookup id x.oms.orders) x _ _ (λ v _ e. v)
        (λ o v _ e. record { windows = v.windows; counts = v.counts })

  pub publish_order-Keeps : (type : EventType) (id : String) → Keeps (publish_order type id)
  publish_order-Keeps type id x =
      option_Kept (lookup id x.oms.orders) x _ _ (λ v _ e. v)
        (λ o v _ e. record { windows = v.windows; counts = v.counts })
