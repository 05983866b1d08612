-- ===== src/Order/Sound.antt =====
-- Sound orders (core/models/execution.py): the lifecycle and the totals together, under every
-- action on an order.
use octopush.Prelude.{
  ℕ, String, ◌≡◌, refl, ◌∙◌, true, false, Option, inl, inr, Bool-cases, arith, str_eq, eq_iff,
  if◌then◌else◌,
}
use octopush.Prelude.Float.{Float}
use octopush.Prelude.Action.{Action, Result, ok, raised, value_error, ◌>>◌}
use octopush.Order.Status.{OrderStatus, can_step}
use octopush.Order.Lifecycle.{IsTracked, transition_outcome, moved-IsTracked}
use octopush.Order.Totals.{IsTotalled, filled_by-IsTotalled}
use octopush.Order.{FillEvent, PaperOrder, holds_fill, moved, transition, filled_by, apply_fill}

module _ {F : Type 0} ⦃fl : Float F⦄ where
  -- The history of a sound order is a way through the transition table that ends in its status, and
  -- its totals are those of its fills.
  pub record IsSound (o : PaperOrder F) : Type 0 where
    pub tracked : IsTracked o
    pub totalled : IsTotalled o

  -- An action on an order keeps it sound and does not change its id, however it ends.
  abbrev pub Keeps : {A : Type 0} → Action (PaperOrder F) A → Type 0
  Keeps act =
      (o : PaperOrder F)
      → IsSound o
      → IsSound (act o).1 × ((act o).1.client_order_id ≡ o.client_order_id)

  moved-IsSound :
      (s : OrderStatus) (now : ℕ) (o : PaperOrder F)
      → IsSound o
      → can_step o.status s ≡ true
      → IsSound (moved s now o) × ((moved s now o).client_order_id ≡ o.client_order_id)
  unfolding moved
  moved-IsSound s now o v h = (
    record {
      tracked = moved-IsTracked s now o v.tracked h;
      totalled = record {
        quantities = v.totalled.quantities;
        fees = v.totalled.fees;
        average = v.totalled.average;
        own = v.totalled.own;
        distinct = v.totalled.distinct;
      };
    },
    refl,
  )

  pub transition-Keeps : (s : OrderStatus) (now : ℕ) → Keeps (transition s now)
  transition-Keeps s now o v = elim (Bool-cases (can_step o.status s)) [
    | inl h ↦ rw (transition_outcome s now o, h) (moved-IsSound s now o v h)
    | inr h ↦ rw (transition_outcome s now o, h) (v, refl)
  ]

  pub apply_fill_cases :
      (f : FillEvent F) (o : PaperOrder F)
      → apply_fill f o ≡ (
          if str_eq f.client_order_id o.client_order_id
          then (ok tt, if holds_fill f.fill_id o.fills then o else filled_by f o)
          else (raised value_error, o))
  unfolding apply_fill
  apply_fill_cases f o = ground arith

  filled_by-IsSound :
      (f : FillEvent F) (o : PaperOrder F)
      → IsSound o
      → f.client_order_id ≡ o.client_order_id
      → holds_fill f.fill_id o.fills ≡ false
      → IsSound (filled_by f o) × ((filled_by f o).client_order_id ≡ o.client_order_id)
  unfolding filled_by
  filled_by-IsSound f o v own new = (
    record {
      tracked = record {
        opened_at = v.tracked.opened_at;
        steps = v.tracked.steps;
        recorded = v.tracked.recorded;
        legal = v.tracked.legal;
        stamped = v.tracked.stamped;
      };
      totalled = filled_by-IsTotalled f o v.totalled own new;
    },
    refl,
  )

  pub apply_fill-Keeps : (f : FillEvent F) → Keeps (apply_fill f)
  apply_fill-Keeps f o v = elim (Bool-cases (str_eq f.client_order_id o.client_order_id)) [
    | inl own ↦ elim (Bool-cases (holds_fill f.fill_id o.fills)) [
      | inl old ↦ rw (apply_fill_cases f o, own, old) (v, refl)
      | inr new ↦
          rw (apply_fill_cases f o, own, new) (filled_by-IsSound f o v ((eq_iff _ _).0 own) new)
    ]
    | inr other ↦ rw (apply_fill_cases f o, other) (v, refl)
  ]

  after-Keeps :
      {A B : Type 0} (r : Result A) (k : Action (PaperOrder F) B) (o o' : PaperOrder F)
      → Keeps k
      → IsSound o' × (o'.client_order_id ≡ o.client_order_id)
      → let (_, o'') = ((λ _. (r, o')) >> k) o in
        IsSound o'' × (o''.client_order_id ≡ o.client_order_id)
  after-Keeps (ok a) k o o' hk v = let (s, e) = hk o' v.0 in (s, e ∙ v.1)
  after-Keeps (raised e) k o o' hk v = v

  pub bind-Keeps :
      {A B : Type 0} (m : Action (PaperOrder F) A) (k : Action (PaperOrder F) B)
      → Keeps m
      → Keeps k
      → Keeps (m >> k)
  bind-Keeps m k hm hk o v = after-Keeps (m o).0 k o (m o).1 hk (hm o v)

  -- The text of a reason plays no part in soundness.
  pub reason-IsSound :
      (o : PaperOrder F) (reason : Option String)
      → IsSound o
      → IsSound (record o { reject_reason = reason })
  reason-IsSound o reason v = record {
    tracked = record {
      opened_at = v.tracked.opened_at;
      steps = v.tracked.steps;
      recorded = v.tracked.recorded;
      legal = v.tracked.legal;
      stamped = v.tracked.stamped;
    };
    totalled = record {
      quantities = v.totalled.quantities;
      fees = v.totalled.fees;
      average = v.totalled.average;
      own = v.totalled.own;
      distinct = v.totalled.distinct;
    };
  }
