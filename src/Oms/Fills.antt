-- ===== src/Oms/Fills.antt =====
-- `apply_fill` of execution/oms/__init__.py on a new fill, part by part, and on a repeated one.
use octopush.Prelude.{
  ℕ, ◌+◌, String, ◌≡◌, refl, sym, ap, ◌∙◌, subst, true, false, ◌&&◌, some, arith, eq_iff, inl, inr,
  Bool-cases, Option-cases, ◌<◌, ◌≢◌, if◌then◌else◌,
}
use octopush.Prelude.Dict.{lookup, insert}
use octopush.Prelude.Float.{Float, ◌⊕◌, ◌⋖◌, ◌⩽◌}
use octopush.Prelude.Action.{
  Action, Result, ok, raised, key_error, value_error, illegal_transition, bind-ok, returning,
  pure-outcome, pure-state,
}
use octopush.Order.Status.{partially_filled, filled, is_status, can_step}
use octopush.Order.Lifecycle.{transition_outcome}
use octopush.Order.Sound.{apply_fill_cases}
use octopush.Order.{FillEvent, PaperOrder, holds_fill, filled_by, moved, remaining_quantity}
use octopush.Order
use octopush.Dedupe.{seen, admit}
use octopush.Dedupe.Horizon.{seen-admit}
use octopush.Oms.Orders
use octopush.Oms.Orders.{IsValid}
use octopush.Oms.{
  OrderManager, on_order, settle, advance, target_status, accept_fill, apply_fill, qty_epsilon,
}

module _ {F : Type 0} ⦃fl : Float F⦄ where
  filled_by-status : (f : FillEvent F) (o : PaperOrder F) → (filled_by f o).status ≡ o.status
  unfolding filled_by
  filled_by-status f o = refl

  -- What becomes of an order that takes a new fill.
  abbrev pub taken : FillEvent F → ℕ → PaperOrder F → Result (Unit {0}) × PaperOrder F
  taken f now o =
      let o' = filled_by f o in
      let target = target_status o' in
      if is_status o.status filled && is_status target filled
      then (ok tt, o')
      else if can_step o.status target
      then (ok tt, moved target now o')
      else (raised illegal_transition, o')

  taken-status :
      (f : FillEvent F) (now : ℕ) (o : PaperOrder F)
      → (if is_status (filled_by f o).status filled
            && is_status (target_status (filled_by f o)) filled
          then (ok tt, filled_by f o)
          else if can_step (filled_by f o).status (target_status (filled_by f o))
          then (ok tt, moved (target_status (filled_by f o)) now (filled_by f o))
          else (raised illegal_transition, filled_by f o))
        ≡ taken f now o
  taken-status f now o = rw filled_by-status

  accept_new :
      (f : FillEvent F) (o : PaperOrder F)
      → f.client_order_id ≡ o.client_order_id
      → holds_fill f.fill_id o.fills ≡ false
      → Order.apply_fill f o ≡ (ok tt, filled_by f o)
  accept_new f o own new = apply_fill_cases f o ∙ rw ((eq_iff _ _).1 own, new) refl

  advance_cases :
      (now : ℕ) (o : PaperOrder F)
      → advance now o ≡ (
          if is_status o.status filled && is_status (target_status o) filled
          then (ok tt, o)
          else if can_step o.status (target_status o)
          then (ok tt, moved (target_status o) now o)
          else (raised illegal_transition, o))
  unfolding advance target_status is_status
  advance_cases now o = elim (Bool-cases (remaining_quantity o ⩽ qty_epsilon)) [
    | inl complete ↦ rw (complete, transition_outcome filled now o) (ground arith)
    | inr part ↦ rw (part, transition_outcome partially_filled now o) (ground arith)
  ]

  settle_new :
      (f : FillEvent F) (now : ℕ) (o : PaperOrder F)
      → f.client_order_id ≡ o.client_order_id
      → holds_fill f.fill_id o.fills ≡ false
      → settle f now o ≡ advance now (filled_by f o)
  unfolding settle
  settle_new f now o own new =
      bind-ok (Order.apply_fill f) (λ _. advance now) (accept_new f o own new)

  on_order-found :
      {A : Type 0} (id : String) (act : Action (PaperOrder F) A) (m : OrderManager F)
      (o : PaperOrder F)
      → lookup id m.orders ≡ some o
      → on_order id act m ≡ ((act o).0, record m { orders = insert id (act o).1 m.orders })
  unfolding on_order
  on_order-found id act m o e = rw (e, on_order)

  -- The manager after a fill has been taken into account, with the order as it is then.
  abbrev pub with_fill : FillEvent F → PaperOrder F → OrderManager F → OrderManager F
  with_fill f o m = record m {
    window = admit f.fill_id m.window;
    fills_applied = m.fills_applied + 1;
    orders = insert f.client_order_id o m.orders;
  }

  -- `apply_fill` on the branch of a new fill that fits, in terms of its parts.
  pub apply_fill_new :
      (f : FillEvent F) (now : ℕ) (m : OrderManager F) (o : PaperOrder F)
      → seen f.fill_id m.window ≡ false
      → lookup f.client_order_id m.orders ≡ some o
      → (remaining_quantity o ⊕ qty_epsilon ⋖ f.quantity) ≡ false
      → f.client_order_id ≡ o.client_order_id
      → holds_fill f.fill_id o.fills ≡ false
      → let (r, o') = taken f now o in apply_fill f now m ≡ (returning true r, with_fill f o' m)
  unfolding apply_fill accept_fill
  apply_fill_new f now m o new e fits own first =
      rw (new, e, apply_fill, fits)
        (pure-outcome (on_order f.client_order_id (settle f now)) true _
          ∙ ap (λ (r : Result (Unit {0}) × OrderManager F). (returning true r.0, r.1))
              (on_order-found f.client_order_id (settle f now) _ o e)
          ∙ ap (λ (r : Result (Unit {0}) × PaperOrder F). (returning true r.0, with_fill f r.1 m))
              done)
    where
      done : settle f now o ≡ taken f now o
      done = settle_new f now o own first ∙ advance_cases now (filled_by f o) ∙ taken-status f now o

  on_order-window :
      {A : Type 0} (id : String) (act : Action (PaperOrder F) A) (m : OrderManager F)
      → (on_order id act m).1.window ≡ m.window
  unfolding on_order
  on_order-window id act m = elim (Option-cases (lookup id m.orders)) [
    | inl missing ↦ rw (missing, on_order)
    | inr (o, e) ↦ rw (e, on_order)
  ]

  accept_fill-window :
      (f : FillEvent F) (now : ℕ) (m : OrderManager F)
      → (accept_fill f now m).1.window ≡ admit f.fill_id m.window
  unfolding accept_fill
  accept_fill-window f now m =
      ap (λ (u : OrderManager F). u.window)
        (pure-state (on_order f.client_order_id (settle f now)) true _)
      ∙ on_order-window f.client_order_id (settle f now) _

  apply_fill-seen :
      (f : FillEvent F) (now : ℕ) (m : OrderManager F)
      → seen f.fill_id m.window ≡ true
      → apply_fill f now m ≡ (ok false, record m { duplicate_fills = m.duplicate_fills + 1 })
  unfolding apply_fill
  apply_fill-seen f now m old = rw old

  -- Applied again at any later time, a fill is answered by False and changes nothing but the count of
  -- duplicates, provided that the first application was neither refused as stray nor as an overfill
  -- and that the window keeps at least one id.
  pub apply_fill_twice :
      (f : FillEvent F) (now later : ℕ) (m : OrderManager F)
      → IsValid m
      → 0 < m.window.retained
      → (apply_fill f now m).0 ≢ raised key_error
      → (apply_fill f now m).0 ≢ raised value_error
      → let m' = (apply_fill f now m).1 in
        apply_fill f later m' ≡ (ok false, record m' { duplicate_fills = m'.duplicate_fills + 1 })
  apply_fill_twice f now later m v room =
      Orders.apply_fill_cases
        (λ r.
          r.0 ≢ raised key_error
          → r.0 ≢ raised value_error
          → apply_fill f later r.1
            ≡ (ok false, record r.1 { duplicate_fills = r.1.duplicate_fills + 1 }))
        f now m (λ old _ _. apply_fill-seen f later _ old) (λ _ _ bad _. absurd (bad refl))
        (λ _ _ _ _ _ bad. absurd (bad refl))
        (λ o new _ _ _ _. apply_fill-seen f later _ (
          subst (λ w. seen f.fill_id w ≡ true) (sym (accept_fill-window f now m))
            (seen-admit f.fill_id m.window v.windowed new room)))
