-- ===== src/Oms/Orders.antt =====
-- Every operation of the order manager (execution/oms/__init__.py) keeps its orders sound and its
-- duplicate window in order.
use octopush.Prelude.{
  ℕ, ◌+◌, String, ◌≡◌, refl, sym, ◌∙◌, subst, Bool, true, false, not, none, some, [], All, inl, inr,
  Bool-cases, Option-cases, ◌||◌,
}
use octopush.Prelude.Dict.{lookup, insert, IsDict, insert-IsDict, All-lookup, All-insert}
use octopush.Prelude.Float.{Float, ◌⊕◌, ◌⋖◌, zero_float}
use octopush.Prelude.Action.{
  Action, Result, ok, raised, key_error, value_error, illegal_transition, modify, pure-state,
}
use octopush.Order.Status.{
  OrderStatus, partially_filled, unknown, rejected, is_status, is_terminal_status,
}
use octopush.Order.Sound.{
  IsSound, Keeps, transition-Keeps, apply_fill-Keeps, bind-Keeps, reason-IsSound,
}
use octopush.Order.{FillEvent, PaperOrder, is_terminal, remaining_quantity}
use octopush.Order
use octopush.Dedupe.{seen, admit}
use octopush.Dedupe.Horizon.{IsWindow, admit-IsWindow}
use octopush.Oms.{
  OrderManager, NewOrder, on_order, new_order, create, transition, mark_unknown, timed_out,
  resolved, resolve_unknown, reject, with_reason, unless_empty, settle, count_illegal, advance,
  target_status, accept_fill, apply_fill, qty_epsilon,
}

module _ {F : Type 0} ⦃fl : Float F⦄ where
  abbrev pub IsEntry : String × PaperOrder F → Type 0
  IsEntry (k, o) = (k ≡ o.client_order_id) × IsSound o

  -- Each order is stored once, under its own id, and is sound; the duplicate window is in order.
  pub record IsValid (m : OrderManager F) : Type 0 where
    pub keyed : IsDict m.orders
    pub sound : All IsEntry m.orders
    pub windowed : IsWindow m.window

  abbrev Preserves : {A : Type 0} → Action (OrderManager F) A → Type 0
  Preserves act = (m : OrderManager F) → IsValid m → IsValid (act m).1

  insert-IsValid :
      (m : OrderManager F) (k : String) (o : PaperOrder F)
      → IsValid m
      → k ≡ o.client_order_id
      → IsSound o
      → IsValid (record m { orders = insert k o m.orders })
  insert-IsValid m k o v e s = record {
    keyed = insert-IsDict k o m.orders v.keyed;
    sound = All-insert IsEntry k o m.orders v.sound (e, s);
    windowed = v.windowed;
  }

  on_order-Preserves :
      {A : Type 0} (id : String) (act : Action (PaperOrder F) A)
      → Keeps act
      → Preserves (on_order id act)
  unfolding on_order
  on_order-Preserves id act h m v = elim (Option-cases (lookup id m.orders)) [
    | inl missing ↦ rw (missing, on_order) v
    | inr (o, e) ↦
        let (own, s) = All-lookup IsEntry id m.orders v.sound e in
        let (s', same) = h o s in
        rw (e, on_order) (insert-IsValid m id (act o).1 v (own ∙ sym same) s')
  ]

  count_illegal-IsValid :
      {A : Type 0} (r : Result A) (m : OrderManager F) → IsValid m → IsValid (count_illegal r m)
  count_illegal-IsValid (raised illegal_transition) m v = record {
    keyed = v.keyed;
    sound = v.sound;
    windowed = v.windowed;
  }
  count_illegal-IsValid _ m v = v

  pub transition-IsValid :
      (id : String) (s : OrderStatus) (now : ℕ) → Preserves (transition id s now)
  unfolding transition
  transition-IsValid id s now m v =
      count_illegal-IsValid _ _
        (on_order-Preserves id (Order.transition s now) (transition-Keeps s now) m v)

  reason-Keeps : (reason : String) → Keeps {F = F} (modify (with_reason reason))
  reason-Keeps reason o v = (reason-IsSound o (some reason) v, refl)

  timed_out-Keeps : (reason : String) (now : ℕ) → Keeps {F = F} (timed_out reason now)
  unfolding timed_out
  timed_out-Keeps reason now o v = elim (Bool-cases (is_terminal o)) [
    | inl done ↦ rw done (v, refl)
    | inr live ↦ rw live (
        bind-Keeps (Order.transition unknown now)
          (modify (with_reason (unless_empty reason "operation timed out")))
          (transition-Keeps unknown now) (reason-Keeps _) o v)
  ]

  pub mark_unknown-IsValid : (id reason : String) (now : ℕ) → Preserves (mark_unknown id reason now)
  unfolding mark_unknown
  mark_unknown-IsValid id reason now m v =
      on_order-Preserves id (timed_out reason now) (timed_out-Keeps reason now) m v

  resolved-Keeps : (s : OrderStatus) (now : ℕ) → Keeps {F = F} (resolved s now)
  unfolding resolved
  resolved-Keeps s now o v = elim (Bool-cases (is_status o.status unknown)) [
    | inl open_question ↦ rw open_question (transition-Keeps s now o v)
    | inr settled ↦ rw settled (v, refl)
  ]

  pub resolve_unknown-IsValid :
      (id : String) (s : OrderStatus) (now : ℕ) → Preserves (resolve_unknown id s now)
  unfolding resolve_unknown
  resolve_unknown-IsValid id s now m v =
      on_order-Preserves id (resolved s now) (resolved-Keeps s now) m v

  pub reject-IsValid : (id reason : String) (now : ℕ) → Preserves (reject id reason now)
  unfolding reject
  reject-IsValid id reason now m v =
      on_order-Preserves id _
        (bind-Keeps (modify (with_reason reason)) (Order.transition rejected now)
          (reason-Keeps reason) (transition-Keeps rejected now))
        m v

  new_order-IsSound :
      (n : NewOrder F) (minted : String) (now : ℕ) → IsSound (new_order n minted now)
  unfolding new_order is_terminal_status
  new_order-IsSound n minted now = record {
    tracked = record { opened_at = now; steps = []; recorded = refl; legal = refl; stamped = refl };
    totalled = record { quantities = refl; fees = refl; average = refl; own = tt; distinct = tt };
  }

  new_order-stored :
      (n : NewOrder F) (minted : String) (now : ℕ) (m : OrderManager F)
      → IsValid m
      → let o = new_order n minted now in
        IsValid (record m {
          orders = insert o.client_order_id o m.orders;
          orders_created = m.orders_created + 1;
        })
  new_order-stored n minted now m v =
      let o = new_order n minted now in
      let w = insert-IsValid m o.client_order_id o v refl (new_order-IsSound n minted now) in
      record { keyed = w.keyed; sound = w.sound; windowed = w.windowed }

  pub create-IsValid :
      (n : NewOrder F) (minted : String) (now : ℕ) → Preserves (create n minted now)
  unfolding create
  create-IsValid n minted now m v = elim (Bool-cases (zero_float ⋖ n.quantity)) [
    | inl positive ↦ rw positive (new_order-stored n minted now m v)
    | inr bad ↦ rw bad v
  ]

  advance-Keeps : (now : ℕ) → Keeps {F = F} (advance now)
  unfolding advance
  advance-Keeps now o v =
      elim (Bool-cases (
        not (is_status o.status (target_status o))
        || is_status (target_status o) partially_filled)) [
          | inl move ↦ rw move (transition-Keeps (target_status o) now o v)
          | inr stay ↦ rw stay (v, refl)
        ]

  settle-Keeps : (f : FillEvent F) (now : ℕ) → Keeps {F = F} (settle f now)
  unfolding settle
  settle-Keeps f now =
      bind-Keeps (Order.apply_fill f) (advance now) (apply_fill-Keeps f) (advance-Keeps now)

  accept_fill-IsValid :
      (f : FillEvent F) (now : ℕ) (m : OrderManager F)
      → IsValid m
      → seen f.fill_id m.window ≡ false
      → IsValid (accept_fill f now m).1
  unfolding accept_fill
  accept_fill-IsValid f now m v new =
      subst IsValid (sym (pure-state (on_order f.client_order_id (settle f now)) true recorded)) (
        on_order-Preserves f.client_order_id (settle f now) (settle-Keeps f now) recorded (record {
          keyed = v.keyed;
          sound = v.sound;
          windowed = (admit-IsWindow f.fill_id m.window v.windowed new).0;
        }))
    where
      recorded : OrderManager F
      recorded = record m { window = admit f.fill_id m.window; fills_applied = m.fills_applied + 1 }

  -- `apply_fill` on each of its branches, for a property of the outcome.
  pub apply_fill_cases :
      (P : Result Bool × OrderManager F → Type 0) (f : FillEvent F) (now : ℕ) (m : OrderManager F)
      → (seen f.fill_id m.window ≡ true
          → P (ok false, record m { duplicate_fills = m.duplicate_fills + 1 }))
      → (seen f.fill_id m.window ≡ false
          → lookup f.client_order_id m.orders ≡ none
          → P (raised key_error, m))
      → ((o : PaperOrder F)
          → seen f.fill_id m.window ≡ false
          → lookup f.client_order_id m.orders ≡ some o
          → (remaining_quantity o ⊕ qty_epsilon ⋖ f.quantity) ≡ true
          → P (raised value_error, m))
      → ((o : PaperOrder F)
          → seen f.fill_id m.window ≡ false
          → lookup f.client_order_id m.orders ≡ some o
          → (remaining_quantity o ⊕ qty_epsilon ⋖ f.quantity) ≡ false
          → P (accept_fill f now m))
      → P (apply_fill f now m)
  unfolding apply_fill
  apply_fill_cases P f now m repeated stray over accepted =
      elim (Bool-cases (seen f.fill_id m.window)) [
        | inl old ↦ rw old (repeated old)
        | inr new ↦ elim (Option-cases (lookup f.client_order_id m.orders)) [
          | inl missing ↦ rw (new, missing, apply_fill) (stray new missing)
          | inr (o, e) ↦ elim (Bool-cases (remaining_quantity o ⊕ qty_epsilon ⋖ f.quantity)) [
            | inl big ↦ rw (new, e, apply_fill, big) (over o new e big)
            | inr fits ↦ rw (new, e, apply_fill, fits) (accepted o new e fits)
          ]
        ]
      ]

  pub apply_fill-IsValid : (f : FillEvent F) (now : ℕ) → Preserves (apply_fill f now)
  apply_fill-IsValid f now m v =
      apply_fill_cases (λ r. IsValid r.1) f now m
        (λ _. record { keyed = v.keyed; sound = v.sound; windowed = v.windowed }) (λ _ _. v)
        (λ _ _ _ _. v) (λ o new _ _. accept_fill-IsValid f now m v new)
