-- ===== src/Oms/Taking.antt =====
-- What `apply_fill` of execution/oms/__init__.py comes to for a fill that it records, told without its
-- parts.
use octopush.Prelude.{
  ℕ, ◌+◌, ◌<◌, String, ◌≡◌, refl, sym, ◌∙◌, subst, Bool, true, false, ◌&&◌, some, List, [], ◌∷◌,
  ◌++◌, str_eq, inl, inr, Bool-cases, arith, if◌then◌else◌,
}
use octopush.Prelude.Dict.{lookup, lookup-insert, All-lookup}
use octopush.Prelude.Float.{Float, ◌⊕◌, ◌⊖◌, ◌⋖◌, ◌⩽◌, zero_float, max_float}
use octopush.Prelude.Action.{Result, ok, raised, illegal_transition, returning}
use octopush.Order.Status.{
  OrderStatus, created, acknowledged, open_order, partially_filled, filled, cancel_pending, unknown,
  is_status, among, is_terminal_status, can_step,
}
use octopush.Order.Totals.{IsTotalled, filled_by-IsTotalled}
use octopush.Order.{FillEvent, PaperOrder, holds_fill, filled_by, moved, remaining_quantity}
use octopush.Dedupe.{seen}
use octopush.Dedupe.Horizon.{seen-admit}
use octopush.Oms.Orders.{IsValid, IsEntry}
use octopush.Oms.Fills.{taken, apply_fill_new}
use octopush.Oms.{OrderManager, apply_fill, target_status}

-- The statuses of an order that may trade.
abbrev pub trading : List OrderStatus
trading = acknowledged ∷ open_order ∷ partially_filled ∷ cancel_pending ∷ unknown ∷ []

-- An order is as before in its status, history and time of termination.
abbrev Stays : {F : Type 0} → PaperOrder F → PaperOrder F → Type 0
Stays o o' = (o'.status ≡ o.status) × (o'.history ≡ o.history) × (o'.terminal_at ≡ o.terminal_at)

-- How a fill ends for an order, where `complete` says that it leaves nothing to be filled.
pub data Ending {F : Type 0} (o : PaperOrder F) (now : ℕ) (complete : Bool) (r : Result Bool)
    (o' : PaperOrder F) : Type 0 where
  completed :
      among trading o.status ≡ true
      → complete ≡ true
      → r ≡ ok true
      → (o'.status ≡ filled)
        × (o'.history ≡ o.history ++ (now, filled) ∷ [])
        × (o'.terminal_at ≡ some now)
      → Ending o now complete r o'
  worked :
      among trading o.status ≡ true
      → complete ≡ false
      → r ≡ ok true
      → (o'.status ≡ partially_filled)
        × (o'.history ≡ o.history ++ (now, partially_filled) ∷ [])
        × (o'.terminal_at ≡ o.terminal_at)
      → Ending o now complete r o'
  stayed :
      o.status ≡ filled → complete ≡ true → r ≡ ok true → Stays o o' → Ending o now complete r o'
  refused :
      among trading o.status ≡ false
      → (is_status o.status filled && complete) ≡ false
      → r ≡ raised illegal_transition
      → Stays o o'
      → Ending o now complete r o'

can_step-filled : (s : OrderStatus) → can_step s filled ≡ among trading s
unfolding can_step among is_status
can_step-filled created = refl
can_step-filled _ = refl

can_step-partially_filled : (s : OrderStatus) → can_step s partially_filled ≡ among trading s
unfolding can_step among is_status
can_step-partially_filled created = refl
can_step-partially_filled _ = refl

is_status_eq : (s : OrderStatus) → is_status s filled ≡ true → s ≡ filled
unfolding is_status
is_status_eq filled h = refl
is_status_eq _ h = cc

filled_not_trading : (s : OrderStatus) → among trading s ≡ true → is_status s filled ≡ false
unfolding among is_status
filled_not_trading filled h = cc
filled_not_trading _ h = refl

module _ {F : Type 0} ⦃fl : Float F⦄ where
  abbrev Ends : PaperOrder F → ℕ → Bool → Result (Unit {0}) × PaperOrder F → Type 0
  Ends o now complete (r, o') = Ending o now complete (returning true r) o'

  -- `taken`, with its tests as arguments.
  abbrev chosen :
      FillEvent F → ℕ → PaperOrder F → OrderStatus → Bool → Bool → Result (Unit {0}) × PaperOrder F
  chosen f now o t stays steps =
      if stays
      then (ok tt, filled_by f o)
      else if steps
      then (ok tt, moved t now (filled_by f o))
      else (raised illegal_transition, filled_by f o)

  taken_at :
      (f : FillEvent F) (now : ℕ) (o : PaperOrder F) (t : OrderStatus) (steps stays : Bool)
      → target_status (filled_by f o) ≡ t
      → can_step o.status t ≡ steps
      → (is_status o.status filled && is_status t filled) ≡ stays
      → taken f now o ≡ chosen f now o t stays steps
  taken_at f now o t steps stays e h k = rw (e, h, k, taken) refl

  -- Nothing is left to be filled: the target is FILLED.
  taken_complete :
      (f : FillEvent F) (now : ℕ) (o : PaperOrder F)
      → target_status (filled_by f o) ≡ filled
      → Ends o now true (taken f now o)
  unfolding filled_by moved is_terminal_status among is_status
  taken_complete f now o e = elim (Bool-cases (among trading o.status)) [
    | inl live ↦
        subst (Ends o now true)
          (sym (
            taken_at f now o filled true false e (can_step-filled o.status ∙ live)
              (rw (filled_not_trading o.status live) refl)))
          (completed live refl refl (refl, refl, refl))
    | inr ended ↦ elim (Bool-cases (is_status o.status filled)) [
      | inl full ↦
          subst (Ends o now true)
            (sym (
              taken_at f now o filled false true e (can_step-filled o.status ∙ ended)
                (rw full refl)))
            (stayed (is_status_eq o.status full) refl refl (refl, refl, refl))
      | inr open_one ↦
          subst (Ends o now true)
            (sym (
              taken_at f now o filled false false e (can_step-filled o.status ∙ ended)
                (rw open_one refl)))
            (refused ended (rw open_one refl) refl (refl, refl, refl))
    ]
  ]

  -- Something is left: the target is PARTIALLY_FILLED.
  taken_partial :
      (f : FillEvent F) (now : ℕ) (o : PaperOrder F)
      → target_status (filled_by f o) ≡ partially_filled
      → Ends o now false (taken f now o)
  unfolding filled_by moved is_terminal_status among is_status
  taken_partial f now o e = elim (Bool-cases (among trading o.status)) [
    | inl live ↦
        subst (Ends o now false)
          (sym (
            taken_at f now o partially_filled true false e
              (can_step-partially_filled o.status ∙ live) no_stay))
          (worked live refl refl (refl, refl, refl))
    | inr ended ↦
        subst (Ends o now false)
          (sym (
            taken_at f now o partially_filled false false e
              (can_step-partially_filled o.status ∙ ended) no_stay))
          (refused ended (ground arith) refl (refl, refl, refl))
  ]
    where
      no_stay : (is_status o.status filled && is_status partially_filled filled) ≡ false
      no_stay = ground arith

  -- Nothing but a quantity below the tolerance is left of an order.
  abbrev pub is_complete : PaperOrder F → Bool
  is_complete o = max_float zero_float (o.quantity ⊖ o.filled_quantity) ⩽ fl.decimal 1 9

  target_status_of :
      (o : PaperOrder F) (b : Bool)
      → is_complete o ≡ b
      → target_status o ≡ (if b then filled else partially_filled)
  unfolding target_status remaining_quantity
  target_status_of o b e = rw e refl

  taken-Ends :
      (f : FillEvent F) (now : ℕ) (o : PaperOrder F)
      → Ends o now (is_complete (filled_by f o)) (taken f now o)
  taken-Ends f now o = elim (Bool-cases (is_complete (filled_by f o))) [
    | inl done ↦
        subst (λ b. Ends o now b (taken f now o)) (sym done)
          (taken_complete f now o (target_status_of (filled_by f o) true done))
    | inr left ↦
        subst (λ b. Ends o now b (taken f now o)) (sym left)
          (taken_partial f now o (target_status_of (filled_by f o) false left))
  ]

  -- An order has one more fill, its totals are those of its fills, and nothing of it changes but these
  -- totals and its course.
  abbrev Grown : FillEvent F → PaperOrder F → PaperOrder F → Type 0
  Grown f o p =
      (p.fills ≡ o.fills ++ f ∷ [])
      × (p ≡ record o {
        fills = p.fills;
        filled_quantity = p.filled_quantity;
        fees_paid = p.fees_paid;
        average_price = p.average_price;
        status = p.status;
        history = p.history;
        terminal_at = p.terminal_at;
      })
      × IsTotalled p

  chosen-Grown :
      (f : FillEvent F) (now : ℕ) (o : PaperOrder F) (t : OrderStatus) (stays steps : Bool)
      → IsTotalled (filled_by f o)
      → Grown f o (chosen f now o t stays steps).1
        × (is_complete (chosen f now o t stays steps).1 ≡ is_complete (filled_by f o))
  unfolding filled_by moved
  chosen-Grown f now o t true steps v = ((refl, refl, v), refl)
  chosen-Grown f now o t false true v = (
    (
      refl,
      refl,
      record {
        quantities = v.quantities;
        fees = v.fees;
        average = v.average;
        own = v.own;
        distinct = v.distinct;
      },
    ),
    refl,
  )
  chosen-Grown f now o t false false v = ((refl, refl, v), refl)

  -- What has become of a manager that recorded a fill for an order.
  pub record IsTaken (f : FillEvent F) (now : ℕ) (m : OrderManager F) (o : PaperOrder F)
      (out : Result Bool × OrderManager F) : Type 0 where
    pub order : PaperOrder F
    pub stored :
        (k : String)
        → lookup k out.1.orders
          ≡ (if str_eq f.client_order_id k then some order else lookup k m.orders)
    pub grown : Grown f o order
    pub ending : Ending o now (is_complete order) out.0 order
    pub remembered : seen f.fill_id out.1.window ≡ true
    pub counted : out.1.fills_applied ≡ m.fills_applied + 1
    pub rest : out.1 ≡ record m {
      orders = out.1.orders;
      window = out.1.window;
      fills_applied = out.1.fills_applied;
    }

  -- A fill is new to a manager that is in order and remembers fills, fits into what is left of its
  -- order, and is not among the order's fills. Then it is appended to the order's fills, and quantity,
  -- fees and average price are what these give when they are added up. An order that may trade becomes
  -- FILLED when nothing beyond the tolerance is left, else PARTIALLY_FILLED, with an entry in its
  -- history; a FILLED order that is still complete stays as it is; in every other status
  -- IllegalTransition is raised, and status and history stay, though the fill has been taken. The fill
  -- counts, is known as a duplicate from then on, and no other order changes.
  pub apply_fill-IsTaken :
      (f : FillEvent F) (now : ℕ) (m : OrderManager F) (o : PaperOrder F)
      → IsValid m
      → 0 < m.window.retained
      → seen f.fill_id m.window ≡ false
      → lookup f.client_order_id m.orders ≡ some o
      → (max_float zero_float (o.quantity ⊖ o.filled_quantity) ⊕ fl.decimal 1 9 ⋖ f.quantity)
        ≡ false
      → holds_fill f.fill_id o.fills ≡ false
      → IsTaken f now m o (apply_fill f now m)
  unfolding remaining_quantity
  apply_fill-IsTaken f now m o v room new e fits first =
      let (own, sound) = All-lookup IsEntry f.client_order_id m.orders v.sound e in
      let (r, p) = taken f now o in
      let (grown, same) =
        chosen-Grown f now o (target_status (filled_by f o))
          (is_status o.status filled && is_status (target_status (filled_by f o)) filled)
          (can_step o.status (target_status (filled_by f o)))
          (filled_by-IsTotalled f o sound.totalled own first) in
      subst (IsTaken f now m o) (sym (apply_fill_new f now m o new e fits own first)) (record {
        order = p;
        stored = λ k. lookup-insert f.client_order_id k p m.orders;
        grown = grown;
        ending = subst (λ b. Ends o now b (taken f now o)) (sym same) (taken-Ends f now o);
        remembered = seen-admit f.fill_id m.window v.windowed new room;
        counted = refl;
        rest = refl;
      })
