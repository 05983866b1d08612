-- ===== src/Marin/Agreement.antt =====
-- What a run of `reconcile` in agents/marin/agent.py that finds nothing critical has established.
use octopush.Prelude.{
  ℕ, String, ◌≡◌, refl, sym, ap, ◌∙◌, subst, Bool, true, false, not, ◌&&◌, ◌||◌, List, [], ◌∷◌,
  ◌++◌, map, filterb, contains, str_eq, eq_iff, eq_refl, arith, inl, inr, Bool-cases, All,
}
use octopush.Prelude.Dict.{Dict, has}
use octopush.Prelude.Float.{Float, ◌⋖◌}
use octopush.Order.Status.{filled, is_status}
use octopush.Order.{FillEvent, PaperOrder, remaining_quantity}
use octopush.Position.{PositionState}
use octopush.Oms.{OrderManager, unknown_orders}
use octopush.Prelude.Action.{ok, Result-cases, ok_injective}
use octopush.Account.{PaperAccount, Ledger, recompute_from_fills}
use octopush.Marin.{
  warning, critical, MismatchKind, Mismatch, any_critical, unfigured, missing_fill, unknown_fill,
  order_state_mismatch, sorted, insort, either_keys, by_id, apart_from, oms_fills, cash_tolerance,
  qty_tolerance, differs, figures, fill_checks, cash_checks, quantity_at, position_checks,
  count_checks, fee_checks, outstanding, order_checks, unknown_checks, checks, result_at, Marin,
  ReconciliationResult, reconcile,
}

contains-insort :
    (k j : String) (ks : List String) → contains k (insort j ks) ≡ (str_eq j k || contains k ks)
contains-insort k j [] = refl
contains-insort k j (i ∷ ks) = ground (arith, contains-insort k j ks)

contains-sorted : (k : String) (ks : List String) → contains k (sorted ks) ≡ contains k ks
unfolding sorted
contains-sorted k [] = refl
contains-sorted k (j ∷ ks) =
    contains-insort k j (sorted ks) ∙ ap (λ b. str_eq j k || b) (contains-sorted k ks)

contains-append :
    (k : String) (xs ys : List String) → contains k (xs ++ ys) ≡ (contains k xs || contains k ys)
contains-append k [] ys = refl
contains-append k (x ∷ xs) ys = ground (arith, contains-append k xs ys)

contains-keys : {V : Type 0} (k : String) (d : Dict V) → contains k (map (λ x. x.0) d) ≡ has k d
contains-keys k [] = refl
contains-keys k ((j, v) ∷ d) = ground (arith, contains-keys k d)

contains-new_keys :
    {V W : Type 0} (k : String) (d : Dict V) (e : Dict W)
    → contains k (map (λ x. x.0) (filterb (λ x. not (has x.0 d)) e)) ≡ (not (has k d) && has k e)
contains-new_keys k d [] = ground arith
contains-new_keys k d ((j, w) ∷ e) = elim (Bool-cases (str_eq j k)) [
  | inl same ↦
      ground (arith, contains-new_keys k d e, eq_iff j k, ap (λ i. has i d) ((eq_iff j k).0 same))
  | inr other ↦ ground (arith, contains-new_keys k d e)
]

contains-either_keys :
    {V W : Type 0} (k : String) (d : Dict V) (e : Dict W)
    → contains k (sorted (either_keys d e)) ≡ (has k d || has k e)
unfolding either_keys
contains-either_keys k d e =
    contains-sorted k _
    ∙ contains-append k (map (λ x. x.0) d) _
    ∙ rw (contains-keys k d, contains-new_keys k d e) (ground arith)

-- No key of `d` is outside of `e`.
apart_from-nil :
    {V W : Type 0} (d : Dict V) (e : Dict W) (k : String)
    → apart_from e d ≡ []
    → has k d ≡ true
    → has k e ≡ true
apart_from-nil [] e k none_apart h = cc
apart_from-nil ((j, v) ∷ d) e k none_apart h = elim (Bool-cases (has j e)) [
  | inr apart ↦ let bad = rw apart at none_apart in cc
  | inl within ↦ elim (Bool-cases (str_eq j k)) [
    | inl same ↦ sym (ap (λ i. has i e) ((eq_iff j k).0 same)) ∙ within
    | inr other ↦ apart_from-nil d e k (rw within at none_apart) (rw (other, has) at h)
  ]
]

nil-apart_from :
    {V W : Type 0} (d : Dict V) (e : Dict W)
    → ((k : String) → has k d ≡ true → has k e ≡ true)
    → apart_from e d ≡ []
nil-apart_from [] e within = refl
nil-apart_from ((j, v) ∷ d) e within = rw (within j (rw (eq_refl j, has) refl)) (
    nil-apart_from d e (λ k h. within k (elim (Bool-cases (str_eq j k)) [
      | inl same ↦ rw (same, has) refl
      | inr other ↦ rw (other, has) h
    ])))

any_critical-unfigured :
    {V : Type 0} (F : Type 0) (kind : MismatchKind) (d : Dict V)
    → any_critical {F = F} (map (λ x. unfigured kind x.0) d) ≡ false
    → d ≡ []
unfolding any_critical
any_critical-unfigured F kind [] h = refl
any_critical-unfigured F kind (x ∷ d) h = cc

equal_truths : (b c : Bool) → (b ≡ true → c ≡ true) → (c ≡ true → b ≡ true) → b ≡ c
equal_truths true c f g = sym (f refl)
equal_truths false true f g = g refl
equal_truths false false f g = refl

quiet-count_checks :
    (F : Type 0) ⦃fl : Float F⦄ (m n : ℕ) → any_critical {F = F} (count_checks m n) ≡ false → m ≡ n
unfolding count_checks any_critical
quiet-count_checks F m n h = ground arith

module _ {F : Type 0} where
  any_critical-append :
      (xs ys : List (Mismatch F)) → any_critical (xs ++ ys) ≡ (any_critical xs || any_critical ys)
  unfolding any_critical
  any_critical-append [] ys = refl
  any_critical-append (x ∷ xs) ys = ground (arith, any_critical-append xs ys)

module _ {F : Type 0} ⦃fl : Float F⦄ where
  -- The checks of fills find nothing exactly when both sides hold fills of the same ids.
  quiet-fill_checks :
      (d e : Dict (FillEvent F))
      → any_critical (fill_checks d e) ≡ false
      → (k : String) → has k d ≡ has k e
  unfolding fill_checks
  quiet-fill_checks d e h k =
      let both =
        sym (
          any_critical-append (map (λ x. unfigured missing_fill x.0) (apart_from e d))
            (map (λ x. unfigured unknown_fill x.0) (apart_from d e)))
        ∙ h in
      let left =
        apart_from-nil d e k
          (any_critical-unfigured F missing_fill (apart_from e d) (ground (arith, both))) in
      let right =
        apart_from-nil e d k
          (any_critical-unfigured F unknown_fill (apart_from d e) (ground (arith, both))) in
      equal_truths (has k d) (has k e) left right

  quiet-figures :
      (kind : MismatchKind) (tolerance : F) (key : String) (expected actual : F)
      → any_critical (figures kind critical tolerance key expected actual)
        ≡ differs tolerance expected actual
  unfolding any_critical
  quiet-figures kind tolerance key expected actual = ground arith

  quiet-cash_checks :
      (l : Ledger F) (a : PaperAccount F)
      → any_critical (cash_checks l a)
        ≡ (differs cash_tolerance l.cash a.cash || differs cash_tolerance l.realized a.realized_pnl)
  unfolding cash_checks
  quiet-cash_checks l a =
      any_critical-append (figures _ critical cash_tolerance "cash" l.cash a.cash) _
      ∙ rw (quiet-figures, quiet-figures) refl

  -- No critical mismatch among positions: each key listed agrees.
  abbrev Agree : Dict (PositionState F) → Dict (PositionState F) → String → Type 0
  Agree ps qs k = differs qty_tolerance (quantity_at k ps) (quantity_at k qs) ≡ false

  quiet-position_checks :
      (keys : List String) (ps qs : Dict (PositionState F)) (k : String)
      → any_critical (position_checks keys ps qs) ≡ false
      → contains k keys ≡ true
      → Agree ps qs k
  unfolding position_checks
  quiet-position_checks [] ps qs k h m = cc
  quiet-position_checks (j ∷ keys) ps qs k h m = elim (Bool-cases (str_eq j k)) [
    | inl same ↦ subst (Agree ps qs) ((eq_iff j k).0 same) (ground (arith, both))
    | inr other ↦ quiet-position_checks keys ps qs k (ground (arith, both)) (rw other at m)
  ]
    where
      both :
          (differs qty_tolerance (quantity_at j ps) (quantity_at j qs)
            || any_critical (position_checks keys ps qs))
          ≡ false
      both =
          ap (λ b. b || any_critical (position_checks keys ps qs))
            (sym (quiet-figures _ qty_tolerance j (quantity_at j ps) (quantity_at j qs)))
          ∙ sym (any_critical-append (figures _ critical qty_tolerance j _ _) _)
          ∙ h

  -- What the order manager's own figures say of an order.
  abbrev pub IsBooked : PaperOrder F → Type 0
  IsBooked o =
      (differs qty_tolerance (fl.sum (map (λ f. f.quantity) o.fills)) o.filled_quantity ≡ false)
      × ((is_status o.status filled && (qty_tolerance ⋖ remaining_quantity o)) ≡ false)

  quiet-outstanding :
      (o : PaperOrder F)
      → any_critical (outstanding o)
        ≡ (is_status o.status filled && (qty_tolerance ⋖ remaining_quantity o))
  unfolding any_critical
  quiet-outstanding o = ground arith

  quiet-order_checks :
      (orders : Dict (PaperOrder F))
      → any_critical (order_checks orders) ≡ false
      → All (λ e. IsBooked e.1) orders
  unfolding order_checks
  quiet-order_checks [] h = tt
  quiet-order_checks ((k, o) ∷ orders) h = (
    (ground (arith, parts), ground (arith, parts)),
    quiet-order_checks orders (ground (arith, parts)),
  )
    where
      first : List (Mismatch F)
      first =
          figures order_state_mismatch critical qty_tolerance o.client_order_id
            (fl.sum (map (λ f. f.quantity) o.fills)) o.filled_quantity

      parts :
          (differs qty_tolerance (fl.sum (map (λ f. f.quantity) o.fills)) o.filled_quantity
            || (is_status o.status filled && (qty_tolerance ⋖ remaining_quantity o))
            || any_critical (order_checks orders))
          ≡ false
      parts =
          rw⁻¹
            (
              quiet-figures order_state_mismatch qty_tolerance o.client_order_id
                  (fl.sum (map (λ f. f.quantity) o.fills)) o.filled_quantity,
              quiet-outstanding o,
            )
            (ap (λ b. b || any_critical (order_checks orders))
                (sym (any_critical-append first (outstanding o)))
              ∙ sym (any_critical-append (first ++ outstanding o) (order_checks orders))
              ∙ h)

  quiet-fee_checks :
      (d : Dict (FillEvent F)) (a : PaperAccount F) → any_critical (fee_checks d a) ≡ false
  unfolding fee_checks any_critical
  quiet-fee_checks d a = ground arith

  quiet-warnings :
      (os : List (PaperOrder F)) (f : PaperOrder F → Mismatch F)
      → ((o : PaperOrder F) → (f o).severity ≡ warning)
      → any_critical (map f os) ≡ false
  unfolding any_critical
  quiet-warnings [] f w = refl
  quiet-warnings (o ∷ os) f w = rw (w o) (quiet-warnings os f w)

  quiet-unknown_checks : (o : OrderManager F) → any_critical (unknown_checks o) ≡ false
  unfolding unknown_checks
  quiet-unknown_checks o = quiet-warnings (unknown_orders o) _ (λ _. refl)

  -- The order manager and the account agree; `l` is what the account's log rebuilds.
  pub record IsAgreed (l : Ledger F) (o : OrderManager F) (a : PaperAccount F) : Type 0 where
    pub fills : (id : String) → has id (oms_fills o) ≡ has id (by_id a.fill_log)
    pub cash : differs cash_tolerance l.cash a.cash ≡ false
    pub realized : differs cash_tolerance l.realized a.realized_pnl ≡ false
    pub positions :
        (k : String)
        → (has k l.positions || has k a.positions) ≡ true
        → differs qty_tolerance (quantity_at k l.positions) (quantity_at k a.positions) ≡ false
    pub counts : o.fills_applied ≡ a.fills_applied
    pub orders : All (λ e. IsBooked e.1) o.orders

  -- The checks one by one, from the whole list.
  each_check :
      (l : Ledger F) (o : OrderManager F) (a : PaperAccount F)
      → any_critical (checks l o a) ≡ (
          any_critical (fill_checks (oms_fills o) (by_id a.fill_log))
          || any_critical (cash_checks l a)
          || any_critical (
              position_checks
                (sorted (either_keys l.positions a.positions))
                l.positions
                a.positions)
          || any_critical {F = F} (count_checks o.fills_applied a.fills_applied)
          || any_critical (fee_checks (by_id a.fill_log) a)
          || any_critical (order_checks o.orders)
          || any_critical (unknown_checks o))
  unfolding checks
  each_check l o a =
      rw
        (
          any_critical-append, any_critical-append, any_critical-append, any_critical-append,
          any_critical-append, any_critical-append,
        )
        refl

  result_at-IsAgreed :
      (now : ℕ) (l : Ledger F) (o : OrderManager F) (a : PaperAccount F)
      → (result_at now l o a).is_ok ≡ true
      → IsAgreed l o a
  unfolding result_at
  result_at-IsAgreed now l o a h =
      let e : any_critical (checks l o a) ≡ false = ground arith in
      let parts = sym (each_check l o a) ∙ e in
      record {
        fills = quiet-fill_checks (oms_fills o) (by_id a.fill_log) (ground (arith, parts));
        cash = ground (arith, parts, quiet-cash_checks l a);
        realized = ground (arith, parts, quiet-cash_checks l a);
        positions = λ k m.
            quiet-position_checks (sorted (either_keys l.positions a.positions)) l.positions
              a.positions k (ground (arith, parts))
              (contains-either_keys k l.positions a.positions ∙ m);
        counts = quiet-count_checks F o.fills_applied a.fills_applied (ground (arith, parts));
        orders = quiet-order_checks o.orders (ground (arith, parts));
      }

module _ {F B : Type 0} ⦃fl : Float F⦄ where
  reconcile-ok :
      (now : ℕ) (m : Marin F B) (r : ReconciliationResult F)
      → (reconcile now m).0 ≡ ok r
      → (l : Ledger F) × (recompute_from_fills m.account ≡ ok l)
        × (result_at now l m.oms m.account ≡ r)
  unfolding reconcile
  reconcile-ok now m r h = elim (Result-cases (recompute_from_fills m.account)) [
    | inl (l, rebuilt) ↦ (l, rebuilt, ok_injective (rw (rebuilt, reconcile) at h))
    | inr (x, fails) ↦ let bad = rw (fails, reconcile) at h in cc
  ]

  -- A reconciliation that returns a result and finds nothing critical has established: the log was
  -- rebuilt without an exception, the order manager and the account hold fills of the same ids and
  -- have applied equally many, cash, realised P&L and the quantity of every position are within
  -- tolerance of what the log rebuilds, every resident order's filled quantity is within tolerance of
  -- the sum of its fills, and no FILLED order has a quantity beyond tolerance outstanding.
  pub reconcile-IsAgreed :
      (now : ℕ) (m : Marin F B) (r : ReconciliationResult F)
      → (reconcile now m).0 ≡ ok r
      → r.is_ok ≡ true
      → (l : Ledger F) × (recompute_from_fills m.account ≡ ok l) × IsAgreed l m.oms m.account
  reconcile-IsAgreed now m r h passes =
      let (l, rebuilt, same) = reconcile-ok now m r h in
      (
        l,
        rebuilt,
        result_at-IsAgreed now l m.oms m.account
            (ap (λ (x : ReconciliationResult F). x.is_ok) same ∙ passes),
      )
