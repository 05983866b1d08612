-- ===== src/Order/Totals.antt =====
-- The running totals of a paper order (core/models/execution.py, `PaperOrder.apply_fill`) against
-- its list of fills.
use octopush.Prelude.{
  String, ◌≡◌, ◌≢◌, ◌⊎◌, refl, sym, ◌∙◌, ap, true, false, ◌||◌, Option, none, some, List, [], ◌∷◌,
  ◌++◌, foldl, foldl-append, All, arith, str_eq, eq_iff, eq_refl, inl, inr, Bool-cases,
}
use octopush.Prelude.Float.{Float, ◌⊕◌, ◌⊗◌, ◌⊘◌, zero_float}
use octopush.Prelude.Action.{ok, raised, value_error}
use octopush.Order.{FillEvent, PaperOrder, holds_fill, average_or_zero, filled_by, apply_fill}

-- No two fills in the list share an id.
abbrev pub Distinct : {F : Type 0} → List (FillEvent F) → Type 0
Distinct [] = Unit
Distinct (f ∷ fs) = (holds_fill f.fill_id fs ≡ false) × Distinct fs

module _ {F : Type 0} where
  pub holds_fill-append :
      (id : String) (fs gs : List (FillEvent F))
      → holds_fill id (fs ++ gs) ≡ (holds_fill id fs || holds_fill id gs)
  unfolding holds_fill
  holds_fill-append id [] gs = refl
  holds_fill-append id (f ∷ fs) gs = ground (arith, holds_fill-append id fs gs)

  Distinct-snoc :
      (fs : List (FillEvent F)) (f : FillEvent F)
      → Distinct fs
      → holds_fill f.fill_id fs ≡ false
      → Distinct (fs ++ f ∷ [])
  unfolding holds_fill
  Distinct-snoc [] f d h = (refl, tt)
  Distinct-snoc (g ∷ fs) f d h = (
    ground (
      arith,
      holds_fill-append g.fill_id fs (f ∷ []),
      eq_iff f.fill_id g.fill_id,
      eq_iff g.fill_id f.fill_id,
    ),
    Distinct-snoc fs f d.1 (ground arith),
  )

module _ {F : Type 0} ⦃fl : Float F⦄ where
  abbrev pub add_quantity : F → FillEvent F → F
  add_quantity q f = q ⊕ f.quantity

  abbrev pub add_fee : F → FillEvent F → F
  add_fee c f = c ⊕ f.fee

  -- The quantity-weighted average and the quantity that one more fill leads to.
  abbrev pub roll_average : Option F × F → FillEvent F → Option F × F
  roll_average (p, q) f =
      (some ((average_or_zero p ⊗ q ⊕ f.price ⊗ f.quantity) ⊘ (q ⊕ f.quantity)), q ⊕ f.quantity)

  -- Quantity, fees and average price are what the fills give when they are added up in order; the
  -- fills are the order's own, and none is listed twice.
  pub record IsTotalled (o : PaperOrder F) : Type 0 where
    pub quantities : o.filled_quantity ≡ foldl add_quantity zero_float o.fills
    pub fees : o.fees_paid ≡ foldl add_fee zero_float o.fills
    pub average :
        ◌≡◌ {A = Option F × F}
          (o.average_price, o.filled_quantity)
          (foldl roll_average (none, zero_float) o.fills)
    pub own : All (λ f. f.client_order_id ≡ o.client_order_id) o.fills
    pub distinct : Distinct o.fills

  All-snoc :
      (P : FillEvent F → Type 0) (fs : List (FillEvent F)) (f : FillEvent F)
      → All P fs
      → P f
      → All P (fs ++ f ∷ [])
  All-snoc P [] f a h = (h, tt)
  All-snoc P (g ∷ fs) f a h = (a.0, All-snoc P fs f a.1 h)

  pub filled_by-IsTotalled :
      (f : FillEvent F) (o : PaperOrder F)
      → IsTotalled o
      → f.client_order_id ≡ o.client_order_id
      → holds_fill f.fill_id o.fills ≡ false
      → IsTotalled (filled_by f o)
  unfolding filled_by
  filled_by-IsTotalled f o v e new = record {
    quantities = rw foldl-append (ap (λ q. add_quantity q f) v.quantities);
    fees = rw foldl-append (ap (λ q. add_fee q f) v.fees);
    average = rw foldl-append (ap (λ q. roll_average q f) v.average);
    own = All-snoc _ o.fills f v.own e;
    distinct = Distinct-snoc o.fills f v.distinct new;
  }

  pub holds-filled_by :
      (f : FillEvent F) (o : PaperOrder F) → holds_fill f.fill_id (filled_by f o).fills ≡ true
  unfolding filled_by holds_fill
  holds-filled_by f o =
      ground (arith, holds_fill-append f.fill_id o.fills (f ∷ []), eq_refl f.fill_id)

  -- What a new fill of an order's own leaves as it was: everything but what the fills make up.
  abbrev pub SameCourse : PaperOrder F → PaperOrder F → Type 0
  SameCourse o o' = o' ≡ record o {
    fills = o'.fills;
    filled_quantity = o'.filled_quantity;
    fees_paid = o'.fees_paid;
    average_price = o'.average_price;
  }

  pub apply_fill-SameCourse : (f : FillEvent F) (o : PaperOrder F) → SameCourse o (apply_fill f o).1
  unfolding apply_fill filled_by
  apply_fill-SameCourse f o = elim (Bool-cases (str_eq f.client_order_id o.client_order_id)) [
    | inl own ↦ elim (Bool-cases (holds_fill f.fill_id o.fills)) [
      | inl old ↦ rw (own, old) refl
      | inr new ↦ rw (own, new) refl
    ]
    | inr other ↦ rw other refl
  ]

  -- An order whose totals are those of its fills keeps them so. A fill of another order raises and
  -- changes nothing, one that the order holds already is accepted and changes nothing, and a new one is
  -- appended to the fills, while nothing but the fills, the quantity, the fees and the average price
  -- changes.
  pub apply_fill-IsTotalled :
      (f : FillEvent F) (o : PaperOrder F)
      → IsTotalled o
      → IsTotalled (apply_fill f o).1
        × (((f.client_order_id ≢ o.client_order_id) × (apply_fill f o ≡ (raised value_error, o)))
            ⊎ (((f.client_order_id ≡ o.client_order_id)
                  × (holds_fill f.fill_id o.fills ≡ true)
                  × (apply_fill f o ≡ (ok tt, o)))
                ⊎ ((f.client_order_id ≡ o.client_order_id)
                    × (holds_fill f.fill_id o.fills ≡ false)
                    × ((apply_fill f o).0 ≡ ok tt)
                    × ((apply_fill f o).1.fills ≡ o.fills ++ f ∷ [])
                    × SameCourse o (apply_fill f o).1)))
  unfolding apply_fill filled_by
  apply_fill-IsTotalled f o v = elim (Bool-cases (str_eq f.client_order_id o.client_order_id)) [
    | inl same ↦
        let own = (eq_iff _ _).0 same in
        elim (Bool-cases (holds_fill f.fill_id o.fills)) [
          | inl old ↦ rw (same, old) (v, inr (inl (own, refl, refl)))
          | inr new ↦
              rw (same, new)
                (filled_by-IsTotalled f o v own new, inr (inr (own, refl, refl, refl, refl)))
        ]
    | inr other ↦ rw other (v, inl (λ e. cc (sym other ∙ (eq_iff _ _).1 e), refl))
  ]
