-- ===== src/Oms/Compaction.antt =====
-- `compact` of execution/oms/__init__.py: which orders leave memory, and that their totals do not.
use octopush.Prelude.{
  ℕ, ◌+◌, String, ◌≡◌, refl, ap, ◌∙◌, Bool, true, false, not, none, List, [], ◌∷◌, foldl, filterb,
  length, All, arith, str_eq, eq_iff, inl, inr, Bool-cases,
}
use octopush.Prelude.Dict.{Dict, lookup, erase, values, IsDict}
use octopush.Prelude.Float.{Float}
use octopush.Prelude.Action.{ok}
use octopush.Order.{PaperOrder}
use octopush.Oms.Orders.{IsValid, IsEntry}
use octopush.Oms.{
  OrderManager, ArchivedOrders, absorb, archive_one, is_doomed, compact, resident_fills,
}

-- The entries whose orders fail a test.
abbrev pub spare : {V : Type 0} → (V → Bool) → Dict V → Dict V
spare p = filterb (λ e. not (p e.1))

module _ {F : Type 0} ⦃fl : Float F⦄ where
  abbrev remove : Dict (PaperOrder F) → PaperOrder F → Dict (PaperOrder F)
  remove d o = erase o.client_order_id d

  archive-parts :
      (os : List (PaperOrder F)) (m : OrderManager F)
      → foldl archive_one m os
        ≡ record m { archived = foldl absorb m.archived os; orders = foldl remove m.orders os }
  archive-parts [] m = refl
  archive-parts (o ∷ os) m = archive-parts os (archive_one m o)

  total_fills : List (PaperOrder F) → ℕ
  total_fills [] = 0
  total_fills (o ∷ os) = length o.fills + total_fills os

  absorb-counts :
      (os : List (PaperOrder F)) (a : ArchivedOrders F)
      → ((foldl absorb a os).count ≡ a.count + length os)
        × ((foldl absorb a os).fills ≡ a.fills + total_fills os)
  unfolding absorb total_fills
  absorb-counts [] a = (omega arith, omega arith)
  absorb-counts (o ∷ os) a =
      let (c, f) = absorb-counts os (absorb a o) in (omega (arith, c), omega (arith, f))

  spare-counts :
      (p : PaperOrder F → Bool) (d : Dict (PaperOrder F))
      → (length (filterb p (values d)) + length (spare p d) ≡ length d)
        × (total_fills (filterb p (values d)) + resident_fills (spare p d) ≡ resident_fills d)
  unfolding total_fills resident_fills
  spare-counts p [] = (omega arith, omega arith)
  spare-counts p ((k, o) ∷ d) = ground (arith, spare-counts p d)

  -- The entries that are removed do not come before `k`'s.
  remove-past :
      (k : String) (o : PaperOrder F) (p : PaperOrder F → Bool) (d e : Dict (PaperOrder F))
      → lookup k d ≡ none
      → All IsEntry d
      → foldl remove ((k, o) ∷ e) (filterb p (values d))
        ≡ (k, o) ∷ foldl remove e (filterb p (values d))
  remove-past k o p [] e h a = refl
  remove-past k o p ((j, q) ∷ d) e h a = elim (Bool-cases (p q)) [
    | inl out ↦ rw out (
        ap (λ u. foldl remove u (filterb p (values d))) passed
        ∙ remove-past k o p d (erase q.client_order_id e) later a.1)
    | inr stays ↦ rw stays (remove-past k o p d e later a.1)
  ]
    where
      apart : str_eq k q.client_order_id ≡ false
      apart = ground (arith, eq_iff j k, eq_iff k q.client_order_id, a.0.0)

      passed : erase q.client_order_id ((k, o) ∷ e) ≡ (k, o) ∷ erase q.client_order_id e
      passed = rw apart refl

      later : lookup k d ≡ none
      later = ground arith

  remove-spare :
      (p : PaperOrder F → Bool) (d : Dict (PaperOrder F))
      → IsDict d
      → All IsEntry d
      → foldl remove d (filterb p (values d)) ≡ spare p d
  remove-spare p [] h a = refl
  remove-spare p ((k, o) ∷ d) h a = elim (Bool-cases (p o)) [
    | inl out ↦
        rw out (ap (λ u. foldl remove u (filterb p (values d))) first ∙ remove-spare p d h.1 a.1)
    | inr stays ↦
        rw stays (remove-past k o p d d h.0 a.1 ∙ ap (◌∷◌ (k, o)) (remove-spare p d h.1 a.1))
  ]
    where
      here : str_eq k o.client_order_id ≡ true
      here = (eq_iff k o.client_order_id).1 a.0.0

      first : erase o.client_order_id ((k, o) ∷ d) ≡ d
      first = rw here refl

  -- `compact` removes exactly the orders that are terminal and have no fill among the unsealed
  -- ones, and leaves every other order as it is; it reports their number, and the totals of orders
  -- and of fills, resident and archived together, stay the same.
  pub compact_lem :
      (unsealed : List String) (m : OrderManager F)
      → IsValid m
      → let (r, m') = compact unsealed m in
        (m'.orders ≡ spare (is_doomed unsealed) m.orders)
        × (r ≡ ok (length (filterb (is_doomed unsealed) (values m.orders))))
        × (m'.archived.count + length m'.orders ≡ m.archived.count + length m.orders)
        × (m'.archived.fills + resident_fills m'.orders
            ≡ m.archived.fills + resident_fills m.orders)
  unfolding compact
  compact_lem unsealed m v =
      let doomed = filterb (is_doomed unsealed) (values m.orders) in
      let (c, f) = absorb-counts doomed m.archived in
      let (n, g) = spare-counts (is_doomed unsealed) m.orders in
      rw (archive-parts doomed m, remove-spare (is_doomed unsealed) m.orders v.keyed v.sound)
        (refl, refl, omega (arith, c, n), omega (arith, f, g))

  spare-All :
      (P : String × PaperOrder F → Type 0) (p : PaperOrder F → Bool) (d : Dict (PaperOrder F))
      → All P d
      → All P (spare p d)
  spare-All P p [] a = tt
  spare-All P p ((k, o) ∷ d) a = elim (Bool-cases (p o)) [
    | inl out ↦ rw out (spare-All P p d a.1)
    | inr stays ↦ rw stays (a.0, spare-All P p d a.1)
  ]

  lookup-spare :
      (k : String) (p : PaperOrder F → Bool) (d : Dict (PaperOrder F))
      → lookup k d ≡ none
      → lookup k (spare p d) ≡ none
  lookup-spare k p [] h = refl
  lookup-spare k p ((j, o) ∷ d) h = ground (arith, lookup-spare k p d)

  spare-IsDict : (p : PaperOrder F → Bool) (d : Dict (PaperOrder F)) → IsDict d → IsDict (spare p d)
  spare-IsDict p [] h = tt
  spare-IsDict p ((k, o) ∷ d) h = ground (arith, spare-IsDict p d h.1, lookup-spare k p d h.0)

  pub compact-IsValid :
      (unsealed : List String) (m : OrderManager F) → IsValid m → IsValid (compact unsealed m).1
  unfolding compact
  compact-IsValid unsealed m v =
      let doomed = filterb (is_doomed unsealed) (values m.orders) in
      rw (archive-parts doomed m, remove-spare (is_doomed unsealed) m.orders v.keyed v.sound)
        (record {
          keyed = spare-IsDict (is_doomed unsealed) m.orders v.keyed;
          sound = spare-All IsEntry (is_doomed unsealed) m.orders v.sound;
          windowed = v.windowed;
        })
