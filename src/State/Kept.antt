-- ===== src/State/Kept.antt =====
-- Which orders `put_order` of core/state/__init__.py keeps when it trims.
use octopush.Prelude.{
  ℕ, ◌-◌, String, ◌≡◌, refl, sym, ◌∙◌, subst, true, false, none, some, List, [], ◌∷◌, arith, str_eq,
  eq_iff, inl, inr, ◌⊎◌, Bool-cases, All, length, take, filterb, map, contains, leb, zero, suc,
}
use octopush.Prelude.Dict.{Dict, lookup, insert, erase, IsDict, insert-IsDict, lookup-erase_ne}
use octopush.Order.{PaperOrder, is_live}
use octopush.State.{
  SystemState, no_later, insort, sorted, pop_all, is_droppable, droppable, referenced_ids, time_of,
  trim_orders, put_order,
}

-- Another id than `id`.
abbrev Spares : String → ℕ × String → Type 0
Spares id (_, j) = str_eq j id ≡ false

insort-Spares :
    (id : String) (x : ℕ × String) (xs : List (ℕ × String))
    → Spares id x
    → All (Spares id) xs
    → All (Spares id) (insort x xs)
insort-Spares id x [] h a = (h, tt)
insort-Spares id x (y ∷ ys) h a = elim (Bool-cases (no_later x y)) [
  | inl first ↦ rw (first, insort) (h, a)
  | inr later ↦ rw (later, insort) (a.0, insort-Spares id x ys h a.1)
]

sorted-Spares :
    (id : String) (xs : List (ℕ × String)) → All (Spares id) xs → All (Spares id) (sorted xs)
unfolding sorted
sorted-Spares id [] a = tt
sorted-Spares id (x ∷ xs) a = insort-Spares id x (sorted xs) a.0 (sorted-Spares id xs a.1)

take-Spares :
    (id : String) (n : ℕ) (xs : List (ℕ × String))
    → All (Spares id) xs
    → All (Spares id) (take n xs)
take-Spares id zero xs a = tt
take-Spares id (suc n) [] a = tt
take-Spares id (suc n) (x ∷ xs) a = (a.0, take-Spares id n xs a.1)

lookup-pop_all :
    {V : Type 0} (id : String) (xs : List (ℕ × String)) (d : Dict V)
    → All (Spares id) xs
    → lookup id (pop_all xs d) ≡ lookup id d
unfolding pop_all
lookup-pop_all id [] d a = refl
lookup-pop_all id ((t, j) ∷ xs) d a =
    lookup-pop_all id xs (erase j d) a.1 ∙ lookup-erase_ne j id d a.0

module _ {F : Type 0} where
  -- What is droppable in a dict that lacks an id has other ids.
  absent-Spares :
      (refs : List String) (id : String) (d : Dict (PaperOrder F))
      → lookup id d ≡ none
      → All (Spares id) (map (λ e. (time_of e.1, e.0)) (filterb (is_droppable refs) d))
  absent-Spares refs id [] h = tt
  absent-Spares refs id ((j, o) ∷ d) h = elim (Bool-cases (str_eq j id)) [
    | inl here ↦ cc (rw here at h)
    | inr there ↦ elim (Bool-cases (is_droppable refs (j, o))) [
      | inl drop ↦ rw drop (there, absent-Spares refs id d (rw there at h))
      | inr keep ↦ rw keep (absent-Spares refs id d (rw there at h))
    ]
  ]

  -- An order that may not be dropped spares its id.
  stored-Spares :
      (refs : List String) (id : String) (o : PaperOrder F) (d : Dict (PaperOrder F))
      → IsDict d
      → lookup id d ≡ some o
      → is_droppable refs (id, o) ≡ false
      → All (Spares id) (map (λ e. (time_of e.1, e.0)) (filterb (is_droppable refs) d))
  stored-Spares refs id o [] v e h = cc
  stored-Spares refs id o ((j, q) ∷ d) v e h = elim (Bool-cases (str_eq j id)) [
    | inl here ↦
        let own : j ≡ id = (eq_iff j id).0 here in
        let same : q ≡ o = cc (rw here at e) in
        let keep : is_droppable refs (j, q) ≡ false =
          subst (λ k. is_droppable refs (k, q) ≡ false) (sym own)
            (subst (λ r. is_droppable refs (id, r) ≡ false) (sym same) h) in
        rw keep (absent-Spares refs id d (subst (λ k. lookup k d ≡ none) own v.0))
    | inr there ↦ elim (Bool-cases (is_droppable refs (j, q))) [
      | inl drop ↦ rw drop (there, stored-Spares refs id o d v.1 (rw there at e) h)
      | inr keep ↦ rw keep (stored-Spares refs id o d v.1 (rw there at e) h)
    ]
  ]

module _ {F P : Type 0} where
  trim_orders-lookup :
      (id : String) (o : PaperOrder F) (s : SystemState F P)
      → IsDict s.orders
      → lookup id s.orders ≡ some o
      → is_droppable (referenced_ids s.opportunities) (id, o) ≡ false
      → lookup id (trim_orders s).orders ≡ some o
  unfolding trim_orders
  trim_orders-lookup id o s v e h = elim (Bool-cases (leb (length s.orders) s.max_history)) [
    | inl fits ↦ rw (fits, trim_orders) e
    | inr over ↦
        rw (over, trim_orders)
          (lookup-pop_all id _ s.orders (
              take-Spares id (length s.orders - s.max_history) _ (
                sorted-Spares id (droppable s)
                  (stored-Spares (referenced_ids s.opportunities) id o s.orders v e h)))
            ∙ e)
  ]

  -- However many orders the state holds, `put_order` leaves under its id every order, the new one
  -- included, that is live or that a retained opportunity names.
  pub put_order-lookup :
      (new : PaperOrder F) (id : String) (o : PaperOrder F) (s : SystemState F P)
      → IsDict s.orders
      → lookup id (insert new.client_order_id new s.orders) ≡ some o
      → (is_live o ≡ true) ⊎ (contains id (referenced_ids s.opportunities) ≡ true)
      → lookup id (put_order new s).orders ≡ some o
  unfolding put_order
  put_order-lookup new id o s v e wanted =
      trim_orders-lookup id o (record s { orders = insert new.client_order_id new s.orders })
        (insert-IsDict new.client_order_id new s.orders v) e (spared wanted)
    where
      spared :
          (is_live o ≡ true) ⊎ (contains id (referenced_ids s.opportunities) ≡ true)
          → is_droppable (referenced_ids s.opportunities) (id, o) ≡ false
      spared (inl live) = rw live refl
      spared (inr named) = rw named (ground arith)
