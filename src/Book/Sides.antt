-- ===== src/Book/Sides.antt =====
-- The sides of a local order book (agents/tidal/book.py): no price is stored twice, sizes are
-- positive, and sorting and trimming keep the best prices.
use octopush.Prelude.{
  ℕ, zero, suc, ◌≤◌, ◌≡◌, refl, sym, ◌∙◌, subst, Bool, true, false, not, ◌||◌, [], ◌∷◌, take,
  length, ltb, arith, inl, inr, Bool-cases, if◌then◌else◌,
}
use octopush.Prelude.Float.{Float, ◌⋖◌, ◌⩽◌, zero_float}
use octopush.Order.{Side, buy, sell}
use octopush.Book.{
  PriceLevel, Levels, put, drop_price, set_level, set_levels, load, better, place, sorted,
  trim_side, out_of_order, strictly,
}

-- What holds of the comparison of floats other than NaN, as validated prices and sizes are.
pub record IsOrdered (F : Type 0) ⦃fl : Float F⦄ : Type 0 where
  pub irreflexive : (x : F) → (x ⋖ x) ≡ false
  pub transitive : (x y z : F) → (x ⋖ y) ≡ true → (y ⋖ z) ≡ true → (x ⋖ z) ≡ true
  pub connected : (x y : F) → fl.same x y ≡ false → (x ⋖ y) ≡ false → (y ⋖ x) ≡ true
  pub same : (x y : F) → fl.same x y ≡ true → x ≡ y
  pub at_most : (x y : F) → (x ⩽ y) ≡ not (y ⋖ x)

module _ {F : Type 0} ⦃fl : Float F⦄ where
  -- Whether a price is stored.
  abbrev pub holds : F → Levels F → Bool
  holds p [] = false
  holds p (l ∷ ls) = fl.same l.price p || holds p ls

  -- No price is stored twice, and every size is positive.
  abbrev pub IsSide : Levels F → Type 0
  IsSide [] = Unit
  IsSide (l ∷ ls) = ((zero_float ⋖ l.size) ≡ true) × (holds l.price ls ≡ false) × IsSide ls

module _ {F : Type 0} ⦃fl : Float F⦄ (order : IsOrdered F) where
  pub same_comm : (p q : F) → fl.same p q ≡ fl.same q p
  same_comm p q = elim (Bool-cases (fl.same p q)) [
    | inl yes_ ↦ subst (λ r. fl.same p r ≡ fl.same r p) (order.same p q yes_) refl
    | inr no_ ↦ elim (Bool-cases (fl.same q p)) [
      | inl other ↦ subst (λ r. fl.same r q ≡ fl.same q r) (order.same q p other) refl
      | inr neither ↦ no_ ∙ sym neither
    ]
  ]

  holds-put :
      (p : F) (l : PriceLevel F) (ls : Levels F)
      → holds p (put l ls) ≡ (fl.same l.price p || holds p ls)
  holds-put p l [] = refl
  holds-put p l (m ∷ ms) = elim (Bool-cases (fl.same m.price l.price)) [
    | inl here ↦ ground (arith, order.same m.price l.price here)
    | inr there ↦ ground (arith, holds-put p l ms)
  ]

  holds-drop_price :
      (p q : F) (ls : Levels F) → holds p ls ≡ false → holds p (drop_price q ls) ≡ false
  holds-drop_price p q [] h = refl
  holds-drop_price p q (m ∷ ms) h = ground (arith, holds-drop_price p q ms)

  put-IsSide :
      (l : PriceLevel F) (ls : Levels F)
      → (zero_float ⋖ l.size) ≡ true
      → IsSide ls
      → IsSide (put l ls)
  put-IsSide l [] z v = (z, refl, tt)
  put-IsSide l (m ∷ ms) z v = elim (Bool-cases (fl.same m.price l.price)) [
    | inl here ↦ rw here (z, v.1, v.2)
    | inr there ↦ rw there (
      v.0,
      ground (arith, holds-put m.price l ms, same_comm l.price m.price),
      put-IsSide l ms z v.2,
    )
  ]

  drop_price-IsSide : (p : F) (ls : Levels F) → IsSide ls → IsSide (drop_price p ls)
  drop_price-IsSide p [] v = tt
  drop_price-IsSide p (m ∷ ms) v =
      ground (arith, holds-drop_price m.price p ms, drop_price-IsSide p ms v.2)

  set_level-IsSide : (side : Levels F) (l : PriceLevel F) → IsSide side → IsSide (set_level side l)
  unfolding set_level
  set_level-IsSide side l v = elim (Bool-cases (l.size ⩽ zero_float)) [
    | inl gone ↦ rw gone (drop_price-IsSide l.price side v)
    | inr kept ↦ rw kept (put-IsSide l side (ground (arith, order.at_most l.size zero_float)) v)
  ]

  pub set_levels-IsSide : (ls side : Levels F) → IsSide side → IsSide (set_levels side ls)
  unfolding set_levels
  set_levels-IsSide [] side v = v
  set_levels-IsSide (l ∷ ls) side v =
      set_levels-IsSide ls (set_level side l) (set_level-IsSide side l v)

  load_one-IsSide :
      (l : PriceLevel F) (side : Levels F)
      → IsSide side
      → IsSide (if zero_float ⋖ l.size then put l side else side)
  load_one-IsSide l side v = elim (Bool-cases (zero_float ⋖ l.size)) [
    | inl present ↦ rw present (put-IsSide l side present v)
    | inr absent ↦ rw absent v
  ]

  pub load-IsSide : (ls side : Levels F) → IsSide side → IsSide (load side ls)
  unfolding load
  load-IsSide [] side v = v
  load-IsSide (l ∷ ls) side v = load-IsSide ls _ (load_one-IsSide l side v)

  holds-place :
      (p : F) (s : Side) (l : PriceLevel F) (ls : Levels F)
      → holds p (place s l ls) ≡ (fl.same l.price p || holds p ls)
  unfolding place
  holds-place p s l [] = refl
  holds-place p s l (m ∷ ms) = ground (arith, holds-place p s l ms)

  place-IsSide :
      (s : Side) (l : PriceLevel F) (ls : Levels F)
      → (zero_float ⋖ l.size) ≡ true
      → holds l.price ls ≡ false
      → IsSide ls
      → IsSide (place s l ls)
  unfolding place
  place-IsSide s l [] z n v = (z, n, tt)
  place-IsSide s l (m ∷ ms) z n v = elim (Bool-cases (better s m.price l.price)) [
    | inl later ↦ rw later (
      v.0,
      ground (arith, holds-place m.price s l ms, same_comm l.price m.price),
      place-IsSide s l ms z (ground arith) v.2,
    )
    | inr here ↦ rw here (z, ground (arith, same_comm l.price m.price), v)
  ]

  holds-sorted : (p : F) (s : Side) (ls : Levels F) → holds p (sorted s ls) ≡ holds p ls
  unfolding sorted
  holds-sorted p s [] = refl
  holds-sorted p s (l ∷ ls) = ground (arith, holds-place p s l (sorted s ls), holds-sorted p s ls)

  pub sorted-IsSide : (s : Side) (ls : Levels F) → IsSide ls → IsSide (sorted s ls)
  unfolding sorted
  sorted-IsSide s [] v = tt
  sorted-IsSide s (l ∷ ls) v =
      place-IsSide s l (sorted s ls) v.0 (holds-sorted l.price s ls ∙ v.1) (sorted-IsSide s ls v.2)

  holds-take : (p : F) (n : ℕ) (ls : Levels F) → holds p ls ≡ false → holds p (take n ls) ≡ false
  holds-take p zero ls h = refl
  holds-take p (suc n) [] h = refl
  holds-take p (suc n) (l ∷ ls) h = ground (arith, holds-take p n ls)

  take-IsSide : (n : ℕ) (ls : Levels F) → IsSide ls → IsSide (take n ls)
  take-IsSide zero ls v = tt
  take-IsSide (suc n) [] v = tt
  take-IsSide (suc n) (l ∷ ls) v = (v.0, holds-take l.price n ls v.1, take-IsSide n ls v.2)

  length-take : (n : ℕ) (ls : Levels F) → length (take n ls) ≤ n
  length-take zero ls = omega arith
  length-take (suc n) [] = omega arith
  length-take (suc n) (l ∷ ls) = omega (arith, length-take n ls)

  pub trim_side-IsSide :
      (s : Side) (n : ℕ) (ls : Levels F)
      → IsSide ls
      → IsSide (trim_side s n ls) × (length (trim_side s n ls) ≤ n)
  unfolding trim_side
  trim_side-IsSide s n ls v = elim (Bool-cases (ltb n (length ls))) [
    | inl over ↦
        rw over (take-IsSide n (sorted s ls) (sorted-IsSide s ls v), length-take n (sorted s ls))
    | inr fit ↦ rw fit (v, ground arith)
  ]

  pub out_of_order-better : (s : Side) (p q : F) → out_of_order s p q ≡ not (better s p q)
  out_of_order-better buy p q = order.at_most p q
  out_of_order-better sell p q = order.at_most q p

  pub better-connected :
      (s : Side) (p q : F) → fl.same p q ≡ false → better s p q ≡ false → better s q p ≡ true
  better-connected buy p q d h = order.connected q p (same_comm q p ∙ d) h
  better-connected sell p q d h = order.connected p q d h

  pub better-transitive :
      (s : Side) (p q r : F) → better s p q ≡ true → better s q r ≡ true → better s p r ≡ true
  better-transitive buy p q r a b = order.transitive r q p b a
  better-transitive sell p q r a b = order.transitive p q r a b

  pub strictly-tail :
      (s : Side) (k : PriceLevel F) (ls : Levels F)
      → strictly s (k ∷ ls) ≡ true
      → strictly s ls ≡ true
  unfolding strictly
  strictly-tail s k [] h = refl
  strictly-tail s k (l ∷ ls) h = ground arith

  strictly-cons :
      (s : Side) (k : PriceLevel F) (ls : Levels F) (l : PriceLevel F)
      → strictly s (k ∷ ls) ≡ true
      → better s k.price l.price ≡ true
      → strictly s (place s l ls) ≡ true
      → strictly s (k ∷ place s l ls) ≡ true
  unfolding place strictly
  strictly-cons s k [] l h b p = ground (arith, out_of_order-better s k.price l.price)
  strictly-cons s k (m ∷ ms) l h b p = elim (Bool-cases (better s m.price l.price)) [
    | inl later ↦ let rest = rw later at p in rw later (ground (arith, rest))
    | inr here ↦
        let rest = rw here at p in
        rw here (ground (arith, rest, out_of_order-better s k.price l.price))
  ]

  strictly-place :
      (s : Side) (l : PriceLevel F) (ls : Levels F)
      → strictly s ls ≡ true
      → holds l.price ls ≡ false
      → strictly s (place s l ls) ≡ true
  unfolding place strictly
  strictly-place s l [] h n = refl
  strictly-place s l (m ∷ ms) h n = elim (Bool-cases (better s m.price l.price)) [
    | inl later ↦ rw later (
        strictly-cons s m ms l h later
          (strictly-place s l ms (strictly-tail s m ms h) (ground arith)))
    | inr here ↦
        let before = better-connected s m.price l.price (ground arith) here in
        rw here (ground (arith, before, out_of_order-better s l.price m.price))
  ]

  pub strictly-sorted : (s : Side) (ls : Levels F) → IsSide ls → strictly s (sorted s ls) ≡ true
  unfolding sorted strictly
  strictly-sorted s [] v = refl
  strictly-sorted s (l ∷ ls) v =
      strictly-place s l (sorted s ls) (strictly-sorted s ls v.2) (holds-sorted l.price s ls ∙ v.1)

  pub strictly-take :
      (s : Side) (n : ℕ) (ls : Levels F) → strictly s ls ≡ true → strictly s (take n ls) ≡ true
  unfolding strictly
  strictly-take s zero ls h = refl
  strictly-take s (suc n) [] h = refl
  strictly-take s (suc zero) (l ∷ ls) h = refl
  strictly-take s (suc (suc n)) (l ∷ []) h = refl
  strictly-take s (suc (suc n)) (l ∷ m ∷ ms) h =
      ground (arith, strictly-take s (suc n) (m ∷ ms) (strictly-tail s l (m ∷ ms) h))
