-- ===== src/Book/Best.antt =====
-- The best prices of a local order book, and what it means to be usable (agents/tidal/book.py).
use octopush.Prelude.{
  ◌≡◌, refl, subst, true, false, some, [], ◌∷◌, is_nil, arith, inl, inr, Bool-cases, if◌then◌else◌,
  All,
}
use octopush.Prelude.Float.{Float, ◌⋖◌}
use octopush.Order.{Side, buy, sell}
use octopush.Book.{
  Levels, LocalOrderBook, better, best_of, best, meets, best_bid, best_ask, crossed, usable,
}
use octopush.Book.Sides.{IsOrdered, better-transitive, better-connected}

some_injective : {A : Type 0} {a b : A} → some a ≡ some b → a ≡ b
some_injective h = cc

module _ {F : Type 0} ⦃fl : Float F⦄ (order : IsOrdered F) where
  -- No level of a list is better than a price.
  abbrev pub Bounds : Side → F → Levels F → Type 0
  Bounds s p = All (λ l. better s l.price p ≡ false)

  better-irreflexive : (s : Side) (p : F) → better s p p ≡ false
  better-irreflexive buy p = order.irreflexive p
  better-irreflexive sell p = order.irreflexive p

  -- Being no better passes on.
  not_better :
      (s : Side) (p q r : F) → better s p q ≡ false → better s q r ≡ false → better s p r ≡ false
  not_better s p q r a b = elim (Bool-cases (better s p r)) [
    | inr down ↦ down
    | inl up ↦ elim (Bool-cases (fl.same q r)) [
      | inl equal ↦ subst (λ x. better s p x ≡ false) (order.same q r equal) a
      | inr differ ↦
          let above = better-connected order s q r differ b in
          cc (a, better-transitive order s p r q up above)
    ]
  ]

  pub asymmetric : (s : Side) (p q : F) → better s p q ≡ true → better s q p ≡ false
  asymmetric s p q h = elim (Bool-cases (better s q p)) [
    | inl back ↦ cc (better-irreflexive s p, better-transitive order s p q p h back)
    | inr fine ↦ fine
  ]

  better_one :
      (s : Side) (m p : F)
      → (better s m (if better s m p then m else p) ≡ false)
        × (better s p (if better s m p then m else p) ≡ false)
  better_one s m p = elim (Bool-cases (better s m p)) [
    | inl up ↦ rw up (better-irreflexive s m, asymmetric s m p up)
    | inr down ↦ rw down (down, better-irreflexive s p)
  ]

  best_of-Bounds :
      (s : Side) (p : F) (ls : Levels F)
      → Bounds s (best_of s p ls) ls × (better s p (best_of s p ls) ≡ false)
  best_of-Bounds s p [] = (tt, better-irreflexive s p)
  best_of-Bounds s p (m ∷ ms) =
      let t = if better s m.price p then m.price else p in
      let (bound, first) = best_of-Bounds s t ms in
      let (below, under) = better_one s m.price p in
      ((not_better s m.price t _ below first, bound), not_better s p t _ under first)

  best-Bounds : (s : Side) (p : F) (ls : Levels F) → best s ls ≡ some p → Bounds s p ls
  best-Bounds s p [] h = tt
  best-Bounds s p (m ∷ ms) h =
      let (bound, first) = best_of-Bounds s m.price ms in
      subst (λ q. Bounds s q (m ∷ ms)) (some_injective h) (first, bound)

  squeeze_left : (x y z : F) → (x ⋖ z) ≡ true → (y ⋖ z) ≡ false → (x ⋖ y) ≡ true
  squeeze_left x y z h f = elim (Bool-cases (x ⋖ y)) [
    | inl below ↦ below
    | inr above ↦ cc (h, not_better sell x y z above f)
  ]

  squeeze_right : (x y z : F) → (x ⋖ z) ≡ true → (x ⋖ y) ≡ false → (y ⋖ z) ≡ true
  squeeze_right x y z h f = elim (Bool-cases (y ⋖ z)) [
    | inl below ↦ below
    | inr above ↦ cc (h, not_better sell x y z f above)
  ]

  -- From a price below all asks to each of them.
  below_asks :
      (bid ask : F) (ls : Levels F)
      → (bid ⋖ ask) ≡ true
      → Bounds sell ask ls
      → All (λ l. (bid ⋖ l.price) ≡ true) ls
  below_asks bid ask [] h b = tt
  below_asks bid ask (l ∷ ls) h b =
      (squeeze_left bid l.price ask h b.0, below_asks bid ask ls h b.1)

  below-All :
      (bid ask : F) (bids asks : Levels F)
      → (bid ⋖ ask) ≡ true
      → Bounds buy bid bids
      → Bounds sell ask asks
      → All (λ b. All (λ a. (b.price ⋖ a.price) ≡ true) asks) bids
  below-All bid ask [] asks h u v = tt
  below-All bid ask (l ∷ ls) asks h u v = (
    below_asks l.price ask asks (squeeze_right bid l.price ask h u.0) v,
    below-All bid ask ls asks h u.1 v,
  )

  separated :
      (bids asks : Levels F)
      → meets (best buy bids) (best sell asks) ≡ false
      → is_nil asks ≡ false
      → All (λ b. All (λ a. (b.price ⋖ a.price) ≡ true) asks) bids
  separated [] asks m n = tt
  separated (b ∷ bs) [] m n = cc
  separated (b ∷ bs) (a ∷ as_) m n =
      let bid = best_of buy b.price bs in
      let ask = best_of sell a.price as_ in
      below-All bid ask (b ∷ bs) (a ∷ as_) (ground (arith, order.at_most ask bid))
        (best-Bounds buy bid (b ∷ bs) refl) (best-Bounds sell ask (a ∷ as_) refl)

  -- Prices being ordered, in a usable book every stored bid is below every stored ask.
  pub usable-separated :
      (b : LocalOrderBook F)
      → usable b ≡ true
      → All (λ bid. All (λ ask. (bid.price ⋖ ask.price) ≡ true) b.asks) b.bids
  unfolding usable crossed best_bid best_ask
  usable-separated b h = separated b.bids b.asks (ground arith) (ground arith)
