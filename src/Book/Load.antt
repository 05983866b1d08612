-- ===== src/Book/Load.antt =====
-- A local order book that loads a snapshot shows the snapshot's levels (agents/tidal/book.py,
-- `apply_snapshot` and `levels`).
use octopush.Prelude.{
  ℕ, ◌≤◌, ◌≡◌, refl, sym, ap, ◌∙◌, subst, true, false, ◌||◌, none, [], ◌∷◌, ◌++◌, append_assoc,
  append-nil, length, arith, inl, inr, Bool-cases, All,
}
use octopush.Prelude.Float.{Float, ◌⋖◌, zero_float}
use octopush.Order.{Side, buy, sell}
use octopush.Book.{
  PriceLevel, Levels, OrderBookSnapshot, LocalOrderBook, put, load, better, place, sorted, trim,
  trim_side, strictly, apply_snapshot, levels,
}
use octopush.Book.Sides.{
  IsOrdered, IsSide, holds, same_comm, better-transitive, strictly-tail, out_of_order-better,
}
use octopush.Book.Best.{asymmetric}

module _ {F : Type 0} ⦃fl : Float F⦄ where
  abbrev pub IsPositive : Levels F → Type 0
  IsPositive = All (λ l. (zero_float ⋖ l.size) ≡ true)

module _ {F : Type 0} ⦃fl : Float F⦄ (order : IsOrdered F) where
  put-new :
      (l : PriceLevel F) (side : Levels F)
      → holds l.price side ≡ false
      → put l side ≡ side ++ l ∷ []
  put-new l [] h = refl
  put-new l (m ∷ ms) h = ground (arith, put-new l ms)

  holds-append : (p : F) (xs ys : Levels F) → holds p (xs ++ ys) ≡ (holds p xs || holds p ys)
  holds-append p [] ys = refl
  holds-append p (x ∷ xs) ys = ground (arith, holds-append p xs ys)

  holds-middle :
      (side ls : Levels F) (l : PriceLevel F) → IsSide (side ++ l ∷ ls) → holds l.price side ≡ false
  holds-middle [] ls l v = refl
  holds-middle (m ∷ ms) ls l v = ground (
    arith,
    holds-append m.price ms (l ∷ ls),
    same_comm order l.price m.price,
    holds-middle ms ls l v.2,
  )

  load-append :
      (ls side : Levels F) → IsPositive ls → IsSide (side ++ ls) → load side ls ≡ side ++ ls
  unfolding load
  load-append [] side z v = sym (append-nil side)
  load-append (l ∷ ls) side z v =
      rw (z.0, put-new l side (holds-middle side ls l v))
        (load-append ls (side ++ l ∷ []) z.1 (subst IsSide (sym (append_assoc side (l ∷ []) ls)) v)
          ∙ append_assoc side (l ∷ []) ls)

  better-differ : (s : Side) (p q : F) → better s p q ≡ true → fl.same q p ≡ false
  better-differ s p q b = elim (Bool-cases (fl.same q p)) [
    | inr differ ↦ differ
    | inl equal ↦ cc (
      b,
      asymmetric order s p q b,
      subst (λ x. better s x p ≡ better s p x) (sym (order.same q p equal)) refl,
    )
  ]

  strictly-better :
      (s : Side) (l m : PriceLevel F) (ms : Levels F)
      → strictly s (l ∷ m ∷ ms) ≡ true
      → better s l.price m.price ≡ true
  unfolding strictly
  strictly-better s l m ms h = ground (arith, out_of_order-better order s l.price m.price)

  worse_than-strictly :
      (s : Side) (p : F) (ls : Levels F) (m : PriceLevel F)
      → strictly s (m ∷ ls) ≡ true
      → better s p m.price ≡ true
      → holds p (m ∷ ls) ≡ false
  unfolding strictly
  worse_than-strictly s p [] m h b = ground (arith, better-differ s p m.price b)
  worse_than-strictly s p (k ∷ ks) m h b =
      let next = better-transitive order s p m.price k.price b (strictly-better s m k ks h) in
      ground (
        arith,
        better-differ s p m.price b,
        worse_than-strictly s p ks k (strictly-tail order s m (k ∷ ks) h) next,
      )

  strictly-IsSide : (s : Side) (ls : Levels F) → strictly s ls ≡ true → IsPositive ls → IsSide ls
  unfolding strictly
  strictly-IsSide s [] h z = tt
  strictly-IsSide s (l ∷ []) h z = (z.0, refl, tt)
  strictly-IsSide s (l ∷ m ∷ ms) h z = (
    z.0,
    worse_than-strictly s l.price ms m (strictly-tail order s l (m ∷ ms) h)
        (strictly-better s l m ms h),
    strictly-IsSide s (m ∷ ms) (strictly-tail order s l (m ∷ ms) h) z.1,
  )

  sorted-strictly : (s : Side) (ls : Levels F) → strictly s ls ≡ true → sorted s ls ≡ ls
  unfolding sorted place strictly
  sorted-strictly s [] h = refl
  sorted-strictly s (l ∷ []) h = refl
  sorted-strictly s (l ∷ m ∷ ms) h =
      let behind = asymmetric order s l.price m.price (strictly-better s l m ms h) in
      ap (place s l) (sorted-strictly s (m ∷ ms) (strictly-tail order s l (m ∷ ms) h))
      ∙ rw behind refl

  trim_side-sorted :
      (s : Side) (n : ℕ) (ls : Levels F)
      → strictly s ls ≡ true
      → length ls ≤ n
      → trim_side s n ls ≡ ls
  unfolding trim_side
  trim_side-sorted s n ls h fit = ground arith

  loaded :
      (s : Side) (n : ℕ) (ls : Levels F)
      → strictly s ls ≡ true
      → IsPositive ls
      → length ls ≤ n
      → sorted s (trim_side s n (load [] ls)) ≡ ls
  loaded s n ls h z fit =
      ap (λ side. sorted s (trim_side s n side)) (load-append ls [] z (strictly-IsSide s ls h z))
      ∙ ap (sorted s) (trim_side-sorted s n ls h fit)
      ∙ sorted-strictly s ls h

  -- Prices being ordered, a snapshot that passes the validators, holds only positive sizes and is no
  -- deeper than the book, is shown level for level by the book that applied it, whatever the book
  -- held before; the book is then synchronised and needs no further snapshot.
  pub levels-apply_snapshot :
      (snap : OrderBookSnapshot F) (b : LocalOrderBook F)
      → strictly buy snap.bids ≡ true
      → strictly sell snap.asks ≡ true
      → IsPositive snap.bids
      → IsPositive snap.asks
      → length snap.bids ≤ b.max_depth
      → length snap.asks ≤ b.max_depth
      → let b' = apply_snapshot snap b in
        (levels buy none b' ≡ snap.bids)
        × (levels sell none b' ≡ snap.asks)
        × (b'.synced ≡ true)
        × (b'.needs_resync ≡ false)
        × (b'.sequence ≡ snap.sequence)
  unfolding apply_snapshot trim levels
  levels-apply_snapshot snap b h k z w fit room = (
    loaded buy b.max_depth snap.bids h z fit,
    loaded sell b.max_depth snap.asks k w room,
    refl,
    refl,
    refl,
  )
