-- ===== src/Book/Feed.antt =====
-- A local order book along its feed (agents/tidal/book.py): snapshots, deltas and invalidations in
-- any order.
use octopush.Prelude.{
  ℕ, ◌⊎◌, ◌+◌, ◌≤◌, ◌≡◌, refl, sym, subst, true, false, Option, List, [], ◌∷◌, String, length,
  arith, inl, inr, Bool-cases,
}
use octopush.Prelude.Float.{Float}
use octopush.Prelude.Action.{Result, ok, raised, desync_error}
use octopush.Order.{buy, sell}
use octopush.Book.{
  OrderBookSnapshot, BookDelta, LocalOrderBook, new_book, trim, apply_snapshot, Verdict, stale, gap,
  fits, judge, updated, apply_delta, invalidate, levels, snapshot, strictly, or_default,
}
use octopush.Book.Sides.{
  IsOrdered, IsSide, load-IsSide, set_levels-IsSide, trim_side-IsSide, strictly-sorted,
  strictly-take,
}

pub data Message (F : Type 0) : Type 0 where
  snapshots : OrderBookSnapshot F → Message F
  deltas : BookDelta F → Message F
  invalidates : Message F

module _ {F : Type 0} ⦃fl : Float F⦄ where
  unfoldable pub step : LocalOrderBook F → Message F → LocalOrderBook F
  step b (snapshots s) = apply_snapshot s b
  step b (deltas d) = (apply_delta d b).1
  step b invalidates = invalidate b

  unfoldable pub run : LocalOrderBook F → List (Message F) → LocalOrderBook F
  run b [] = b
  run b (m ∷ ms) = run (step b m) ms

  -- Each side is in order and no deeper than the book's depth.
  pub record IsBook (b : LocalOrderBook F) : Type 0 where
    pub bids : IsSide b.bids
    pub asks : IsSide b.asks
    pub bid_depth : length b.bids ≤ b.max_depth
    pub ask_depth : length b.asks ≤ b.max_depth

Verdict-cases : (v : Verdict) → (v ≡ stale) ⊎ ((v ≡ gap) ⊎ (v ≡ fits))
Verdict-cases stale = inl refl
Verdict-cases gap = inr (inl refl)
Verdict-cases fits = inr (inr refl)

module _ {F : Type 0} ⦃fl : Float F⦄ (d : BookDelta F) (b : LocalOrderBook F) where
  abbrev pub broken : LocalOrderBook F
  broken = record b { sequence_gaps = b.sequence_gaps + 1; synced = false; needs_resync = true }

  pub apply_delta-unsynced : b.synced ≡ false → apply_delta d b ≡ (raised desync_error, b)
  unfolding apply_delta
  apply_delta-unsynced h = ground arith

  pub apply_delta-stale :
      b.synced ≡ true
      → judge d.sequence b.sequence d.prev_sequence ≡ stale
      → apply_delta d b ≡ (ok tt, b)
  unfolding apply_delta
  apply_delta-stale h j = ground arith

  pub apply_delta-gap :
      b.synced ≡ true
      → judge d.sequence b.sequence d.prev_sequence ≡ gap
      → apply_delta d b ≡ (raised desync_error, broken)
  unfolding apply_delta
  apply_delta-gap h j = ground arith

  apply_delta-fits :
      b.synced ≡ true
      → judge d.sequence b.sequence d.prev_sequence ≡ fits
      → apply_delta d b ≡ (ok tt, updated d b)
  unfolding apply_delta
  apply_delta-fits h j = ground arith

  pub apply_delta_cases :
      (P : Result (Unit {0}) × LocalOrderBook F → Type 0)
      → (b.synced ≡ false → P (raised desync_error, b))
      → (b.synced ≡ true → judge d.sequence b.sequence d.prev_sequence ≡ stale → P (ok tt, b))
      → P (raised desync_error, broken)
      → (b.synced ≡ true
          → judge d.sequence b.sequence d.prev_sequence ≡ fits
          → P (ok tt, updated d b))
      → P (apply_delta d b)
  apply_delta_cases P lost old hole new = elim (Bool-cases b.synced) [
    | inr h ↦ subst P (sym (apply_delta-unsynced h)) (lost h)
    | inl h ↦ elim (Verdict-cases (judge d.sequence b.sequence d.prev_sequence)) [
      | inl j ↦ subst P (sym (apply_delta-stale h j)) (old h j)
      | inr (inl j) ↦ subst P (sym (apply_delta-gap h j)) hole
      | inr (inr j) ↦ subst P (sym (apply_delta-fits h j)) (new h j)
    ]
  ]

module _ {F : Type 0} ⦃fl : Float F⦄ (order : IsOrdered F) where
  trim-IsBook : (b : LocalOrderBook F) → IsSide b.bids → IsSide b.asks → IsBook (trim b)
  unfolding trim
  trim-IsBook b u v =
      let (bids, deep) = trim_side-IsSide order buy b.max_depth b.bids u in
      let (asks, far) = trim_side-IsSide order sell b.max_depth b.asks v in
      record { bids = bids; asks = asks; bid_depth = deep; ask_depth = far }

  apply_delta-IsBook :
      (d : BookDelta F) (b : LocalOrderBook F) → IsBook b → IsBook (apply_delta d b).1
  unfolding updated
  apply_delta-IsBook d b v =
      apply_delta_cases d b (λ r. IsBook r.1) (λ _. v) (λ _ _. v)
        (record { bids = v.bids; asks = v.asks; bid_depth = v.bid_depth; ask_depth = v.ask_depth })
        (λ _ _.
          trim-IsBook _ (set_levels-IsSide order d.bids b.bids v.bids)
            (set_levels-IsSide order d.asks b.asks v.asks))

  step-IsBook : (m : Message F) (b : LocalOrderBook F) → IsBook b → IsBook (step b m)
  unfolding step apply_snapshot invalidate
  step-IsBook (snapshots s) b v =
      trim-IsBook _ (load-IsSide order s.bids [] tt) (load-IsSide order s.asks [] tt)
  step-IsBook (deltas d) b v = apply_delta-IsBook d b v
  step-IsBook invalidates b v = record {
    bids = v.bids;
    asks = v.asks;
    bid_depth = v.bid_depth;
    ask_depth = v.ask_depth;
  }

  run-IsBook : (ms : List (Message F)) (b : LocalOrderBook F) → IsBook b → IsBook (run b ms)
  unfolding run
  run-IsBook [] b v = v
  run-IsBook (m ∷ ms) b v = run-IsBook ms (step b m) (step-IsBook m b v)

  snapshot-strictly :
      (now : ℕ) (depth : Option ℕ) (b : LocalOrderBook F)
      → IsBook b
      → (strictly buy (snapshot now depth b).bids ≡ true)
        × (strictly sell (snapshot now depth b).asks ≡ true)
  unfolding snapshot levels
  snapshot-strictly now depth b v = (
    strictly-take order buy (or_default depth b.max_depth) _
        (strictly-sorted order buy b.bids v.bids),
    strictly-take order sell (or_default depth b.max_depth) _
        (strictly-sorted order sell b.asks v.asks),
  )

  -- Prices being ordered, after any feed of a new book each side stores a price once, only positive
  -- sizes and no more levels than the depth; and every snapshot taken then, at any depth, passes the
  -- validators: bids strictly descending, asks strictly ascending.
  pub run-new_book-IsBook :
      (venue symbol : String) (max_depth : ℕ) (ms : List (Message F)) (now : ℕ) (depth : Option ℕ)
      → let b = run (new_book venue symbol max_depth) ms in
        IsBook b
        × (strictly buy (snapshot now depth b).bids ≡ true)
        × (strictly sell (snapshot now depth b).asks ≡ true)
  run-new_book-IsBook venue symbol max_depth ms now depth =
      let v =
        run-IsBook ms (new_book venue symbol max_depth)
          (record { bids = tt; asks = tt; bid_depth = omega arith; ask_depth = omega arith }) in
      let (b, a) = snapshot-strictly now depth _ v in (v, b, a)
