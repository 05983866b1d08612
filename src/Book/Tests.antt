-- ===== src/Book/Tests.antt =====
-- Runs of a local order book, and its theorems at concrete books.
use octopush.Prelude.{
  ℕ, ap, ◌+◌, ◌≡◌, refl, true, false, not, none, some, List, [], ◌∷◌, arith, All,
}
use octopush.Prelude.Int.{ℤ, pos, negsuc, ltb_ℤ, leb_ℤ}
use octopush.Prelude.Float.{fixed_point, ◌⋖◌}
use octopush.Prelude.Action.{ok}
use octopush.Order.{buy, sell}
use octopush.Book.{
  PriceLevel, OrderBookSnapshot, BookDelta, LocalOrderBook, new_book, load, set_level, set_levels,
  trim, trim_side, place, sorted, apply_snapshot, judge, updated, apply_delta, best_bid, best_ask,
  crossed, usable, levels, snapshot, strictly,
}
use octopush.Book.Sides.{IsOrdered}
use octopush.Book.Feed.{Message, snapshots, deltas, run, IsBook, run-new_book-IsBook}
use octopush.Book.Sequence.{apply_deltas, AllDesynced, apply_deltas-gap, apply_delta-twice}
use octopush.Book.Best.{usable-separated}
use octopush.Book.Load.{levels-apply_snapshot}
use octopush.Samples.{units}

fixed_point-IsOrdered : IsOrdered ℤ
fixed_point-IsOrdered = record {
  irreflexive = irreflexive;
  transitive = transitive;
  connected = connected;
  same = same;
  at_most = at_most;
}
  where
    irreflexive : (x : ℤ) → ltb_ℤ x x ≡ false
    irreflexive (pos n) = ground arith
    irreflexive (negsuc n) = ground arith

    transitive : (x y z : ℤ) → ltb_ℤ x y ≡ true → ltb_ℤ y z ≡ true → ltb_ℤ x z ≡ true
    transitive x y z a b = ground arith

    connected : (x y : ℤ) → fixed_point.same x y ≡ false → ltb_ℤ x y ≡ false → ltb_ℤ y x ≡ true
    connected x y d h = ground arith

    same : (x y : ℤ) → fixed_point.same x y ≡ true → x ≡ y
    same (pos m) (pos n) h = ap pos (ground arith)
    same (pos m) (negsuc n) h = ground arith
    same (negsuc m) (pos n) h = ground arith
    same (negsuc m) (negsuc n) h = ap negsuc (ground arith)

    at_most : (x y : ℤ) → leb_ℤ x y ≡ not (ltb_ℤ y x)
    at_most x y = ground arith

abbrev level : ℕ → ℕ → PriceLevel ℤ
level price size = record { price = units price; size = units size }

abbrev first_snapshot : OrderBookSnapshot ℤ
first_snapshot = record {
  venue = "A";
  symbol = "BTC-USD";
  exchange_ts = 10;
  received_ts = 11;
  sequence = some 7;
  bids = level 100 1 ∷ level 99 2 ∷ [];
  asks = level 101 1 ∷ level 103 2 ∷ [];
  is_checkpoint = true;
}

abbrev delta_of : ℕ → ℕ → BookDelta ℤ
delta_of sequence prev = record {
  venue = "A";
  symbol = "BTC-USD";
  exchange_ts = 20;
  received_ts = 21;
  sequence = some sequence;
  prev_sequence = some prev;
  bids = level 98 4 ∷ level 100 0 ∷ [];
  asks = level 102 3 ∷ [];
}

abbrev opened : LocalOrderBook ℤ
opened = apply_snapshot first_snapshot (new_book "A" "BTC-USD" 2)

-- The best bid is taken away, and the asks are cut to the two best.
after_delta :
    ((apply_delta (delta_of 8 7) opened).1.bids ≡ level 99 2 ∷ level 98 4 ∷ [])
    × ((apply_delta (delta_of 8 7) opened).1.asks ≡ level 101 1 ∷ level 102 3 ∷ [])
unfolding apply_delta apply_snapshot updated trim trim_side load set_levels set_level judge sorted
    place
after_delta = (refl, refl)

abbrev feed : List (Message ℤ)
feed = snapshots first_snapshot ∷ deltas (delta_of 8 7) ∷ deltas (delta_of 10 9) ∷ []

run-new_book-IsBook_example :
    let b = run (new_book "A" "BTC-USD" 2) feed in
    IsBook b
    × (strictly buy (snapshot 30 none b).bids ≡ true)
    × (strictly sell (snapshot 30 none b).asks ≡ true)
run-new_book-IsBook_example = run-new_book-IsBook fixed_point-IsOrdered "A" "BTC-USD" 2 feed 30 none

apply_deltas-gap_example :
    let r = apply_deltas (delta_of 10 9 ∷ delta_of 11 10 ∷ []) opened in
    AllDesynced r.0
    × (r.1 ≡ record opened {
      sequence_gaps = opened.sequence_gaps + 1;
      synced = false;
      needs_resync = true;
    })
unfolding apply_snapshot trim
apply_deltas-gap_example =
    apply_deltas-gap (delta_of 10 9) (delta_of 11 10 ∷ []) opened 10 7 9 refl refl refl refl
      (omega arith) refl

delta_applied : (apply_delta (delta_of 8 7) opened).0 ≡ ok tt
unfolding apply_delta apply_snapshot trim judge
delta_applied = refl

apply_delta-twice_example :
    let b = (apply_delta (delta_of 8 7) opened).1 in apply_delta (delta_of 8 7) b ≡ (ok tt, b)
apply_delta-twice_example = apply_delta-twice (delta_of 8 7) opened 8 refl delta_applied

opened-usable : usable opened ≡ true
unfolding usable crossed best_bid best_ask apply_snapshot trim trim_side load
opened-usable = refl

usable-separated_example :
    All (λ bid. All (λ ask. (bid.price ⋖ ask.price) ≡ true) opened.asks) opened.bids
usable-separated_example = usable-separated fixed_point-IsOrdered opened opened-usable

levels-apply_snapshot_example :
    let b = apply_snapshot first_snapshot (new_book "A" "BTC-USD" 2) in
    (levels buy none b ≡ first_snapshot.bids)
    × (levels sell none b ≡ first_snapshot.asks)
    × (b.synced ≡ true)
    × (b.needs_resync ≡ false)
    × (b.sequence ≡ first_snapshot.sequence)
unfolding strictly
levels-apply_snapshot_example =
    levels-apply_snapshot fixed_point-IsOrdered first_snapshot (new_book "A" "BTC-USD" 2) refl refl
      (refl, (refl, tt)) (refl, (refl, tt)) (omega arith) (omega arith)
