-- ===== src/Tidal/Tests.antt =====
-- Runs of the windows and of the metrics.
use octopush.Prelude.{◌≡◌, refl, some, [], ◌∷◌}
use octopush.Prelude.Int.{ℤ, pos}
use octopush.Prelude.Float.{fixed_point}
use octopush.Order.{buy, sell}
use octopush.Book.{LocalOrderBook, new_book, best_bid, best_ask, levels, sorted, place}
use octopush.Tidal.Windows.{TradeFlowWindow, evict, volumes, add_point}
use octopush.Tidal.{microprice, depth_within_bps, add_depth}
use octopush.Samples.{units}

abbrev flow : TradeFlowWindow ℤ
flow = record {
  window_ms = 10;
  events = (5, buy, units 1) ∷ (20, sell, units 2) ∷ (3, buy, units 4) ∷ [];
}

-- An old trade behind a newer one stays.
windowed : (volumes 20 flow).0 ≡ (units 4, units 2)
unfolding volumes evict
windowed = refl

replaced :
    add_point 5 (units 2) ((1, units 1) ∷ (5, units 1) ∷ []) ≡ (1, units 1) ∷ (5, units 2) ∷ []
unfolding add_point
replaced = refl

abbrev book : LocalOrderBook ℤ
book = record (new_book "A" "BTC-USD" 10) {
  bids =
      record { price = units 98; size = units 5 }
      ∷ record { price = units 99; size = units 1 }
      ∷ [];
  asks = record { price = units 101; size = units 3 } ∷ [];
}

-- More is asked than bid, so the price leans to the bid.
leaning : microprice book ≡ some (pos 99_500_000_000_000)
unfolding microprice best_bid best_ask sorted
leaning = refl

-- Two percent from 100 reach both bids, one percent only the first.
deep :
    (depth_within_bps book buy (units 100) (units 200) ≡ units 589)
    × (depth_within_bps book buy (units 100) (units 100) ≡ units 99)
unfolding depth_within_bps add_depth levels sorted place
deep = (refl, refl)
