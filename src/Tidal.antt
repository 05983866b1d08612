-- ===== src/Tidal.antt =====
-- agents/tidal/metrics.py: the metrics of one venue's book and of its recent trades, with `safe_bps` of
-- core/models/market.py. The windows are lists, oldest first. `log`, `sqrt`, `isfinite` and `**` of
-- floats are the parameter Reals.
pub mod Windows
mod Tests
use octopush.Prelude.{
  ℕ, ◌+◌, String, Bool, true, false, ◌&&◌, ◌||◌, not, Option, none, some, List, [], ◌∷◌, map,
  length, ltb, is_nil, if◌then◌else◌,
}
use octopush.Prelude.Int.{pos}
use octopush.Prelude.Dict.{Dict}
use octopush.Prelude.Float.{Float, ◌⊕◌, ◌⊖◌, ◌⊗◌, ◌⊘◌, ◌⋖◌, ◌⩽◌, zero_float}
use octopush.Order.{Side, buy, sell}
use octopush.Book.{PriceLevel, LocalOrderBook, best_bid, best_ask, crossed, levels}
use octopush.Market.{BookMetrics}
use octopush.Execution.Costs.{bps}
use octopush.Tidal.Windows.{Reals, TradeFlowWindow, MidWindow, volumes, add_mid, volatility_bps}

module _ {F : Type 0} ⦃fl : Float F⦄ where
  -- `book.bids[price]`, of a price that is there
  abbrev pub size_at : F → List (PriceLevel F) → F
  size_at price [] = zero_float
  size_at price (l ∷ ls) = if fl.same l.price price then l.size else size_at price ls

  abbrev pub weighted : F → F → F → F → Option F
  weighted bid ask bid_size ask_size =
      let total = bid_size ⊕ ask_size in
      if total ⩽ zero_float then none else some ((bid ⊗ ask_size ⊕ ask ⊗ bid_size) ⊘ total)

  abbrev pub micro_from : LocalOrderBook F → Option F → Option F → Option F
  micro_from b none ask = none
  micro_from b (some bid) none = none
  micro_from b (some bid) (some ask) = weighted bid ask (size_at bid b.bids) (size_at ask b.asks)

  -- `microprice`
  unfoldable pub microprice : LocalOrderBook F → Option F
  microprice b = micro_from b (best_bid b) (best_ask b)

  abbrev pub depth_limit : Side → F → F → F
  depth_limit buy reference within = reference ⊗ (fl.of_int (pos 1) ⊖ within ⊘ bps)
  depth_limit sell reference within = reference ⊗ (fl.of_int (pos 1) ⊕ within ⊘ bps)

  abbrev pub past : Side → F → F → Bool
  past buy price limit_price = price ⋖ limit_price
  past sell price limit_price = limit_price ⋖ price

  -- The loop of `depth_within_bps`, which stops at the first level past the limit.
  unfoldable pub add_depth : Side → F → List (PriceLevel F) → F → F
  add_depth side limit_price [] total = total
  add_depth side limit_price (l ∷ ls) total =
      let further = add_depth side limit_price ls (total ⊕ l.price ⊗ l.size) in
      if past side l.price limit_price then total else further

  -- `depth_within_bps`
  unfoldable pub depth_within_bps : LocalOrderBook F → Side → F → F → F
  depth_within_bps b side reference within =
      if reference ⩽ zero_float
      then zero_float
      else add_depth side (depth_limit side reference within) (levels side none b) zero_float

  abbrev pub depth_buckets_bps : List (String × F)
  depth_buckets_bps =
      ("1", fl.of_int (pos 1))
      ∷ ("5", fl.of_int (pos 5))
      ∷ ("10", fl.of_int (pos 10))
      ∷ ("25", fl.of_int (pos 25))
      ∷ []

  abbrev pub depth_notional : LocalOrderBook F → Side → F
  depth_notional b side = fl.sum (map (λ l. l.price ⊗ l.size) (levels side none b))

  abbrev pub depth_by_bps : LocalOrderBook F → Side → F → Dict F
  depth_by_bps b side mid = map (λ x. (x.0, depth_within_bps b side mid x.1)) depth_buckets_bps

  abbrev pub imbalance_of : F → F → F
  imbalance_of bid ask =
      let total = bid ⊕ ask in if zero_float ⋖ total then (bid ⊖ ask) ⊘ total else zero_float

  -- Volumes of a window, where there is one: zero without.
  abbrev pub flow_volumes : ℕ → Option (TradeFlowWindow F) → (F × F) × Option (TradeFlowWindow F)
  flow_volumes now none = ((zero_float, zero_float), none)
  flow_volumes now (some w) = let (v, w') = volumes now w in (v, some w')

  -- The metrics of a book without a mid.
  abbrev pub bare_metrics : Option F → Option F → F × F → BookMetrics F
  bare_metrics bid ask volume = record {
    best_bid = bid;
    best_ask = ask;
    mid = none;
    microprice = none;
    spread = none;
    spread_bps = none;
    bid_depth_notional = zero_float;
    ask_depth_notional = zero_float;
    bid_depth_by_bps = [];
    ask_depth_by_bps = [];
    imbalance = zero_float;
    short_vol_bps = zero_float;
    buy_volume = volume.0;
    sell_volume = volume.1;
  }

module _ {F : Type 0} ⦃fl : Float F⦄ ⦃re : Reals F⦄ where
  -- `safe_bps`, of a reference that is there
  unfoldable pub safe_bps : F → F → Option F
  safe_bps numerator reference =
      let scaled = numerator ⊘ reference ⊗ bps in
      if fl.same reference zero_float || not (re.is_finite reference)
      then none
      else if re.is_finite scaled
      then some scaled
      else none

  abbrev pub mid_volatility : ℕ → F → Option (MidWindow F) → F × Option (MidWindow F)
  mid_volatility now mid none = (zero_float, none)
  mid_volatility now mid (some w) =
      let (v, w') = volatility_bps now (add_mid now mid w) in (v, some w')

  -- The metrics of a book with both sides, not crossed.
  abbrev pub full_metrics : LocalOrderBook F → F → F → F × F → F → BookMetrics F
  full_metrics b bid ask volume vol =
      let mid = (bid ⊕ ask) ⊘ fl.of_int (pos 2) in
      record (bare_metrics (some bid) (some ask) volume) {
        mid = some mid;
        microprice = microprice b;
        spread = some (ask ⊖ bid);
        spread_bps = safe_bps (ask ⊖ bid) mid;
        bid_depth_notional = depth_notional b buy;
        ask_depth_notional = depth_notional b sell;
        bid_depth_by_bps = depth_by_bps b buy mid;
        ask_depth_by_bps = depth_by_bps b sell mid;
        imbalance = imbalance_of (depth_notional b buy) (depth_notional b sell);
        short_vol_bps = vol;
      }

  abbrev pub unmeasured :
      LocalOrderBook F
      → ℕ
      → Option (TradeFlowWindow F)
      → Option (MidWindow F)
      → BookMetrics F × Option (TradeFlowWindow F) × Option (MidWindow F)
  unmeasured b now flow mids =
      let (volume, flow') = flow_volumes now flow in
      (bare_metrics (best_bid b) (best_ask b) volume, flow', mids)

  abbrev pub measured :
      LocalOrderBook F
      → ℕ
      → Option (TradeFlowWindow F)
      → Option (MidWindow F)
      → Option F
      → Option F
      → BookMetrics F × Option (TradeFlowWindow F) × Option (MidWindow F)
  measured b now flow mids none ask = unmeasured b now flow mids
  measured b now flow mids (some bid) none = unmeasured b now flow mids
  measured b now flow mids (some bid) (some ask) =
      let (volume, flow') = flow_volumes now flow in
      let (vol, mids') = mid_volatility now ((bid ⊕ ask) ⊘ fl.of_int (pos 2)) mids in
      if crossed b
      then unmeasured b now flow mids
      else (full_metrics b bid ask volume vol, flow', mids')

  -- `compute_metrics`, with the windows as it leaves them
  unfoldable pub compute_metrics :
      LocalOrderBook F
      → ℕ
      → Option (TradeFlowWindow F)
      → Option (MidWindow F)
      → BookMetrics F × Option (TradeFlowWindow F) × Option (MidWindow F)
  compute_metrics b now flow mids = measured b now flow mids (best_bid b) (best_ask b)
