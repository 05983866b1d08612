-- ===== src/Book.antt =====
-- agents/tidal/book.py: the local order book of one venue and symbol; with `PriceLevel` and
-- `OrderBookSnapshot` of core/models/market.py and `BookDelta` of venues/base/messages.py. A side is
-- a dict from prices to sizes: an association list in insertion order, its keys compared as floats.
pub mod Sides
pub mod Best
pub mod Feed
pub mod Sequence
pub mod Load
mod Tests
use octopush.Prelude.{
  ℕ, ◌+◌, String, Bool, true, false, not, ◌&&◌, Option, none, some, List, [], ◌∷◌, map, take,
  length, is_nil, ltb, leb, ◌==◌, if◌then◌else◌,
}
use octopush.Prelude.Float.{Float, ◌⊗◌, ◌⋖◌, ◌⩽◌, zero_float, max_float, min_float}
use octopush.Prelude.Action.{Action, ok, raised, desync_error}
use octopush.Order.{Side, buy, sell}

pub record PriceLevel (F : Type 0) : Type 0 where
  pub price : F
  pub size : F

abbrev pub Levels : Type 0 → Type 0
Levels F = List (PriceLevel F)

pub record OrderBookSnapshot (F : Type 0) : Type 0 where
  pub venue : String
  pub symbol : String
  pub exchange_ts : ℕ
  pub received_ts : ℕ
  pub sequence : Option ℕ
  pub bids : Levels F
  pub asks : Levels F
  pub is_checkpoint : Bool

pub record BookDelta (F : Type 0) : Type 0 where
  pub venue : String
  pub symbol : String
  pub exchange_ts : ℕ
  pub received_ts : ℕ
  pub sequence : Option ℕ
  pub prev_sequence : Option ℕ
  pub bids : Levels F
  pub asks : Levels F

pub record LocalOrderBook (F : Type 0) : Type 0 where
  pub venue : String
  pub symbol : String
  pub max_depth : ℕ
  pub bids : Levels F
  pub asks : Levels F
  pub sequence : Option ℕ
  pub exchange_ts : Option ℕ
  pub last_update_ts : Option ℕ
  pub synced : Bool
  pub sequence_gaps : ℕ
  pub updates_applied : ℕ
  pub needs_resync : Bool

abbrev pub new_book : {F : Type 0} → String → String → ℕ → LocalOrderBook F
new_book venue symbol max_depth = record {
  venue = venue;
  symbol = symbol;
  max_depth = max_depth;
  bids = [];
  asks = [];
  sequence = none;
  exchange_ts = none;
  last_update_ts = none;
  synced = false;
  sequence_gaps = 0;
  updates_applied = 0;
  needs_resync = false;
}

-- `x or default` of an optional number: zero counts as unset.
abbrev pub or_default : Option ℕ → ℕ → ℕ
or_default none d = d
or_default (some n) d = if n == 0 then d else n

-- What `apply_delta` does with an update, by the two sequence numbers.
pub data Verdict : Type 0 where
  stale gap fits : Verdict

abbrev pub judge_newer : ℕ → Option ℕ → Verdict
judge_newer held none = fits
judge_newer held (some expected) = if expected == held then fits else gap

unfoldable pub judge : Option ℕ → Option ℕ → Option ℕ → Verdict
judge none held expected = fits
judge (some n) none expected = fits
judge (some n) (some held) expected = if leb n held then stale else judge_newer held expected

abbrev pub newer : Option ℕ → Option ℕ → Option ℕ
newer none held = held
newer (some n) held = some n

module _ {F : Type 0} ⦃fl : Float F⦄ where
  -- `side[price] = size`
  abbrev pub put : PriceLevel F → Levels F → Levels F
  put l [] = l ∷ []
  put l (m ∷ ms) = if fl.same m.price l.price then record m { size = l.size } ∷ ms else m ∷ put l ms

  -- `side.pop(price, None)`
  abbrev pub drop_price : F → Levels F → Levels F
  drop_price p [] = []
  drop_price p (m ∷ ms) = if fl.same m.price p then ms else m ∷ drop_price p ms

  -- `_set`
  unfoldable pub set_level : Levels F → PriceLevel F → Levels F
  set_level side l = if l.size ⩽ zero_float then drop_price l.price side else put l side

  unfoldable pub set_levels : Levels F → Levels F → Levels F
  set_levels side [] = side
  set_levels side (l ∷ ls) = set_levels (set_level side l) ls

  -- `{level.price: level.size for level in levels if level.size > 0}`, on top of a side
  unfoldable pub load : Levels F → Levels F → Levels F
  load side [] = side
  load side (l ∷ ls) = load (if zero_float ⋖ l.size then put l side else side) ls

  -- A side in the order of its prices, the best first: `sorted`, reversed for bids.
  abbrev pub better : Side → F → F → Bool
  better buy p q = q ⋖ p
  better sell p q = p ⋖ q

  unfoldable pub place : Side → PriceLevel F → Levels F → Levels F
  place s l [] = l ∷ []
  place s l (m ∷ ms) =
      let rest = place s l ms in if better s m.price l.price then m ∷ rest else l ∷ m ∷ ms

  unfoldable pub sorted : Side → Levels F → Levels F
  sorted s [] = []
  sorted s (l ∷ ls) = place s l (sorted s ls)

  -- One side of `_trim`
  unfoldable pub trim_side : Side → ℕ → Levels F → Levels F
  trim_side s max_depth side =
      if ltb max_depth (length side) then take max_depth (sorted s side) else side

  unfoldable pub trim : LocalOrderBook F → LocalOrderBook F
  trim b = record b {
    bids = trim_side buy b.max_depth b.bids;
    asks = trim_side sell b.max_depth b.asks;
  }

  unfoldable pub apply_snapshot : OrderBookSnapshot F → LocalOrderBook F → LocalOrderBook F
  apply_snapshot snapshot b = trim (record b {
    bids = load [] snapshot.bids;
    asks = load [] snapshot.asks;
    sequence = snapshot.sequence;
    exchange_ts = some snapshot.exchange_ts;
    last_update_ts = some snapshot.received_ts;
    synced = true;
    needs_resync = false;
    updates_applied = b.updates_applied + 1;
  })

  -- The end of `apply_delta`, where the update is applied.
  unfoldable pub updated : BookDelta F → LocalOrderBook F → LocalOrderBook F
  updated delta b = trim (record b {
    bids = set_levels b.bids delta.bids;
    asks = set_levels b.asks delta.asks;
    sequence = newer delta.sequence b.sequence;
    exchange_ts = some delta.exchange_ts;
    last_update_ts = some delta.received_ts;
    updates_applied = b.updates_applied + 1;
  })

  unfoldable pub apply_delta : BookDelta F → Action (LocalOrderBook F) (Unit {0})
  apply_delta delta b =
      if not b.synced
      then (raised desync_error, b)
      else elim (judge delta.sequence b.sequence delta.prev_sequence) [
        | stale ↦ (ok tt, b)
        | gap ↦ (
          raised desync_error,
          record b { sequence_gaps = b.sequence_gaps + 1; synced = false; needs_resync = true },
        )
        | fits ↦ (ok tt, updated delta b)
      ]

  unfoldable pub invalidate : LocalOrderBook F → LocalOrderBook F
  invalidate b = record b { synced = false; needs_resync = true }

  -- The best price of a side: `max` of the bids, `min` of the asks.
  abbrev pub best_of : Side → F → Levels F → F
  best_of s p [] = p
  best_of s p (m ∷ ms) = best_of s (if better s m.price p then m.price else p) ms

  abbrev pub best : Side → Levels F → Option F
  best s [] = none
  best s (m ∷ ms) = some (best_of s m.price ms)

  abbrev pub side_of : Side → LocalOrderBook F → Levels F
  side_of buy b = b.bids
  side_of sell b = b.asks

  unfoldable pub best_bid : LocalOrderBook F → Option F
  best_bid b = best buy b.bids

  unfoldable pub best_ask : LocalOrderBook F → Option F
  best_ask b = best sell b.asks

  abbrev pub meets : Option F → Option F → Bool
  meets none ask = false
  meets (some bid) none = false
  meets (some bid) (some ask) = ask ⩽ bid

  unfoldable pub crossed : LocalOrderBook F → Bool
  crossed b = meets (best_bid b) (best_ask b)

  unfoldable pub usable : LocalOrderBook F → Bool
  usable b = b.synced && not (crossed b) && not (is_nil b.bids) && not (is_nil b.asks)

  abbrev limited : Option ℕ → Levels F → Levels F
  limited none ls = ls
  limited (some depth) ls = take depth ls

  unfoldable pub levels : Side → Option ℕ → LocalOrderBook F → Levels F
  levels s depth b = limited depth (sorted s (side_of s b))

  unfoldable pub snapshot : ℕ → Option ℕ → LocalOrderBook F → OrderBookSnapshot F
  snapshot now depth b = record {
    venue = b.venue;
    symbol = b.symbol;
    exchange_ts = or_default b.exchange_ts now;
    received_ts = or_default b.last_update_ts now;
    sequence = b.sequence;
    bids = levels buy (some (or_default depth b.max_depth)) b;
    asks = levels sell (some (or_default depth b.max_depth)) b;
    is_checkpoint = true;
  }

  -- `b.price >= a.price` of bids, `b.price <= a.price` of asks
  abbrev pub out_of_order : Side → F → F → Bool
  out_of_order buy a b = a ⩽ b
  out_of_order sell a b = b ⩽ a

  -- The validators `_bids_descending` and `_asks_ascending`: whether they let the levels pass.
  unfoldable pub strictly : Side → Levels F → Bool
  strictly s [] = true
  strictly s (l ∷ []) = true
  strictly s (l ∷ m ∷ ms) =
      let rest = strictly s (m ∷ ms) in if out_of_order s l.price m.price then false else rest
