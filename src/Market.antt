-- ===== src/Market.antt =====
-- core/models/market.py: the metrics and states that TIDAL publishes and execution reads. Books and
-- levels are those of Book.antt.
use octopush.Prelude.{ℕ, String, Bool, Option, none, some, List, filterb, str_eq, if◌then◌else◌}
use octopush.Prelude.Int.{ℤ, pos, ◌-ℤ◌}
use octopush.Prelude.Dict.{Dict, lookup, values}
use octopush.Prelude.Float.{Float, ◌⊕◌, ◌⊖◌, ◌⊘◌, ◌⩽◌, zero_float}
use octopush.Position.{position_key}
use octopush.Book.{OrderBookSnapshot}
use octopush.Consensus.{DataQuality}

pub record BookMetrics (F : Type 0) : Type 0 where
  pub best_bid : Option F
  pub best_ask : Option F
  pub mid : Option F
  pub microprice : Option F
  pub spread : Option F
  pub spread_bps : Option F
  pub bid_depth_notional : F
  pub ask_depth_notional : F
  pub bid_depth_by_bps : Dict F
  pub ask_depth_by_bps : Dict F
  pub imbalance : F
  pub short_vol_bps : F
  pub buy_volume : F
  pub sell_volume : F

module _ {F : Type 0} ⦃fl : Float F⦄ where
  abbrev pub trade_flow_imbalance : BookMetrics F → F
  trade_flow_imbalance m =
      let total = m.buy_volume ⊕ m.sell_volume in
      if total ⩽ zero_float then zero_float else (m.buy_volume ⊖ m.sell_volume) ⊘ total

pub record VenueMarketState (F : Type 0) : Type 0 where
  pub venue : String
  pub symbol : String
  pub metrics : BookMetrics F
  pub book : Option (OrderBookSnapshot F)
  pub exchange_ts : Option ℕ
  pub last_update_ts : Option ℕ
  pub as_of : ℕ
  pub quality : DataQuality
  pub latency_ms : Option F
  pub connected : Bool
  pub sequence_gaps : ℕ
  pub reconnects : ℕ

-- A clock that went back gives a negative age.
abbrev pub age_ms : {F : Type 0} → VenueMarketState F → Option ℤ
age_ms s = elim s.last_update_ts [ none ↦ none | some at ↦ some (pos s.as_of -ℤ pos at) ]

pub record ConsolidatedView (F : Type 0) : Type 0 where
  pub symbol : String
  pub as_of : ℕ
  pub reference_price : Option F
  pub best_bid : Option F
  pub best_bid_venue : Option String
  pub best_ask : Option F
  pub best_ask_venue : Option String
  pub cross_venue_spread_bps : Option F
  pub max_deviation_bps : Option F
  pub max_deviation_venue : Option String
  pub quality : DataQuality
  pub usable_venues : List String

pub record MarketState (F : Type 0) : Type 0 where
  pub created_at : ℕ
  pub source_data_timestamp : Option ℕ
  pub venues : Dict (VenueMarketState F)
  pub consolidated : Dict (ConsolidatedView F)

module _ {F : Type 0} where
  abbrev pub venue_state : String → String → MarketState F → Option (VenueMarketState F)
  venue_state venue symbol m = lookup (position_key venue symbol) m.venues

  abbrev pub states_for : String → MarketState F → List (VenueMarketState F)
  states_for symbol m = filterb (λ s. str_eq s.symbol symbol) (values m.venues)
