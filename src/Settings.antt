-- ===== src/Settings.antt =====
-- core/config/settings.py: the fee schedule of a venue and the limits of RUNE-CORE, with the checks
-- that the model runs when it is made, the venues and the settings of execution.
use octopush.Prelude.{ℕ, String, Bool, not, ◌&&◌, Option, List, [], ◌∷◌, str_eq, if◌then◌else◌}
use octopush.Prelude.Action.{Result, ok, raised, key_error}
use octopush.Prelude.Float.{Float, ◌⋖◌}

pub record FeeSchedule (F : Type 0) : Type 0 where
  pub maker_bps : F
  pub taker_bps : F

abbrev pub fee_bps : {F : Type 0} → FeeSchedule F → Bool → F
fee_bps s is_maker = if is_maker then s.maker_bps else s.taker_bps

pub record RiskLimits (F : Type 0) : Type 0 where
  pub max_position_notional : F
  pub max_gross_exposure : F
  pub max_net_exposure : F
  pub max_leverage : F
  pub max_daily_loss : F
  pub max_drawdown : F
  pub max_venue_exposure : F
  pub max_strategy_exposure : F
  pub max_order_notional : F
  pub min_trade_notional : F
  pub max_unhedged_notional : F
  pub max_data_age_ms : ℕ
  pub min_expected_edge_bps : F
  pub max_error_rate : F
  pub max_open_orders : ℕ

module _ {F : Type 0} ⦃fl : Float F⦄ where
  -- `_limits_are_coherent`: whether the validator lets the limits pass.
  abbrev pub limits_are_coherent : RiskLimits F → Bool
  limits_are_coherent l =
      not (l.max_order_notional ⋖ l.min_trade_notional)
      && not (l.max_position_notional ⋖ l.max_order_notional)
      && not (l.max_gross_exposure ⋖ l.max_position_notional)

pub record VenueConfig (F : Type 0) : Type 0 where
  pub name : String
  pub display_name : String
  pub adapter : String
  pub ws_url : Option String
  pub rest_url : Option String
  pub fees : FeeSchedule F
  pub latency_ms : ℕ
  pub cancel_latency_ms : ℕ
  pub book_depth_levels : ℕ
  pub enabled : Bool
  pub symbols : List String

pub record ExecutionConfig (F : Type 0) : Type 0 where
  pub maker_fill_probability : F
  pub queue_ahead_fraction : F
  pub max_partial_fraction : F
  pub liquidity_vanish_probability : F
  pub latency_drift_bps_per_100ms : F
  pub default_order_ttl_ms : ℕ
  pub seed : ℕ

-- `Settings.venue`
abbrev pub venue_named : {F : Type 0} → String → List (VenueConfig F) → Result (VenueConfig F)
venue_named name [] = raised key_error
venue_named name (v ∷ vs) = if str_eq v.name name then ok v else venue_named name vs
