-- ===== src/RuneCore/Permission.antt =====
-- What the gates of risk/limits ask of an intent, said in the terms of the limits and the context.
use octopush.Prelude.{ℕ, ◌≤◌, ◌+◌, ◌≡◌, true, false, Option, some}
use octopush.Prelude.Dict.{lookup}
use octopush.Prelude.Float.{Float, ◌⊕◌, ◌⋖◌, ◌⩽◌, zero_float}
use octopush.Portfolio.{gross_exposure, equity, drawdown, exposure_by_venue}
use octopush.Health.{HealthState, SystemHealth, healthy, required_ok}
use octopush.KillSwitch.{trading_allowed}
use octopush.Settings.{RiskLimits}
use octopush.Opportunity.{TradeIntent}
use octopush.Risk.{
  worst_position, worst_venue, deployed, projected_net, projected_leverage, day_loss,
}
use octopush.RuneCore.{RiskContext}

-- There is a health snapshot, with every required component and the execution agent healthy.
abbrev pub IsHealthy : {F : Type 0} → RiskContext F → Type 0
IsHealthy ctx =
    (h : SystemHealth) × (ctx.health ≡ some h)
    × (required_ok h ctx.required_components ≡ true)
    × ((veska : HealthState) × (lookup "VESKA" h.components ≡ some veska)
        × (veska.status ≡ healthy))

-- The intent says how old its market data is, and the data is recent enough.
abbrev pub IsFresh : {F : Type 0} → RiskLimits F → TradeIntent F → ℕ → Type 0
IsFresh limits intent now =
    (at : ℕ) × (intent.source_data_timestamp ≡ some at) × (now ≤ at + limits.max_data_age_ms)

module _ {F : Type 0} ⦃fl : Float F⦄ where
  -- A sizing curve is there, and its largest economical size is no smaller than the intent.
  abbrev pub IsLiquid : Option F → TradeIntent F → Type 0
  IsLiquid economical intent = (n : F) × (economical ≡ some n) × ((intent.notional ⩽ n) ≡ true)

-- What every gate asks of an intent, in the terms of the limits.
pub record IsPermitted {F : Type 0} ⦃fl : Float F⦄ (limits : RiskLimits F) (intent : TradeIntent F)
    (ctx : RiskContext F) (now : ℕ) : Type 0 where
  pub trading : trading_allowed ctx.kill_switch ≡ true
  pub system : IsHealthy ctx
  pub complete : ctx.consensus_complete ≡ true
  pub consensus : (ctx.consensus_threshold ⩽ intent.consensus_agreement) ≡ true
  pub fresh : IsFresh limits intent now
  pub in_time : now ≤ intent.deadline_ms
  pub edge : (limits.min_expected_edge_bps ⩽ intent.expected_net_edge_bps) ≡ true
  pub liquid : IsLiquid ctx.max_economical_notional intent
  pub hedged : ctx.hedge_available ≡ true
  pub order : (intent.notional ⩽ limits.max_order_notional) ≡ true
  pub position :
      (worst_position intent.legs zero_float intent.notional ctx.portfolio
        ⩽ limits.max_position_notional)
      ≡ true
  pub gross : (gross_exposure ctx.portfolio ⊕ deployed intent ⩽ limits.max_gross_exposure) ≡ true
  pub net : (projected_net intent ctx.portfolio ⩽ limits.max_net_exposure) ≡ true
  pub solvent : (equity ctx.portfolio ⩽ zero_float) ≡ false
  pub leverage : (projected_leverage intent ctx.portfolio ⩽ limits.max_leverage) ≡ true
  pub venue :
      (worst_venue intent.legs zero_float intent.notional (exposure_by_venue ctx.portfolio)
        ⩽ limits.max_venue_exposure)
      ≡ true
  pub strategy : (ctx.strategy_exposure ⊕ deployed intent ⩽ limits.max_strategy_exposure) ≡ true
  pub loss : (day_loss ctx.portfolio ⋖ limits.max_daily_loss) ≡ true
  pub decline : (drawdown ctx.portfolio ⋖ limits.max_drawdown) ≡ true
  pub unhedged : (fl.absolute ctx.unhedged_notional ⩽ limits.max_unhedged_notional) ≡ true
  pub open_orders : ctx.open_orders + 1 ≤ limits.max_open_orders
  pub errors : (ctx.error_rate ⩽ limits.max_error_rate) ≡ true
