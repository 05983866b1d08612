-- ===== src/RuneCore/Utilization.antt =====
-- The use of each limit, for the dashboard: `RiskUtilization` of core/models/risk.py and
-- `utilization` of agents/rune/core.py.
use octopush.Prelude.{[], ◌∷◌, foldl, if◌then◌else◌}
use octopush.Prelude.Int.{pos}
use octopush.Prelude.Dict.{Dict}
use octopush.Prelude.Float.{Float, ◌⊘◌, ◌⩽◌, zero_float, max_float, min_float}
use octopush.Portfolio.{PortfolioState, exposure_by_venue}
use octopush.Portfolio
use octopush.Risk
use octopush.RuneCore.{RiskContext, RuneCore}

pub record RiskUtilization (F : Type 0) : Type 0 where
  pub gross_exposure : F
  pub max_gross_exposure : F
  pub net_exposure : F
  pub max_net_exposure : F
  pub day_loss : F
  pub max_day_loss : F
  pub drawdown : F
  pub max_drawdown : F
  pub unhedged_notional : F
  pub max_unhedged_notional : F
  pub venue_exposure : Dict F
  pub max_venue_exposure : F
  pub strategy_exposure : Dict F
  pub max_strategy_exposure : F

module _ {F : Type 0} ⦃fl : Float F⦄ where
  -- `_pct`
  unfoldable pub pct : F → F → F
  pct used limit =
      if limit ⩽ zero_float
      then zero_float
      else min_float (fl.of_int (pos 1)) (max_float zero_float (used ⊘ limit))

  unfoldable pub worst_utilization : RiskUtilization F → F
  worst_utilization u = foldl max_float (pct u.gross_exposure u.max_gross_exposure) (
      pct (fl.absolute u.net_exposure) u.max_net_exposure
      ∷ pct u.day_loss u.max_day_loss
      ∷ pct u.drawdown u.max_drawdown
      ∷ pct u.unhedged_notional u.max_unhedged_notional
      ∷ [])

  unfoldable pub utilization :
      RuneCore F → PortfolioState F → RiskContext F → Dict F → RiskUtilization F
  utilization core p ctx strategy_exposure = record {
    gross_exposure = Portfolio.gross_exposure p;
    max_gross_exposure = core.limits.max_gross_exposure;
    net_exposure = Portfolio.net_exposure p;
    max_net_exposure = core.limits.max_net_exposure;
    day_loss = Risk.day_loss p;
    max_day_loss = core.limits.max_daily_loss;
    drawdown = Portfolio.drawdown p;
    max_drawdown = core.limits.max_drawdown;
    unhedged_notional = fl.absolute ctx.unhedged_notional;
    max_unhedged_notional = core.limits.max_unhedged_notional;
    venue_exposure = exposure_by_venue p;
    max_venue_exposure = core.limits.max_venue_exposure;
    strategy_exposure = strategy_exposure;
    max_strategy_exposure = core.limits.max_strategy_exposure;
  }
