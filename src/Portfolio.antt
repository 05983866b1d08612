-- ===== src/Portfolio.antt =====
-- `PortfolioState` of core/models/portfolio.py, and `snapshot` of execution/paper/account.py, which
-- makes one.
use octopush.Prelude.{ℕ, String, Option, List, [], ◌∷◌, map, if◌then◌else◌}
use octopush.Prelude.Dict.{Dict, insert, get_or, values}
use octopush.Prelude.Float.{Float, ◌⊕◌, ◌⊖◌, ◌⊘◌, ◌⩽◌, zero_float, max_float}
use octopush.Position.{PositionState, notional, signed_notional, unrealized_pnl}
use octopush.Account.{PaperAccount}
use octopush.Account

pub record PortfolioState (F : Type 0) : Type 0 where
  pub created_at : ℕ
  pub initial_balance : F
  pub cash : F
  pub positions : Dict (PositionState F)
  pub realized_pnl : F
  pub fees_paid : F
  pub peak_equity : F
  pub day_realized_pnl : F
  pub day_started_at : Option ℕ

module _ {F : Type 0} ⦃fl : Float F⦄ where
  unfoldable pub unrealized : PortfolioState F → F
  unrealized s = fl.sum (map unrealized_pnl (values s.positions))

  unfoldable pub gross_pnl : PortfolioState F → F
  gross_pnl s = s.realized_pnl ⊕ unrealized s ⊕ s.fees_paid

  unfoldable pub net_pnl : PortfolioState F → F
  net_pnl s = s.realized_pnl ⊕ unrealized s

  unfoldable pub equity : PortfolioState F → F
  equity s = s.cash ⊕ fl.sum (map signed_notional (values s.positions))

  unfoldable pub gross_exposure : PortfolioState F → F
  gross_exposure s = fl.sum (map notional (values s.positions))

  unfoldable pub net_exposure : PortfolioState F → F
  net_exposure s = fl.sum (map signed_notional (values s.positions))

  unfoldable pub drawdown : PortfolioState F → F
  drawdown s = max_float zero_float (s.peak_equity ⊖ equity s)

  unfoldable pub drawdown_pct : PortfolioState F → F
  drawdown_pct s = if s.peak_equity ⩽ zero_float then zero_float else drawdown s ⊘ s.peak_equity

  -- One key's sum grows by an amount: `out[k] = out.get(k, 0.0) + amount`.
  abbrev tally : String → F → Dict F → Dict F
  tally k amount out = insert k (get_or k zero_float out ⊕ amount) out

  unfoldable pub tally_venues : List (PositionState F) → Dict F → Dict F
  tally_venues [] out = out
  tally_venues (p ∷ ps) out = tally_venues ps (tally p.venue (notional p) out)

  unfoldable pub exposure_by_venue : PortfolioState F → Dict F
  exposure_by_venue s = tally_venues (values s.positions) []

  unfoldable pub tally_symbols : List (PositionState F) → Dict F → Dict F
  tally_symbols [] out = out
  tally_symbols (p ∷ ps) out = tally_symbols ps (tally p.symbol (signed_notional p) out)

  unfoldable pub net_delta_by_symbol : PortfolioState F → Dict F
  net_delta_by_symbol s = tally_symbols (values s.positions) []

  -- `PaperAccount.snapshot`; values are copies by nature here.
  unfoldable pub snapshot : ℕ → PaperAccount F → PortfolioState F
  snapshot now a = record {
    created_at = now;
    initial_balance = a.initial_balance;
    cash = a.cash;
    positions = a.positions;
    realized_pnl = a.realized_pnl;
    fees_paid = a.fees_paid;
    peak_equity = max_float a.peak_equity (Account.equity a);
    day_realized_pnl = a.day_realized_pnl;
    day_started_at = a.day_started_at;
  }
