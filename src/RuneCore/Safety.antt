-- ===== src/RuneCore/Safety.antt =====
-- The gates of risk/limits pass, one and all, exactly where an intent is permitted.
use octopush.Prelude.{
  ℕ, ◌≡◌, refl, true, false, Option, none, some, List, [], ◌∷◌, filterb, All, arith, inl, inr,
  Option-cases,
}
use octopush.Prelude.Dict.{lookup}
use octopush.Prelude.Float.{Float}
use octopush.Health.{
  HealthState, SystemHealth, HealthStatus, healthy, degraded, offline, is_healthy,
}
use octopush.Settings.{RiskLimits}
use octopush.Opportunity.{TradeIntent}
use octopush.Risk.{
  GateCheck, blocking, gate_kill_switch, gate_system_health, gate_execution_health, gate_consensus,
  gate_data_age, gate_deadline, gate_min_edge, gate_liquidity, gate_hedge_available,
  gate_order_notional, gate_position_notional, gate_gross_exposure, gate_net_exposure,
  gate_leverage, gate_venue_exposure, gate_strategy_exposure, gate_daily_loss, gate_drawdown,
  gate_unhedged, gate_open_orders, gate_error_rate,
}
use octopush.RuneCore.{RiskContext, checks}
use octopush.RuneCore.Permission.{IsHealthy, IsFresh, IsLiquid, IsPermitted}

-- A pair, written so that a list of proofs stays flat.
infixr 20 ◌⨾◌
◌⨾◌ : {A B : Type 0} → A → B → A × B
a ⨾ b = (a, b)

abbrev pub Passes : {F : Type 0} → GateCheck F → Type 0
Passes c = blocking c ≡ false

healthy_status : (s : HealthStatus) → is_healthy s ≡ true → s ≡ healthy
healthy_status healthy h = refl
healthy_status degraded h = cc
healthy_status offline h = cc

module _ {F : Type 0} ⦃fl : Float F⦄ where
  pub Passes-nil : (cs : List (GateCheck F)) → filterb blocking cs ≡ [] → All Passes cs
  Passes-nil [] h = tt
  Passes-nil (c ∷ cs) h = ground (arith, Passes-nil cs)

  pub nil-Passes : (cs : List (GateCheck F)) → All Passes cs → filterb blocking cs ≡ []
  nil-Passes [] h = refl
  nil-Passes (c ∷ cs) h = ground (arith, nil-Passes cs h.1)

  veska-Passes :
      (ctx : RiskContext F) (h : SystemHealth)
      → ctx.health ≡ some h
      → Passes (gate_execution_health {F = F} ctx.health)
      → (veska : HealthState) × (lookup "VESKA" h.components ≡ some veska)
        × (veska.status ≡ healthy)
  unfolding blocking gate_execution_health
  veska-Passes ctx h e p = elim (Option-cases (lookup "VESKA" h.components)) [
    | inl missing ↦ cc (rw (e, missing) at p)
    | inr (veska, found) ↦ (veska, found, healthy_status veska.status (ground arith))
  ]

  system-Passes :
      (ctx : RiskContext F)
      → Passes (gate_system_health {F = F} ctx.health ctx.required_components)
      → Passes (gate_execution_health {F = F} ctx.health)
      → IsHealthy ctx
  unfolding blocking gate_system_health
  system-Passes ctx s e = elim (Option-cases ctx.health) [
    | inl missing ↦ ground arith
    | inr (h, found) ↦ (h, found, ground arith, veska-Passes ctx h found e)
  ]

  fresh-Passes :
      (limits : RiskLimits F) (intent : TradeIntent F) (now : ℕ)
      → Passes (gate_data_age intent limits now)
      → IsFresh limits intent now
  unfolding blocking gate_data_age
  fresh-Passes limits intent now p = elim (Option-cases intent.source_data_timestamp) [
    | inl missing ↦ ground arith
    | inr (at, e) ↦ (at, e, ground arith)
  ]

  IsLiquid-gate_liquidity :
      (economical : Option F) (intent : TradeIntent F)
      → Passes (gate_liquidity economical intent)
      → IsLiquid economical intent
  unfolding blocking gate_liquidity
  IsLiquid-gate_liquidity none intent p = ground arith
  IsLiquid-gate_liquidity (some n) intent p = (n, refl, ground arith)

  pub Passes-IsPermitted :
      (limits : RiskLimits F) (intent : TradeIntent F) (ctx : RiskContext F) (now : ℕ)
      → All Passes (checks limits intent ctx now)
      → IsPermitted limits intent ctx now
  unfolding checks blocking gate_kill_switch gate_system_health gate_execution_health gate_consensus
      gate_data_age gate_deadline gate_min_edge gate_liquidity gate_hedge_available
      gate_order_notional gate_position_notional gate_gross_exposure gate_net_exposure gate_leverage
      gate_venue_exposure gate_strategy_exposure gate_daily_loss gate_drawdown gate_unhedged
      gate_open_orders gate_error_rate
  Passes-IsPermitted limits intent ctx now
        (
          kill,
          (
            sys,
            (
              exec,
              (
                cons,
                (
                  age,
                  (
                    dead,
                    (
                      edge,
                      (
                        liq,
                        (
                          hedge,
                          (
                            ord,
                            (
                              pos,
                              (
                                gross,
                                (net, (lev, (ven, (strat, (loss, (dd, (unh, (oo, (err, _))))))))),
                              ),
                            ),
                          ),
                        ),
                      ),
                    ),
                  ),
                ),
              ),
            ),
          ),
        ) =
      record {
        trading = ground arith;
        system = system-Passes ctx sys exec;
        complete = ground arith;
        consensus = ground arith;
        fresh = fresh-Passes limits intent now age;
        in_time = ground arith;
        edge = ground arith;
        liquid = IsLiquid-gate_liquidity ctx.max_economical_notional intent liq;
        hedged = ground arith;
        order = ground arith;
        position = ground arith;
        gross = ground arith;
        net = ground arith;
        solvent = ground arith;
        leverage = ground arith;
        venue = ground arith;
        strategy = ground arith;
        loss = ground arith;
        decline = ground arith;
        unhedged = ground arith;
        open_orders = ground arith;
        errors = ground arith;
      }

  Passes-system :
      (ctx : RiskContext F)
      → IsHealthy ctx
      → Passes (gate_system_health {F = F} ctx.health ctx.required_components)
  unfolding blocking gate_system_health
  Passes-system ctx (h, found, ok, v) = rw found (ground arith)

  Passes-veska :
      (ctx : RiskContext F) → IsHealthy ctx → Passes (gate_execution_health {F = F} ctx.health)
  unfolding blocking gate_execution_health
  Passes-veska ctx (h, found, ok, (veska, e, s)) = rw (found, e, s) refl

  Passes-fresh :
      (limits : RiskLimits F) (intent : TradeIntent F) (now : ℕ)
      → IsFresh limits intent now
      → Passes (gate_data_age intent limits now)
  unfolding blocking gate_data_age
  Passes-fresh limits intent now (at, e, h) = ground arith

  gate_liquidity-IsLiquid :
      (economical : Option F) (intent : TradeIntent F)
      → IsLiquid economical intent
      → Passes (gate_liquidity economical intent)
  unfolding blocking gate_liquidity
  gate_liquidity-IsLiquid economical intent (n, e, h) = rw e (ground arith)

  pub IsPermitted-Passes :
      (limits : RiskLimits F) (intent : TradeIntent F) (ctx : RiskContext F) (now : ℕ)
      → IsPermitted limits intent ctx now
      → All Passes (checks limits intent ctx now)
  unfolding checks blocking gate_kill_switch gate_consensus gate_deadline gate_min_edge
      gate_hedge_available gate_order_notional gate_position_notional gate_gross_exposure
      gate_net_exposure gate_leverage gate_venue_exposure gate_strategy_exposure gate_daily_loss
      gate_drawdown gate_unhedged gate_open_orders gate_error_rate
  IsPermitted-Passes limits intent ctx now p =
      (ground (arith, p.trading))
      ⨾ (Passes-system ctx p.system)
      ⨾ (Passes-veska ctx p.system)
      ⨾ (ground (arith, p.complete, p.consensus))
      ⨾ (Passes-fresh limits intent now p.fresh)
      ⨾ (ground (arith, p.in_time))
      ⨾ (ground (arith, p.edge))
      ⨾ (gate_liquidity-IsLiquid ctx.max_economical_notional intent p.liquid)
      ⨾ (ground (arith, p.hedged))
      ⨾ (ground (arith, p.order))
      ⨾ (ground (arith, p.position))
      ⨾ (ground (arith, p.gross))
      ⨾ (ground (arith, p.net))
      ⨾ (ground (arith, p.solvent, p.leverage))
      ⨾ (ground (arith, p.venue))
      ⨾ (ground (arith, p.strategy))
      ⨾ (ground (arith, p.loss))
      ⨾ (ground (arith, p.decline))
      ⨾ (ground (arith, p.unhedged))
      ⨾ (ground (arith, p.open_orders))
      ⨾ (ground (arith, p.errors))
      ⨾ tt
