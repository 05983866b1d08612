-- ===== src/Tidal/Windows.antt =====
-- The rolling windows of agents/tidal/metrics.py. A time before `now - window_ms` is one that with the
-- window added is before now.
use octopush.Prelude.{
  ℕ, ◌+◌, Bool, true, false, not, ◌-◌, ◌&&◌, List, [], ◌∷◌, ◌++◌, map, length, filterb, ltb, ◌==◌,
  if◌then◌else◌,
}
use octopush.Prelude.Int.{pos}
use octopush.Prelude.Float.{Float, ◌⊖◌, ◌⊗◌, ◌⊘◌, ◌⋖◌, zero_float}
use octopush.Order.{Side, buy, sell}
use octopush.Execution.Costs.{bps}

-- What is used of `math` and of `**`.
pub record Reals (F : Type 0) : Type 0 where
  pub log : F → F
  pub root : F → F
  pub power : F → F → F
  pub is_finite : F → Bool

pub record TradeFlowWindow (F : Type 0) : Type 0 where
  pub window_ms : ℕ
  pub events : List (ℕ × Side × F)

pub record MidWindow (F : Type 0) : Type 0 where
  pub window_ms : ℕ
  pub points : List (ℕ × F)

-- `while xs and xs[0][0] < cutoff: xs.popleft()`
unfoldable pub evict : {A : Type 0} → (A → ℕ) → ℕ → ℕ → List A → List A
evict time window now [] = []
evict time window now (x ∷ xs) =
    let rest = evict time window now xs in if ltb (time x + window) now then rest else x ∷ xs

abbrev pub is_buy : Side → Bool
is_buy buy = true
is_buy sell = false

module _ {F : Type 0} where
  -- `TradeFlowWindow.add`
  abbrev pub add_trade : ℕ → Side → F → TradeFlowWindow F → TradeFlowWindow F
  add_trade ts aggressor notional w = record w {
    events = w.events ++ (ts, aggressor, notional) ∷ [];
  }

  -- A point replaces one of the same time at the end.
  unfoldable pub add_point : ℕ → F → List (ℕ × F) → List (ℕ × F)
  add_point ts mid [] = (ts, mid) ∷ []
  add_point ts mid ((t, m) ∷ []) = if t == ts then (ts, mid) ∷ [] else (t, m) ∷ (ts, mid) ∷ []
  add_point ts mid (p ∷ q ∷ ps) = p ∷ add_point ts mid (q ∷ ps)

  -- `MidWindow.add`
  abbrev pub add_mid : ℕ → F → MidWindow F → MidWindow F
  add_mid ts mid w = record w { points = add_point ts mid w.points }

module _ {F : Type 0} ⦃fl : Float F⦄ where
  -- `TradeFlowWindow.volumes`: bought and sold, with the window as it leaves it
  unfoldable pub volumes : ℕ → TradeFlowWindow F → (F × F) × TradeFlowWindow F
  volumes now w =
      let kept : List (ℕ × Side × F) = evict (λ e. e.0) w.window_ms now w.events in
      (
        (
          fl.sum (map (λ e. e.2) (filterb (λ e. is_buy e.1) kept)),
          fl.sum (map (λ e. e.2) (filterb (λ e. not (is_buy e.1)) kept)),
        ),
        record w { events = kept },
      )

module _ {F : Type 0} ⦃fl : Float F⦄ ⦃re : Reals F⦄ where
  -- Log returns between neighbouring points.
  unfoldable pub log_returns : List (ℕ × F) → List F
  log_returns [] = []
  log_returns (p ∷ []) = []
  log_returns ((t, a) ∷ (u, b) ∷ ps) =
      let rest = log_returns ((u, b) ∷ ps) in
      if zero_float ⋖ a && zero_float ⋖ b then re.log (b ⊘ a) ∷ rest else rest

  -- The standard deviation of returns, in basis points.
  abbrev pub deviation_bps : List F → F
  deviation_bps returns =
      let count : ℕ = length returns in
      let mean = fl.sum returns ⊘ fl.of_int (pos count) in
      let squares = map (λ r. re.power (r ⊖ mean) (fl.of_int (pos 2))) returns in
      if ltb count 2
      then zero_float
      else re.root (fl.sum squares ⊘ fl.of_int (pos (count - 1))) ⊗ bps

  -- `MidWindow.volatility_bps`
  unfoldable pub volatility_bps : ℕ → MidWindow F → F × MidWindow F
  volatility_bps now w =
      let kept : List (ℕ × F) = evict (λ p. p.0) w.window_ms now w.points in
      (
        if ltb (length kept) 3 then zero_float else deviation_bps (log_returns kept),
        record w { points = kept },
      )
