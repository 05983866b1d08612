-- ===== src/Health.antt =====
-- Component health: `HealthStatus`, `HealthState` and `SystemHealth` of core/models/ops.py.
pub mod Registry
pub mod Errors
mod Tests
use octopush.Prelude.{
  ℕ, String, Bool, true, false, Option, none, some, List, [], ◌∷◌, not, filterb, is_nil, map, ltb,
  if◌then◌else◌,
}
use octopush.Prelude.Dict.{Dict, lookup, values}

pub data HealthStatus : Type 0 where
  healthy degraded offline : HealthStatus

abbrev pub is_healthy : HealthStatus → Bool
is_healthy healthy = true
is_healthy _ = false

pub record HealthState : Type 0 where
  pub service : String
  pub status : HealthStatus
  pub last_event_age_ms : Option ℕ
  pub last_heartbeat_ms : Option ℕ
  pub queue_depth : ℕ
  pub error_count : ℕ
  pub version : String

pub record SystemHealth : Type 0 where
  pub components : Dict HealthState

abbrev present_and_healthy : Option HealthState → Bool
present_and_healthy none = false
present_and_healthy (some h) = is_healthy h.status

-- The required components that are missing or not HEALTHY.
unfoldable pub bad_components : SystemHealth → List String → List String
bad_components h = filterb (λ name. not (present_and_healthy (lookup name h.components)))

-- The first half of `required_ok`; the second is `bad_components`.
unfoldable pub required_ok : SystemHealth → List String → Bool
required_ok h required = is_nil (bad_components h required)

abbrev pub rank : HealthStatus → ℕ
rank healthy = 0
rank degraded = 1
rank offline = 2

-- `max` keeps the first of the worst.
abbrev pub worst : HealthStatus → List HealthStatus → HealthStatus
worst s [] = s
worst s (t ∷ rest) = worst (if ltb (rank s) (rank t) then t else s) rest

abbrev worst_of : List HealthStatus → HealthStatus
worst_of [] = offline
worst_of (s ∷ rest) = worst s rest

-- `SystemHealth.status`
unfoldable pub status : SystemHealth → HealthStatus
status h = worst_of (map (λ c. c.status) (values h.components))
