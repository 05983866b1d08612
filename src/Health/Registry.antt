-- ===== src/Health/Registry.antt =====
-- core/health/__init__.py: the registry of heartbeats and errors. The time is an argument where the
-- source asks the clock; where the source subtracts times, the model adds on the other side.
use octopush.Prelude.{
  ℕ, ◌+◌, ◌*◌, String, Bool, Option, none, some, List, [], ◌∷◌, ◌++◌, length, ltb, leb, map, ◌&&◌,
  if◌then◌else◌,
}
use octopush.Prelude.Dict.{Dict, lookup, insert, erase, get_or}
use octopush.Health.{
  HealthStatus, healthy, degraded, offline, HealthState, SystemHealth, rank, worst, is_healthy,
  required_ok, bad_components,
}

pub record HealthPolicy : Type 0 where
  pub degraded_after_ms : ℕ
  pub offline_after_ms : ℕ
  pub error_budget : ℕ
  pub error_window_ms : ℕ

pub record HealthRegistry : Type 0 where
  pub policy : HealthPolicy
  pub states : Dict HealthState
  pub errors : Dict (List ℕ)

-- `HealthState(service=…, version=…)`
abbrev pub silent : String → String → HealthState
silent service version = record {
  service = service;
  status = offline;
  last_event_age_ms = none;
  last_heartbeat_ms = none;
  queue_depth = 0;
  error_count = 0;
  version = version;
}

-- `register`: `setdefault` leaves a known service alone.
unfoldable pub register : String → String → HealthRegistry → HealthRegistry
register service version r = elim (lookup service r.states) [
  | none ↦ record r { states = insert service (silent service version) r.states }
  | some _ ↦ r
]

-- `_evict_errors`: the oldest errors leave, up to the first one inside the window.
unfoldable pub evict_errors : ℕ → ℕ → List ℕ → List ℕ
evict_errors window now [] = []
evict_errors window now (t ∷ ts) =
    let rest = evict_errors window now ts in if ltb (t + window) now then rest else t ∷ ts

-- `_budget_status`
unfoldable pub budget_status : HealthPolicy → List ℕ → HealthStatus
budget_status p errors =
    if leb (p.error_budget * 2) (length errors)
    then offline
    else if leb p.error_budget (length errors)
    then degraded
    else healthy

-- The keyword arguments of `heartbeat`.
pub record Report : Type 0 where
  pub status : HealthStatus
  pub last_event_age_ms : Option ℕ
  pub queue_depth : ℕ
  pub version : String

-- The errors of a service as a call at `now` leaves them.
abbrev pub recent_errors : String → ℕ → HealthRegistry → List ℕ
recent_errors service now r = evict_errors r.policy.error_window_ms now (get_or service [] r.errors)

-- `heartbeat`
unfoldable pub heartbeat : String → Report → ℕ → HealthRegistry → HealthState × HealthRegistry
heartbeat service report now r =
    let errors = recent_errors service now r in
    let state : HealthState = record {
      service = service;
      status = worst report.status (budget_status r.policy errors ∷ []);
      last_event_age_ms = report.last_event_age_ms;
      last_heartbeat_ms = some now;
      queue_depth = report.queue_depth;
      error_count = length errors;
      version = report.version;
    } in
    (
      state,
      record r { errors = insert service errors r.errors; states = insert service state r.states },
    )

-- The state that `record_error` stores over the one that it found.
abbrev pub with_error : HealthPolicy → List ℕ → HealthState → HealthState
with_error p errors s =
    let budget = budget_status p errors in
    record s {
      error_count = length errors;
      status = if ltb (rank s.status) (rank budget) then budget else s.status;
    }

-- `record_error`
unfoldable pub record_error : String → ℕ → HealthRegistry → HealthRegistry
record_error service now r =
    let errors =
      evict_errors r.policy.error_window_ms now (get_or service [] r.errors ++ now ∷ []) in
    let found = get_or service (silent service "0.0.0") r.states in
    record r {
      errors = insert service errors r.errors;
      states = insert service (with_error r.policy errors found) r.states;
    }

-- `error_rate`: it evicts, and leaves an unknown service unknown.
unfoldable pub error_rate : String → ℕ → HealthRegistry → ℕ × HealthRegistry
error_rate service now r = elim (lookup service r.errors) [
  | none ↦ (0, r)
  | some [] ↦ (0, r)
  | some (t ∷ ts) ↦
      let errors = evict_errors r.policy.error_window_ms now (t ∷ ts) in
      (length errors, record r { errors = insert service errors r.errors })
]

-- `clear_errors`: the status stays as the errors left it.
unfoldable pub clear_errors : String → HealthRegistry → HealthRegistry
clear_errors service r = record r {
  errors = erase service r.errors;
  states = elim (lookup service r.states) [
    | none ↦ r.states
    | some s ↦ insert service (record s { error_count = 0 }) r.states
  ];
}

abbrev pub aged_from : HealthPolicy → ℕ → Option ℕ → HealthState → HealthState
aged_from p now none s = record s { status = offline }
aged_from p now (some last) s =
    if leb (last + p.offline_after_ms) now
    then record s { status = offline }
    else if leb (last + p.degraded_after_ms) now && is_healthy s.status
    then record s { status = degraded }
    else s

-- `_aged`
unfoldable pub aged : HealthPolicy → ℕ → HealthState → HealthState
aged p now s = aged_from p now s.last_heartbeat_ms s

-- `snapshot`
unfoldable pub snapshot : ℕ → HealthRegistry → SystemHealth
snapshot now r = record { components = map (λ e. (e.0, aged r.policy now e.1)) r.states }

-- `status_of`
unfoldable pub status_of : String → ℕ → HealthRegistry → HealthStatus
status_of service now r = elim (lookup service r.states) [
  | none ↦ offline
  | some s ↦ (aged r.policy now s).status
]

-- `all_healthy`
abbrev pub all_healthy : List String → ℕ → HealthRegistry → Bool × List String
all_healthy required now r =
    (required_ok (snapshot now r) required, bad_components (snapshot now r) required)
