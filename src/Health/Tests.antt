-- ===== src/Health/Tests.antt =====
-- Runs of the health registry, and its theorem at a concrete one.
use octopush.Prelude.{◌≡◌, refl, none, some, [], ◌∷◌, length, arith}
use octopush.Prelude.Dict.{lookup, get_or}
use octopush.Health.{healthy, degraded, offline, worst}
use octopush.Health.Registry.{
  HealthRegistry, Report, budget_status, evict_errors, heartbeat, record_error, register, status_of,
  aged,
}
use octopush.Health.Errors.{recent, record_errors, heartbeat-record_errors}

abbrev registry : HealthRegistry
registry = record {
  policy = record {
    degraded_after_ms = 5_000;
    offline_after_ms = 15_000;
    error_budget = 2;
    error_window_ms = 60_000;
  };
  states = [];
  errors = [];
}

abbrev alive : Report
alive = record { status = healthy; last_event_age_ms = none; queue_depth = 0; version = "1" }

-- Two of three errors are in the window, which the budget calls DEGRADED; silence makes it OFFLINE.
beats :
    let r =
      (heartbeat "VESKA" alive 70_000
        (record_errors "VESKA" (1_000 ∷ 20_000 ∷ 30_000 ∷ []) (register "VESKA" "1" registry))).1 in
    (status_of "VESKA" 70_000 r ≡ degraded) × (status_of "VESKA" 85_000 r ≡ offline)
unfolding heartbeat record_errors record_error register status_of aged evict_errors budget_status
beats = (refl, refl)

heartbeat-record_errors_example :
    let (state, after) =
      heartbeat "VESKA" alive 70_000
        (record_errors "VESKA" (1_000 ∷ 20_000 ∷ 30_000 ∷ []) registry) in
    let counted = recent 60_000 70_000 (1_000 ∷ 20_000 ∷ 30_000 ∷ []) in
    (lookup "VESKA" after.states ≡ some state)
    × (get_or "VESKA" [] after.errors ≡ counted)
    × (state.error_count ≡ length counted)
    × (state.status ≡ worst healthy (budget_status registry.policy counted ∷ []))
heartbeat-record_errors_example =
    heartbeat-record_errors "VESKA" (1_000 ∷ 20_000 ∷ 30_000 ∷ []) alive 70_000 registry refl
      (omega arith) (omega arith)
