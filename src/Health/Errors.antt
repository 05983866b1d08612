-- ===== src/Health/Errors.antt =====
-- The error budget of core/health/__init__.py: what a rolling window of errors holds.
use octopush.Prelude.{
  ℕ, ◌+◌, ◌≤◌, String, ◌≡◌, refl, sym, ap, ◌∙◌, false, not, some, List, [], ◌∷◌, ◌++◌, filterb,
  length, All, arith, ltb, append_assoc, append-nil, Bool-cases, inl, inr,
}
use octopush.Prelude.Dict.{lookup, get_or, get_or-insert_self, lookup-insert_self}
use octopush.Health.{worst}
use octopush.Health.Registry.{
  HealthRegistry, Report, evict_errors, budget_status, heartbeat, record_error,
}

-- Times in order, each of them at most `now`.
abbrev pub IsAscending : List ℕ → ℕ → Type 0
IsAscending [] now = Unit
IsAscending (t ∷ ts) now = (t ≤ now) × All (λ u. t ≤ u) ts × IsAscending ts now

-- The errors whose age is at most the window.
abbrev pub recent : ℕ → ℕ → List ℕ → List ℕ
recent window now = filterb (λ t. not (ltb (t + window) now))

recent-without_old :
    (window now t : ℕ) (ts : List ℕ)
    → ltb (t + window) now ≡ false
    → All (λ u. t ≤ u) ts
    → recent window now ts ≡ ts
recent-without_old window now t [] h a = refl
recent-without_old window now t (u ∷ ts) h a =
    ground (arith, recent-without_old window now t ts h a.1)

-- On times in order, dropping from the front is a filter.
evict_errors-recent :
    (window now cut : ℕ) (ts : List ℕ)
    → IsAscending ts cut
    → evict_errors window now ts ≡ recent window now ts
unfolding evict_errors
evict_errors-recent window now cut [] a = refl
evict_errors-recent window now cut (t ∷ ts) a = elim (Bool-cases (ltb (t + window) now)) [
  | inl old ↦ rw old (evict_errors-recent window now cut ts a.2)
  | inr kept ↦ rw kept (ap (◌∷◌ t) (sym (recent-without_old window now t ts kept a.1)))
]

recent-recent :
    (window now cut : ℕ) (ts us : List ℕ)
    → cut ≤ now
    → recent window now (recent window cut ts ++ us) ≡ recent window now (ts ++ us)
recent-recent window now cut [] us h = refl
recent-recent window now cut (t ∷ ts) us h = ground (arith, recent-recent window now cut ts us h)

All-recent :
    (P : ℕ → Type 0) (window now : ℕ) (ts : List ℕ) → All P ts → All P (recent window now ts)
All-recent P window now [] a = tt
All-recent P window now (t ∷ ts) a = elim (Bool-cases (ltb (t + window) now)) [
  | inl old ↦ rw old (All-recent P window now ts a.1)
  | inr kept ↦ rw kept (a.0, All-recent P window now ts a.1)
]

recent-IsAscending :
    (window now cut : ℕ) (ts : List ℕ) → IsAscending ts cut → IsAscending (recent window now ts) cut
recent-IsAscending window now cut [] a = tt
recent-IsAscending window now cut (t ∷ ts) a = elim (Bool-cases (ltb (t + window) now)) [
  | inl old ↦ rw old (recent-IsAscending window now cut ts a.2)
  | inr kept ↦
      rw kept
        (a.0, All-recent (λ u. t ≤ u) window now ts a.1, recent-IsAscending window now cut ts a.2)
]

All-append_one : (P : ℕ → Type 0) (ts : List ℕ) (t : ℕ) → All P ts → P t → All P (ts ++ t ∷ [])
All-append_one P [] t a h = (h, tt)
All-append_one P (u ∷ ts) t a h = (a.0, All-append_one P ts t a.1 h)

append-IsAscending :
    (cut now : ℕ) (ts : List ℕ) → IsAscending ts cut → cut ≤ now → IsAscending (ts ++ now ∷ []) now
append-IsAscending cut now [] a h = (omega arith, tt, tt)
append-IsAscending cut now (t ∷ ts) a h = (
  omega (arith, a.0),
  All-append_one (λ u. t ≤ u) ts now a.1 (omega (arith, a.0)),
  append-IsAscending cut now ts a.2 h,
)

-- Errors of a service at given times.
unfoldable pub record_errors : String → List ℕ → HealthRegistry → HealthRegistry
record_errors service [] r = r
record_errors service (t ∷ ts) r = record_errors service ts (record_error service t r)

-- What is stored of a service's errors is what a window that ended at `cut` showed of `ts`.
abbrev Shows : String → HealthRegistry → ℕ → List ℕ → Type 0
Shows service r cut ts =
    IsAscending ts cut × (get_or service [] r.errors ≡ recent r.policy.error_window_ms cut ts)

record_error-Shows :
    (service : String) (r : HealthRegistry) (cut now : ℕ) (ts : List ℕ)
    → cut ≤ now
    → Shows service r cut ts
    → Shows service (record_error service now r) now (ts ++ now ∷ [])
unfolding record_error
record_error-Shows service r cut now ts h (a, e) = (
  append-IsAscending cut now ts a h,
  rw (get_or-insert_self service _ [] r.errors, e)
      (evict_errors-recent r.policy.error_window_ms now now _ (
          append-IsAscending cut now _ (recent-IsAscending r.policy.error_window_ms cut cut ts a) h)
        ∙ recent-recent r.policy.error_window_ms now cut ts (now ∷ []) h),
)

-- The last of the times, or `cut` where there is none.
abbrev pub latest : ℕ → List ℕ → ℕ
latest cut [] = cut
latest cut (t ∷ ts) = latest t ts

-- Each time is at least the one before it, and the first at least `cut`.
abbrev pub IsOrderedFrom : ℕ → List ℕ → Type 0
IsOrderedFrom cut [] = Unit
IsOrderedFrom cut (t ∷ ts) = (cut ≤ t) × IsOrderedFrom t ts

record_errors-Shows :
    (service : String) (ts us : List ℕ) (cut : ℕ) (r : HealthRegistry)
    → IsOrderedFrom cut ts
    → Shows service r cut us
    → Shows service (record_errors service ts r) (latest cut ts) (us ++ ts)
      × ((record_errors service ts r).policy ≡ r.policy)
unfolding record_errors record_error
record_errors-Shows service [] us cut r o s = (rw (append-nil us) s, refl)
record_errors-Shows service (t ∷ ts) us cut r o s =
    let (later, same) =
      record_errors-Shows service ts (us ++ t ∷ []) t (record_error service t r) o.1
        (record_error-Shows service r cut t us o.0 s) in
    (rw (sym (append_assoc us (t ∷ []) ts)) later, same)

-- After errors of a service that had none, at times that do not go back, a heartbeat leaves two things
-- in the registry for the service: exactly those errors that the window still covers, and the state
-- that it returns, which holds their number and the worse of the status that is reported and the one
-- that the number stands for, as `rank` orders them; a heartbeat cannot clear the budget.
pub heartbeat-record_errors :
    (service : String) (ts : List ℕ) (report : Report) (now : ℕ) (r : HealthRegistry)
    → get_or service [] r.errors ≡ []
    → IsOrderedFrom 0 ts
    → latest 0 ts ≤ now
    → let (state, after) = heartbeat service report now (record_errors service ts r) in
      let counted = recent r.policy.error_window_ms now ts in
      (lookup service after.states ≡ some state)
      × (get_or service [] after.errors ≡ counted)
      × (state.error_count ≡ length counted)
      × (state.status ≡ worst report.status (budget_status r.policy counted ∷ []))
unfolding heartbeat
heartbeat-record_errors service ts report now r none_yet o h = (
  lookup-insert_self service _ after.states,
  get_or-insert_self service _ [] after.errors
      ∙ ap (λ w. evict_errors w.error_window_ms now (get_or service [] after.errors)) same
      ∙ stored,
  rw (same, stored) refl,
  rw (same, stored) refl,
)
  where
    window : ℕ
    window = r.policy.error_window_ms

    after : HealthRegistry
    after = record_errors service ts r

    both : Shows service after (latest 0 ts) ts × (after.policy ≡ r.policy)
    both = record_errors-Shows service ts [] 0 r o (tt, none_yet)

    same : after.policy ≡ r.policy
    same = both.1

    stored :
        evict_errors r.policy.error_window_ms now (get_or service [] after.errors)
        ≡ recent r.policy.error_window_ms now ts
    stored =
        rw (both.0.1, same)
          (evict_errors-recent window now (latest 0 ts) _
              (recent-IsAscending window (latest 0 ts) (latest 0 ts) ts both.0.0)
            ∙ ap (recent window now) (sym (append-nil _))
            ∙ recent-recent window now (latest 0 ts) ts [] h
            ∙ ap (recent window now) (append-nil ts))
