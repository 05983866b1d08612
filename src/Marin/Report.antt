-- ===== src/Marin/Report.antt =====
-- `Severity`, `MismatchKind`, `Mismatch` and `ReconciliationResult` of core/models/ops.py, and the sorted
-- keys of agents/marin/agent.py.
use octopush.Prelude.{
  ℕ, String, Bool, true, false, not, Option, none, List, [], ◌∷◌, ◌++◌, map, any, filterb, is_nil,
  if◌then◌else◌,
}
use Prim.Native.String.{compare}
use Prim.Native.Nat.{Ordering}
use octopush.Prelude.Dict.{Dict, has}

pub data Severity : Type 0 where
  info warning critical : Severity

pub data MismatchKind : Type 0 where
  position_mismatch cash_mismatch fee_mismatch pnl_mismatch unknown_fill missing_fill duplicate_fill
        order_state_mismatch :
      MismatchKind

-- `float | str`
pub data Figure (F : Type 0) : Type 0 where
  number : F → Figure F
  text : String → Figure F

pub record Mismatch (F : Type 0) : Type 0 where
  pub kind : MismatchKind
  pub severity : Severity
  pub key : String
  pub expected : Option (Figure F)
  pub actual : Option (Figure F)
  pub difference : Option F

-- `is_ok` is the field `ok`.
pub record ReconciliationResult (F : Type 0) : Type 0 where
  pub created_at : ℕ
  pub is_ok : Bool
  pub mismatches : List (Mismatch F)
  pub orders_checked : ℕ
  pub fills_checked : ℕ
  pub positions_checked : ℕ

abbrev pub is_critical : Severity → Bool
is_critical critical = true
is_critical _ = false

module _ {F : Type 0} where
  -- `ReconciliationResult.critical`
  abbrev pub critical_ones : ReconciliationResult F → List (Mismatch F)
  critical_ones r = filterb (λ m. is_critical m.severity) r.mismatches

  abbrev pub has_critical : ReconciliationResult F → Bool
  has_critical r = not (is_nil (critical_ones r))

  -- `any(m.severity is Severity.CRITICAL for m in mismatches)`
  unfoldable pub any_critical : List (Mismatch F) → Bool
  any_critical = any (λ m. is_critical m.severity)

  -- A critical mismatch without figures.
  abbrev pub unfigured : MismatchKind → String → Mismatch F
  unfigured kind key = record {
    kind = kind;
    severity = critical;
    key = key;
    expected = none;
    actual = none;
    difference = none;
  }

-- `s <= t` on texts
abbrev pub at_most : String → String → Bool
at_most s t = elim (compare s t) [ Ordering.gt ↦ false | _ ↦ true ]

abbrev pub insort : String → List String → List String
insort k [] = k ∷ []
insort k (j ∷ js) = if at_most k j then k ∷ j ∷ js else j ∷ insort k js

unfoldable pub sorted : List String → List String
sorted [] = []
sorted (k ∷ ks) = insort k (sorted ks)

-- `set(d) | set(e)`
unfoldable pub either_keys : {V W : Type 0} → Dict V → Dict W → List String
either_keys d e = map (λ x. x.0) d ++ map (λ x. x.0) (filterb (λ x. not (has x.0 d)) e)
