-- ===== src/Dedupe.antt =====
-- The duplicate-detection window that execution/oms/__init__.py (`OrderManager`) and
-- execution/paper/account.py (`PaperAccount`) each keep: a set of fill ids, `_applied_fills` or
-- `_applied`, beside their order of arrival, `_dedupe_order`, trimmed to a number of ids by
-- `_trim_dedupe`. A set is a list without repetitions.
pub mod Horizon
pub mod Stream
mod Tests
use octopush.Prelude.{
  ℕ, zero, suc, ◌-◌, String, Bool, List, [], ◌∷◌, ◌++◌, length, contains, str_eq, if◌then◌else◌,
}

pub record Window : Type 0 where
  pub applied : List String
  pub dedupe_order : List String
  pub retained : ℕ

abbrev pub empty : ℕ → Window
empty n = record { applied = []; dedupe_order = []; retained = n }

-- `set.add`
abbrev pub add : String → List String → List String
add id ids = if contains id ids then ids else ids ++ id ∷ []

-- `set.discard`
abbrev pub discard : String → List String → List String
discard id [] = []
discard id (j ∷ js) = if str_eq j id then js else j ∷ discard id js

-- `for _ in range(n): applied.discard(order.popleft())`
unfoldable pub discard_oldest : ℕ → List String → List String → List String × List String
discard_oldest zero applied order = (applied, order)
discard_oldest (suc n) applied [] = (applied, [])
discard_oldest (suc n) applied (id ∷ order) = discard_oldest n (discard id applied) order

-- `_trim_dedupe`; the subtraction stops at 0, as `max(0, excess)` does.
unfoldable pub trim_dedupe : Window → Window
trim_dedupe w =
    let excess = length w.dedupe_order - w.retained in
    let (applied, order) = discard_oldest excess w.applied w.dedupe_order in
    record w { applied = applied; dedupe_order = order }

-- `fill_id in self._applied`
unfoldable pub seen : String → Window → Bool
seen id w = contains id w.applied

-- The three statements that record a new id.
unfoldable pub admit : String → Window → Window
admit id w =
    trim_dedupe (record w { applied = add id w.applied; dedupe_order = w.dedupe_order ++ id ∷ [] })
