-- ===== src/Marin.antt =====
-- agents/marin/agent.py (`Marin`), with `Mismatch` and `ReconciliationResult` of core/models/ops.py:
-- the comparison of the order manager with the account, and the sealing of what has been compared.
-- The time is an argument where the source asks the clock. Details of mismatches are left out. A set
-- difference of the source has no order; the model takes the order of the dict.
mod Report
mod Checks
pub mod Agreement
pub mod Sealing
pub mod Straddling
mod Tests
unfoldable pub use Report.*
unfoldable pub use Checks.*
use octopush.Prelude.{
  ℕ, zero, suc, ◌+◌, ◌-◌, String, Bool, true, false, not, ◌&&◌, ◌||◌, Option, none, some, List, [],
  ◌∷◌, ◌++◌, map, foldl, any, filterb, length, drop, contains, is_nil, leb, ◌==◌, if◌then◌else◌,
}
use Prim.Native.Nat.{min}
use octopush.Prelude.Int.{pos, ◌-ℤ◌}
use octopush.Prelude.Dict.{Dict, lookup, insert, has}
use octopush.Prelude.Float.{Float, ◌⊕◌, ◌⊖◌, ◌⋖◌, zero_float}
use octopush.Prelude.Action.{Action, ok, raised, ◌>>=◌, ◌>>◌, pure, modify}
use octopush.Order.Status.{filled, unknown, is_status}
use octopush.Order.{FillEvent, PaperOrder, is_terminal, remaining_quantity}
use octopush.Position.{PositionState}
use octopush.Oms.{OrderManager, all_fills, unknown_orders, qty_epsilon}
use octopush.Oms
use octopush.Account.{PaperAccount, Ledger, recompute_from_fills, fee_of, seal}
use octopush.Health.{HealthStatus, healthy, degraded, offline}
use octopush.Health.Registry.{HealthRegistry, register, heartbeat}
use octopush.Events.{
  Event, reconciliation_mismatch, reconciliation_complete, current_schema_version,
}
use octopush.Bus.{EventBus}

-- `B` is the state of the bus.
pub record Marin (F B : Type 0) : Type 0 where
  pub bus : B
  pub health : HealthRegistry
  pub oms : OrderManager F
  pub account : PaperAccount F
  pub runs : ℕ
  pub last_result : Option (ReconciliationResult F)
  pub fills_sealed : ℕ
  pub orders_archived : ℕ

abbrev pub service : String
service = "MARIN"

abbrev pub version : String
version = "marin-0.1"

module _ {F : Type 0} where
  -- The first loop of `_seal_boundary`: the fills before the first one whose order is missing or not
  -- terminal.
  unfoldable pub settled_fills : OrderManager F → List (FillEvent F) → ℕ
  settled_fills o [] = 0
  settled_fills o (f ∷ log) =
      let rest = settled_fills o log in
      elim (lookup f.client_order_id o.orders) [
        | none ↦ 0
        | some order ↦ if is_terminal order then suc rest else 0
      ]

  abbrev pub order_of : FillEvent F → String
  order_of f = f.client_order_id

  -- `log[index]`
  abbrev pub fill_at : ℕ → List (FillEvent F) → Option (FillEvent F)
  fill_at n [] = none
  fill_at zero (f ∷ log) = some f
  fill_at (suc n) (f ∷ log) = fill_at n log

  abbrev pub belongs : List String → Option (FillEvent F) → Bool
  belongs orders none = false
  belongs orders (some f) = contains f.client_order_id orders

  -- The second loop: back over fills of orders that have a fill past the boundary.
  unfoldable pub pull_back : List String → List (FillEvent F) → ℕ → ℕ
  pull_back straddling log zero = zero
  pull_back straddling log (suc boundary) =
      let further = pull_back straddling log boundary in
      if belongs straddling (fill_at boundary log) then further else suc boundary

  -- `_seal_boundary`
  unfoldable pub seal_boundary : OrderManager F → List (FillEvent F) → ℕ
  seal_boundary o log =
      let boundary = settled_fills o log in
      pull_back (map order_of (drop boundary log)) log boundary

  abbrev pub ids : List (FillEvent F) → List String
  ids = map (λ f. f.fill_id)

-- The status that a result stands for.
unfoldable pub status_after : {F : Type 0} → ReconciliationResult F → HealthStatus
status_after r =
    if not r.is_ok then offline else if not (is_nil r.mismatches) then degraded else healthy

-- The event of `run`, with the id that `new_id` mints. Its payload is the result.
abbrev pub result_event :
    {F : Type 0} → String → ReconciliationResult F → Event (ReconciliationResult F)
result_event minted r = record {
  id = minted;
  type = if not r.is_ok then reconciliation_mismatch else reconciliation_complete;
  ts_ms = r.created_at;
  source = service;
  payload = r;
  schema_name = some "ReconciliationResult";
  schema_version = current_schema_version;
  correlation_id = none;
  causation_id = none;
  sequence = none;
}

module _ {F B : Type 0} where
  -- `__post_init__`
  abbrev pub new_marin : B → HealthRegistry → OrderManager F → PaperAccount F → Marin F B
  new_marin bus health oms account = record {
    bus = bus;
    health = register service version health;
    oms = oms;
    account = account;
    runs = 0;
    last_result = none;
    fills_sealed = 0;
    orders_archived = 0;
  }

  abbrev pub noted : ReconciliationResult F → Marin F B → Marin F B
  noted r m = record m { runs = m.runs + 1; last_result = some r }

  -- Actions on the parts of the agent.
  abbrev pub on_account : {A : Type 0} → Action (PaperAccount F) A → Action (Marin F B) A
  on_account act m = let (r, a) = act m.account in (r, record m { account = a })

  abbrev pub on_oms : {A : Type 0} → Action (OrderManager F) A → Action (Marin F B) A
  on_oms act m = let (r, o) = act m.oms in (r, record m { oms = o })

module _ {F B : Type 0} ⦃fl : Float F⦄ where
  -- `reconcile`: a rebuild that raises counts no run.
  unfoldable pub reconcile : ℕ → Action (Marin F B) (ReconciliationResult F)
  reconcile now m = elim (recompute_from_fills m.account) [
    | raised e ↦ (raised e, m)
    | ok l ↦ let r = result_at now l m.oms m.account in (ok r, noted r m)
  ]

  -- The end of `compact`: what is left of the log keeps its orders in memory.
  abbrev pub archive : ℕ → Action (Marin F B) (ℕ × ℕ)
  archive sealed m =
      (on_oms (Oms.compact (ids m.account.fill_log)) >>= λ archived m'. (
        ok (sealed, archived),
        record m' {
          fills_sealed = m'.fills_sealed + sealed;
          orders_archived = m'.orders_archived + archived;
        },
      ))
        m

  abbrev pub seal_some : ℕ → ℕ → Action (Marin F B) ℕ
  seal_some excess now m =
      on_account (seal (some (min (seal_boundary m.oms m.account.fill_log) excess)) now) m

  -- What `compact` does once the log is longer than what is retained.
  abbrev pub compact_excess : ℕ → ℕ → Action (Marin F B) (ℕ × ℕ)
  compact_excess excess now = seal_some excess now >>= archive

  -- `compact`
  unfoldable pub compact : ℕ → Action (Marin F B) (ℕ × ℕ)
  compact now m =
      let excess = length m.account.fill_log - m.account.window.retained in
      if leb excess 0 then (ok (0, 0), m) else compact_excess excess now m

module _ {F B : Type 0} ⦃fl : Float F⦄ ⦃eb : EventBus (ReconciliationResult F) B⦄ where
  -- `_heartbeat`
  unfoldable pub beat : ReconciliationResult F → ℕ → Action (Marin F B) (Unit {0})
  beat r now m =
      let (_, health) =
        heartbeat service
          (record {
            status = status_after r;
            last_event_age_ms = none;
            queue_depth = eb.depth m.bus;
            version = version;
          })
          now m.health in
      (ok tt, record m { health = health })

  abbrev on_bus : {A : Type 0} → Action B A → Action (Marin F B) A
  on_bus act m = let (r, b) = act m.bus in (r, record m { bus = b })

  -- `run`
  unfoldable pub run : String → ℕ → Action (Marin F B) (ReconciliationResult F)
  run minted now = reconcile now >>= λ r.
      (if r.is_ok then compact now >> pure tt else pure tt)
      >> on_bus (eb.publish_event (result_event minted r))
      >> beat r now
      >> pure r

  -- The public `heartbeat`.
  unfoldable pub report_liveness : ℕ → Action (Marin F B) (Unit {0})
  report_liveness now m = elim m.last_result [
    | some r ↦ beat r now m
    | none ↦
        let (_, health) =
          heartbeat service
            (record {
              status = offline;
              last_event_age_ms = none;
              queue_depth = 0;
              version = version;
            })
            now m.health in
        (ok tt, record m { health = health })
  ]
