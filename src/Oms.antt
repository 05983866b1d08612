-- ===== src/Oms.antt =====
-- execution/oms/__init__.py: the order manager. Time is an argument of each operation, and so is
-- the id that `new_id` would mint. An order object is changed in place in the dict that holds it.
mod State
pub mod Orders
pub mod Fills
pub mod Taking
pub mod Compaction
pub mod History
mod Tests
unfoldable pub use State.*
use octopush.Prelude.{
  ℕ, zero, suc, ◌+◌, String, Bool, true, false, not, ◌&&◌, ◌||◌, Option, none, some, List, [], ◌∷◌,
  ◌++◌, map, foldl, any, filterb, length, contains, str_eq, leb, ◌==◌, if◌then◌else◌,
}
use octopush.Prelude.Dict.{Dict, lookup, insert, erase, get_or, values}
use octopush.Prelude.Float.{Float, ◌⊕◌, ◌⋖◌, ◌⩽◌, zero_float}
use octopush.Prelude.Action.{
  Action, Result, ok, raised, key_error, value_error, illegal_transition, validation_error, ◌>>=◌,
  ◌>>◌, pure, raise_if, modify,
}
use octopush.Order.Status.{
  OrderStatus, created, partially_filled, filled, rejected, unknown, value, is_status,
}
use octopush.Order.{
  Side, OrderType, TimeInForce, FillEvent, PaperOrder, is_terminal, is_live, remaining_quantity,
}
use octopush.Order
use octopush.Dedupe.{Window, empty, admit, seen}

module _ {F : Type 0} where
  -- An action on the order that is stored under an id, which is written back however it ends.
  unfoldable pub on_order :
      {A : Type 0} → String → Action (PaperOrder F) A → Action (OrderManager F) A
  on_order id act m = elim (lookup id m.orders) [
    | none ↦ (raised key_error, m)
    | some o ↦ let (r, o') = act o in (r, record m { orders = insert id o' m.orders })
  ]

  -- The `except IllegalTransition` of `transition`.
  abbrev pub count_illegal : {A : Type 0} → Result A → OrderManager F → OrderManager F
  count_illegal (raised illegal_transition) m = record m {
    illegal_transitions = m.illegal_transitions + 1;
  }
  count_illegal _ m = m

  unfoldable pub transition : String → OrderStatus → ℕ → Action (OrderManager F) (Unit {0})
  transition id status now m =
      let (r, m') = on_order id (Order.transition status now) m in (r, count_illegal r m')

  abbrev pub with_reason : String → PaperOrder F → PaperOrder F
  with_reason reason o = record o { reject_reason = some reason }

  unfoldable pub timed_out : String → ℕ → Action (PaperOrder F) (Unit {0})
  timed_out reason now o =
      if is_terminal o
      then (ok tt, o)
      else (Order.transition unknown now
            >> modify (with_reason (unless_empty reason "operation timed out")))
          o

  unfoldable pub mark_unknown : String → String → ℕ → Action (OrderManager F) (Unit {0})
  mark_unknown id reason now = on_order id (timed_out reason now)

  unfoldable pub resolved : OrderStatus → ℕ → Action (PaperOrder F) (Unit {0})
  resolved status now o =
      if not (is_status o.status unknown)
      then (raised value_error, o)
      else Order.transition status now o

  unfoldable pub resolve_unknown : String → OrderStatus → ℕ → Action (OrderManager F) (Unit {0})
  resolve_unknown id status now = on_order id (resolved status now)

  -- The reason is written before the transition is tried.
  unfoldable pub reject : String → String → ℕ → Action (OrderManager F) (Unit {0})
  reject id reason now = on_order id (modify (with_reason reason) >> Order.transition rejected now)

  -- Terminal, and no fill of it awaits reconciliation.
  unfoldable pub is_doomed : List String → PaperOrder F → Bool
  is_doomed unsealed o = is_terminal o && not (any (λ f. contains f.fill_id unsealed) o.fills)

module _ {F : Type 0} ⦃fl : Float F⦄ where
  abbrev pub qty_epsilon : F
  qty_epsilon = fl.decimal 1 9

  abbrev pub no_archive : ArchivedOrders F
  no_archive = record {
    count = 0;
    fills = 0;
    filled_quantity = zero_float;
    fees_paid = zero_float;
    by_status = [];
  }

  abbrev pub init : ℕ → OrderManager F
  init dedupe_fills = record {
    orders = [];
    window = empty dedupe_fills;
    archived = no_archive;
    orders_created = 0;
    fills_applied = 0;
    duplicate_fills = 0;
    illegal_transitions = 0;
  }

  -- The order that `create` stores.
  unfoldable pub new_order : NewOrder F → String → ℕ → PaperOrder F
  new_order n minted now = record {
    created_at = now;
    client_order_id = chosen_id n.client_order_id minted;
    venue_order_id = none;
    plan_id = n.plan_id;
    intent_id = n.intent_id;
    strategy = n.strategy;
    venue = n.venue;
    symbol = n.symbol;
    side = n.side;
    order_type = n.order_type;
    time_in_force = n.time_in_force;
    quantity = n.quantity;
    limit_price = n.limit_price;
    expected_price = n.expected_price;
    status = created;
    filled_quantity = zero_float;
    average_price = none;
    fees_paid = zero_float;
    submitted_at = none;
    acknowledged_at = none;
    terminal_at = none;
    expires_at = expiry n.ttl_ms now;
    reject_reason = none;
    fills = [];
    history = (now, created) ∷ [];
  }

  -- The schema refuses a quantity that is not positive.
  unfoldable pub create : NewOrder F → String → ℕ → Action (OrderManager F) (PaperOrder F)
  create n minted now m =
      let o = new_order n minted now in
      if not (zero_float ⋖ n.quantity) then (raised validation_error, m) else (
        ok o,
        record m {
          orders = insert o.client_order_id o m.orders;
          orders_created = m.orders_created + 1;
        },
      )

  unfoldable pub from_plan :
      PlannedOrder F
      → String
      → String
      → String
      → String
      → ℕ
      → Action (OrderManager F) (PaperOrder F)
  from_plan p plan_id intent_id strategy minted now =
      create
        (record {
          venue = p.venue;
          symbol = p.symbol;
          side = p.side;
          quantity = p.quantity;
          order_type = p.order_type;
          time_in_force = p.time_in_force;
          expected_price = p.expected_price;
          limit_price = p.limit_price;
          plan_id = some plan_id;
          intent_id = some intent_id;
          strategy = some strategy;
          client_order_id = some p.client_order_id;
          ttl_ms = some p.ttl_ms;
        })
        minted now

  -- The status that a fill leads to.
  unfoldable pub target_status : PaperOrder F → OrderStatus
  target_status o = if remaining_quantity o ⩽ qty_epsilon then filled else partially_filled

  -- The end of `apply_fill`: the move to FILLED or PARTIALLY_FILLED.
  unfoldable pub advance : ℕ → Action (PaperOrder F) (Unit {0})
  advance now o =
      let target = target_status o in
      if not (is_status o.status target) || is_status target partially_filled
      then Order.transition target now o
      else (ok tt, o)

  -- The last two steps of `apply_fill`, on the order.
  unfoldable pub settle : FillEvent F → ℕ → Action (PaperOrder F) (Unit {0})
  settle f now = Order.apply_fill f >> advance now

  -- The id is recorded and the fill counted before the order is touched.
  unfoldable pub accept_fill : FillEvent F → ℕ → Action (OrderManager F) Bool
  accept_fill f now m =
      (on_order f.client_order_id (settle f now) >> pure true)
        (record m { window = admit f.fill_id m.window; fills_applied = m.fills_applied + 1 })

  -- `OrderManager.apply_fill`
  unfoldable pub apply_fill : FillEvent F → ℕ → Action (OrderManager F) Bool
  apply_fill f now m =
      if seen f.fill_id m.window
      then (ok false, record m { duplicate_fills = m.duplicate_fills + 1 })
      else elim (lookup f.client_order_id m.orders) [
        | none ↦ (raised key_error, m)
        | some o ↦
            if remaining_quantity o ⊕ qty_epsilon ⋖ f.quantity
            then (raised value_error, m)
            else accept_fill f now m
      ]

  -- `ArchivedOrders.absorb`
  unfoldable pub absorb : ArchivedOrders F → PaperOrder F → ArchivedOrders F
  absorb a o = record {
    count = a.count + 1;
    fills = a.fills + length o.fills;
    filled_quantity = a.filled_quantity ⊕ o.filled_quantity;
    fees_paid = a.fees_paid ⊕ o.fees_paid;
    by_status = insert (value o.status) (get_or (value o.status) 0 a.by_status + 1) a.by_status;
  }

  abbrev pub archive_one : OrderManager F → PaperOrder F → OrderManager F
  archive_one m o = record m {
    archived = absorb m.archived o;
    orders = erase o.client_order_id m.orders;
  }

  -- `OrderManager.compact`
  unfoldable pub compact : List String → Action (OrderManager F) ℕ
  compact unsealed m =
      let doomed = filterb (is_doomed unsealed) (values m.orders) in
      (ok (length doomed), foldl archive_one m doomed)
