-- ===== src/Oms/State.antt =====
-- What the order manager of execution/oms/__init__.py keeps and takes, and its reads; `PlannedOrder`
-- is of core/models/opportunity.py.
use octopush.Prelude.{
  ℕ, ◌+◌, String, Bool, false, ◌&&◌, Option, none, some, List, [], ◌∷◌, ◌++◌, filterb, length,
  str_eq, leb, ◌==◌, if◌then◌else◌,
}
use octopush.Prelude.Dict.{Dict, values}
use octopush.Order.Status.{unknown, is_status}
use octopush.Order.{Side, OrderType, TimeInForce, FillEvent, PaperOrder, is_live}
use octopush.Dedupe.{Window}

pub record ArchivedOrders (F : Type 0) : Type 0 where
  pub count : ℕ
  pub fills : ℕ
  pub filled_quantity : F
  pub fees_paid : F
  pub by_status : Dict ℕ

pub record OrderManager (F : Type 0) : Type 0 where
  pub orders : Dict (PaperOrder F)
  -- `_applied_fills`, `_dedupe_order` and `dedupe_fills`
  pub window : Window
  pub archived : ArchivedOrders F
  pub orders_created : ℕ
  pub fills_applied : ℕ
  pub duplicate_fills : ℕ
  pub illegal_transitions : ℕ

-- The keyword arguments of `create`.
pub record NewOrder (F : Type 0) : Type 0 where
  pub venue : String
  pub symbol : String
  pub side : Side
  pub quantity : F
  pub order_type : OrderType
  pub time_in_force : TimeInForce
  pub expected_price : F
  pub limit_price : Option F
  pub plan_id : Option String
  pub intent_id : Option String
  pub strategy : Option String
  pub client_order_id : Option String
  pub ttl_ms : Option ℕ

-- `PlannedOrder` of core/models/opportunity.py.
pub record PlannedOrder (F : Type 0) : Type 0 where
  pub client_order_id : String
  pub venue : String
  pub symbol : String
  pub side : Side
  pub quantity : F
  pub order_type : OrderType
  pub time_in_force : TimeInForce
  pub limit_price : Option F
  pub expected_price : F
  pub expected_fee_bps : F
  pub ttl_ms : ℕ

-- `if client_order_id:` is false of `None` and of the empty text.
abbrev pub chosen_id : Option String → String → String
chosen_id none minted = minted
chosen_id (some id) minted = if str_eq id "" then minted else id

-- `now + ttl_ms if ttl_ms else None`
abbrev pub expiry : Option ℕ → ℕ → Option ℕ
expiry none now = none
expiry (some ttl) now = if ttl == 0 then none else some (now + ttl)

abbrev pub is_for_plan : String → Option String → Bool
is_for_plan plan none = false
is_for_plan plan (some p) = str_eq p plan

-- `reason or default`
abbrev pub unless_empty : String → String → String
unless_empty text default = if str_eq text "" then default else text

abbrev pub has_expired : ℕ → Option ℕ → Bool
has_expired now none = false
has_expired now (some t) = leb t now

module _ {F : Type 0} where
  unfoldable pub live_orders : OrderManager F → List (PaperOrder F)
  live_orders m = filterb is_live (values m.orders)

  abbrev pub unknown_orders : OrderManager F → List (PaperOrder F)
  unknown_orders m = filterb (λ o. is_status o.status unknown) (values m.orders)

  unfoldable pub all_fills : Dict (PaperOrder F) → List (FillEvent F)
  all_fills [] = []
  all_fills ((k, o) ∷ orders) = o.fills ++ all_fills orders

  abbrev pub expired_orders : ℕ → OrderManager F → List (PaperOrder F)
  expired_orders now m = filterb (λ o. is_live o && has_expired now o.expires_at) (values m.orders)

  abbrev pub orders_for_plan : String → OrderManager F → List (PaperOrder F)
  orders_for_plan plan m = filterb (λ o. is_for_plan plan o.plan_id) (values m.orders)

  unfoldable pub resident_fills : Dict (PaperOrder F) → ℕ
  resident_fills [] = 0
  resident_fills ((k, o) ∷ orders) = length o.fills + resident_fills orders
