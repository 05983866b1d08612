-- ===== src/Order.antt =====
-- core/models/common.py (`Side`, `OrderType`, `TimeInForce`, `Liquidity`) and
-- core/models/execution.py: fills, the paper order and its state machine.
pub mod Status
pub mod Lifecycle
pub mod Totals
pub mod Sound
pub mod Terminal
mod Tests
use octopush.Prelude.{
  ℕ, String, Bool, true, false, not, ◌&&◌, ◌||◌, Option, none, some, List, [], ◌∷◌, ◌++◌, any,
  str_eq, if◌then◌else◌,
}
use octopush.Prelude.Int.{ℤ, pos, negsuc}
use octopush.Prelude.Float.{Float, ◌⊕◌, ◌⊖◌, ◌⊗◌, ◌⊘◌, ◌⋖◌, ◌⩽◌, zero_float, max_float}
use octopush.Prelude.Action.{
  Action, Result, ok, raised, value_error, illegal_transition, ◌>>=◌, ◌>>◌, modify, raise_if,
}
use Status.{OrderStatus, created, unknown, is_status, is_terminal_status, can_step}

pub data Side : Type 0 where
  buy sell : Side

-- `Side.sign`
abbrev pub sign : Side → ℤ
sign buy = pos 1
sign sell = negsuc 0

pub data OrderType : Type 0 where
  market limit : OrderType

pub data TimeInForce : Type 0 where
  gtc ioc fok post_only : TimeInForce

pub data Liquidity : Type 0 where
  maker taker : Liquidity

pub record FillEvent (F : Type 0) : Type 0 where
  pub fill_id : String
  pub client_order_id : String
  pub created_at : ℕ
  pub venue : String
  pub symbol : String
  pub side : Side
  pub quantity : F
  pub price : F
  pub fee : F
  pub liquidity : Liquidity
  pub slippage_bps : F
  pub strategy : Option String

pub record PaperOrder (F : Type 0) : Type 0 where
  pub created_at : ℕ
  pub client_order_id : String
  pub venue_order_id : Option String
  pub plan_id : Option String
  pub intent_id : Option String
  pub strategy : Option String
  pub venue : String
  pub symbol : String
  pub side : Side
  pub order_type : OrderType
  pub time_in_force : TimeInForce
  pub quantity : F
  pub limit_price : Option F
  pub expected_price : F
  pub status : OrderStatus
  pub filled_quantity : F
  pub average_price : Option F
  pub fees_paid : F
  pub submitted_at : Option ℕ
  pub acknowledged_at : Option ℕ
  pub terminal_at : Option ℕ
  pub expires_at : Option ℕ
  pub reject_reason : Option String
  pub fills : List (FillEvent F)
  pub history : List (ℕ × OrderStatus)

module _ {F : Type 0} where
  unfoldable pub is_terminal : PaperOrder F → Bool
  is_terminal o = is_terminal_status o.status

  unfoldable pub is_live : PaperOrder F → Bool
  unfolding is_terminal
  is_live o = not (is_terminal o) && not (is_status unknown o.status)

  unfoldable pub can_transition_to : PaperOrder F → OrderStatus → Bool
  can_transition_to o status = can_step o.status status

  -- The order after `transition` has passed its check.
  unfoldable pub moved : OrderStatus → ℕ → PaperOrder F → PaperOrder F
  moved status now_ms o = record o {
    status = status;
    history = o.history ++ (now_ms, status) ∷ [];
    terminal_at = if is_terminal_status status then some now_ms else o.terminal_at;
  }

  -- `PaperOrder.transition`
  unfoldable pub transition : OrderStatus → ℕ → Action (PaperOrder F) (Unit {0})
  transition status now_ms o =
      if not (can_transition_to o status)
      then (raised illegal_transition, o)
      else (ok tt, moved status now_ms o)

  unfoldable pub holds_fill : String → List (FillEvent F) → Bool
  holds_fill id = any (λ f. str_eq f.fill_id id)

module _ {F : Type 0} ⦃fl : Float F⦄ where
  unfoldable pub notional : FillEvent F → F
  notional f = f.price ⊗ f.quantity

  unfoldable pub signed_quantity : FillEvent F → F
  signed_quantity f = f.quantity ⊗ fl.of_int (sign f.side)

  -- `FillEvent.cash_delta`
  unfoldable pub cash_delta : FillEvent F → F
  unfolding signed_quantity
  cash_delta f = fl.opposite (signed_quantity f) ⊗ f.price ⊖ f.fee

  unfoldable pub remaining_quantity : PaperOrder F → F
  remaining_quantity o = max_float zero_float (o.quantity ⊖ o.filled_quantity)

  -- `self.average_price or 0.0`
  abbrev pub average_or_zero : Option F → F
  average_or_zero none = zero_float
  average_or_zero (some p) = if fl.same p zero_float then zero_float else p

  -- The order after `apply_fill` has accepted a new fill.
  unfoldable pub filled_by : FillEvent F → PaperOrder F → PaperOrder F
  filled_by f o =
      let prior_notional = average_or_zero o.average_price ⊗ o.filled_quantity in
      let filled = o.filled_quantity ⊕ f.quantity in
      record o {
        fills = o.fills ++ f ∷ [];
        filled_quantity = filled;
        fees_paid = o.fees_paid ⊕ f.fee;
        average_price = some ((prior_notional ⊕ f.price ⊗ f.quantity) ⊘ filled);
      }

  -- `PaperOrder.apply_fill`
  unfoldable pub apply_fill : FillEvent F → Action (PaperOrder F) (Unit {0})
  apply_fill f o =
      if not (str_eq f.client_order_id o.client_order_id)
      then (raised value_error, o)
      else if holds_fill f.fill_id o.fills
      then (ok tt, o)
      else (ok tt, filled_by f o)
