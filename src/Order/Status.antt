-- ===== src/Order/Status.antt =====
-- `OrderStatus`, `TERMINAL_STATUSES` and `ORDER_TRANSITIONS` of core/models/execution.py.
use octopush.Prelude.{Bool, String, List, [], ◌∷◌, str_eq, any}

pub data OrderStatus : Type 0 where
  created submitting acknowledged open_order partially_filled filled cancel_pending cancelled
        rejected expired unknown :
      OrderStatus

-- The value of the string enumeration.
pub value : OrderStatus → String
value created = "CREATED"
value submitting = "SUBMITTING"
value acknowledged = "ACKNOWLEDGED"
value open_order = "OPEN"
value partially_filled = "PARTIALLY_FILLED"
value filled = "FILLED"
value cancel_pending = "CANCEL_PENDING"
value cancelled = "CANCELLED"
value rejected = "REJECTED"
value expired = "EXPIRED"
value unknown = "UNKNOWN"

-- `a is b`
unfoldable pub is_status : OrderStatus → OrderStatus → Bool
unfolding value
is_status a b = str_eq (value a) (value b)

abbrev terminal_statuses : List OrderStatus
terminal_statuses = filled ∷ cancelled ∷ rejected ∷ expired ∷ []

abbrev transitions : OrderStatus → List OrderStatus
transitions created = submitting ∷ rejected ∷ []
transitions submitting = acknowledged ∷ rejected ∷ unknown ∷ []
transitions acknowledged =
    open_order ∷ partially_filled ∷ filled ∷ rejected ∷ cancel_pending ∷ unknown ∷ []
transitions open_order =
    partially_filled ∷ filled ∷ cancel_pending ∷ cancelled ∷ expired ∷ unknown ∷ []
transitions partially_filled =
    partially_filled ∷ filled ∷ cancel_pending ∷ cancelled ∷ expired ∷ unknown ∷ []
transitions cancel_pending = cancelled ∷ filled ∷ partially_filled ∷ unknown ∷ []
transitions unknown = open_order ∷ partially_filled ∷ filled ∷ cancelled ∷ rejected ∷ expired ∷ []
transitions _ = []

-- `status in statuses`
unfoldable pub among : List OrderStatus → OrderStatus → Bool
unfolding is_status
among statuses s = any (is_status s) statuses

unfoldable pub is_terminal_status : OrderStatus → Bool
unfolding among
is_terminal_status s = among terminal_statuses s

-- `status in ORDER_TRANSITIONS[current]`
unfoldable pub can_step : OrderStatus → OrderStatus → Bool
unfolding among
can_step current s = among (transitions current) s
