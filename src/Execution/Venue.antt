-- ===== src/Execution/Venue.antt =====
-- execution/paper/executor.py: what `PaperExecutor` keeps and reads, and its actions on its parts. The
-- time is an argument; ids come from `mint` in order, one set aside for each order that is placed and
-- each fill that is built; what is published is a list, newest last.
use octopush.Prelude.{
  ℕ, String, Bool, false, Option, none, some, List, [], ◌∷◌, ◌++◌, if◌then◌else◌,
}
use octopush.Prelude.Dict.{Dict, lookup, insert}
use octopush.Prelude.Float.{Float, ◌⊕◌, ◌⊗◌, zero_float}
use octopush.Prelude.Action.{Action, ok, raised, modify}
use octopush.Order.{Side, buy, sell, FillEvent, PaperOrder}
use octopush.Settings.{VenueConfig, ExecutionConfig, venue_named}
use octopush.Book.{PriceLevel}
use octopush.Consensus.{is_usable}
use octopush.Market.{MarketState, venue_state}
use octopush.Oms.{OrderManager, PlannedOrder, live_orders}
use octopush.Account.{PaperAccount}
use octopush.Opportunity.{ExecutionPlan}
use octopush.Events.{EventType}
use octopush.Execution.Router.{opposing_side}
use octopush.Execution.Simulator.{BookView}

-- `_Pending`
pub record Pending (F : Type 0) : Type 0 where
  pub ack_at : ℕ
  pub cancel_at : Option ℕ
  pub traded_through : F
  pub force_unknown : Bool

pub record ExecutionReport (F : Type 0) : Type 0 where
  pub created_at : ℕ
  pub correlation_id : Option String
  pub plan_id : String
  pub intent_id : String
  pub orders : List (PaperOrder F)
  pub complete : Bool

-- The payload of a published event.
pub data Posted (F : Type 0) : Type 0 where
  order_posted : PaperOrder F → Posted F
  fill_posted : FillEvent F → Posted F
  plan_posted : ExecutionPlan F (PlannedOrder F) → Posted F
  report_posted : ExecutionReport F → Posted F

-- `rng` is the state of the simulator's generator, `minted` the number of ids that were minted.
pub record PaperExecutor (F R : Type 0) : Type 0 where
  pub venues : List (VenueConfig F)
  pub config : ExecutionConfig F
  pub oms : OrderManager F
  pub account : PaperAccount F
  pub rng : R
  pub mint : ℕ → String
  pub minted : ℕ
  pub market : Option (MarketState F)
  pub pending : Dict (Pending F)
  pub execution_disabled : Bool
  pub rejected_submissions : ℕ
  pub published : List (EventType × Posted F)

abbrev pub pending_or : {F : Type 0} → Pending F → Option (Pending F) → Pending F
pending_or p none = p
pending_or _ (some p) = p

abbrev pub other_side : Side → Side
other_side buy = sell
other_side sell = buy

abbrev pub touch_of : {F : Type 0} → List (PriceLevel F) → Option F
touch_of [] = none
touch_of (l ∷ _) = some l.price

-- `_Pending(ack_at=…)`
abbrev pub acknowledged_from : {F : Type 0} → ⦃fl : Float F⦄ → ℕ → Pending F
acknowledged_from at = record {
  ack_at = at;
  cancel_at = none;
  traded_through = zero_float;
  force_unknown = false;
}

-- One order of `_accrue_trade_flow`.
abbrev pub accrue_one :
    {F : Type 0}
    → ⦃fl : Float F⦄ → MarketState F
    → PaperOrder F
    → Dict (Pending F)
    → Dict (Pending F)
accrue_one ⦃fl = fl⦄ m o ps = elim (lookup o.client_order_id ps) [
  | none ↦ ps
  | some p ↦ elim o.limit_price [
    | none ↦ ps
    | some _ ↦ elim (venue_state o.venue o.symbol m) [
      | none ↦ ps
      | some s ↦
          insert o.client_order_id
            (record p {
              traded_through =
                  p.traded_through
                  ⊕ (s.metrics.buy_volume ⊕ s.metrics.sell_volume) ⊗ fl.decimal 1 2;
            })
            ps
    ]
  ]
]

unfoldable pub accrue :
    {F : Type 0}
    → ⦃fl : Float F⦄ → MarketState F
    → List (PaperOrder F)
    → Dict (Pending F)
    → Dict (Pending F)
accrue m [] ps = ps
accrue m (o ∷ os) ps = accrue m os (accrue_one m o ps)

-- The order objects of some ids.
abbrev pub orders_at : {F : Type 0} → List String → Dict (PaperOrder F) → List (PaperOrder F)
orders_at [] d = []
orders_at (id ∷ ids) d =
    let rest = orders_at ids d in elim (lookup id d) [ none ↦ rest | some o ↦ o ∷ rest ]

module _ {F R : Type 0} where
  -- Actions on the parts.
  abbrev pub on_oms : {A : Type 0} → Action (OrderManager F) A → Action (PaperExecutor F R) A
  on_oms act x = let (r, o) = act x.oms in (r, record x { oms = o })

  abbrev pub on_account : {A : Type 0} → Action (PaperAccount F) A → Action (PaperExecutor F R) A
  on_account act x = let (r, a) = act x.account in (r, record x { account = a })

  -- An assignment to a field of an order object.
  abbrev pub change_order :
      String → (PaperOrder F → PaperOrder F) → Action (PaperExecutor F R) (Unit {0})
  change_order id f x = elim (lookup id x.oms.orders) [
    | none ↦ (ok tt, x)
    | some o ↦ (ok tt, record x { oms = record x.oms { orders = insert id (f o) x.oms.orders } })
  ]

  -- `_publish_order`: the order as it is then.
  abbrev pub publish_order : EventType → String → Action (PaperExecutor F R) (Unit {0})
  publish_order type id x = elim (lookup id x.oms.orders) [
    | none ↦ (ok tt, x)
    | some o ↦ (ok tt, record x { published = x.published ++ (type, order_posted o) ∷ [] })
  ]

  abbrev pub set_pending : String → Pending F → Action (PaperExecutor F R) (Unit {0})
  set_pending id p = modify (λ x. record x { pending = insert id p x.pending })

  -- `_levels`, of the side that an order of side `side` consumes
  abbrev pub levels_for : Side → String → String → PaperExecutor F R → List (PriceLevel F)
  levels_for side venue symbol x = elim x.market [
    | none ↦ []
    | some m ↦ elim (venue_state venue symbol m) [
      | none ↦ []
      | some s ↦ elim s.book [
        | none ↦ []
        | some b ↦ if is_usable s.quality then opposing_side side b else []
      ]
    ]
  ]

  -- `_latency`: 40 for an unknown venue.
  unfoldable pub latency_of : String → PaperExecutor F R → ℕ
  latency_of venue x = elim (venue_named venue x.venues) [ ok v ↦ v.latency_ms | raised _ ↦ 40 ]

  -- `_pending.setdefault(id, …)`, and `cancel_at` set on it
  abbrev pub cancel_from : ⦃fl : Float F⦄ → String → ℕ → ℕ → Action (PaperExecutor F R) (Unit {0})
  cancel_from id now at x =
      let found = pending_or (acknowledged_from now) (lookup id x.pending) in
      set_pending id (record found { cancel_at = some at }) x

module _ {F R : Type 0} ⦃fl : Float F⦄ where
  -- `_book_view`
  unfoldable pub book_view : PaperOrder F → PaperExecutor F R → BookView F
  book_view o x = record {
    opposing = levels_for o.side o.venue o.symbol x;
    own_touch = touch_of (levels_for (other_side o.side) o.venue o.symbol x);
    traded_through = elim (lookup o.client_order_id x.pending) [
      | none ↦ zero_float
      | some p ↦ p.traded_through
    ];
  }

  -- `update_market`
  unfoldable pub update_market : MarketState F → PaperExecutor F R → PaperExecutor F R
  update_market m x = record x { market = some m; pending = accrue m (live_orders x.oms) x.pending }
