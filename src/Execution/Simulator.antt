-- ===== src/Execution/Simulator.antt =====
-- execution/paper/simulator.py: what an order trades against a view of the book. The seeded generator
-- is a parameter, `Draws`; each `rng.random()` is one draw. The schema's validation of a fill is left
-- out, that of a moved price is not.
use octopush.Prelude.{
  ℕ, String, Bool, true, false, ◌||◌, Option, none, some, List, [], ◌∷◌, filterb, is_nil,
  if◌then◌else◌,
}
use octopush.Prelude.Int.{pos}
use octopush.Prelude.Float.{Float, ◌⊕◌, ◌⊖◌, ◌⊗◌, ◌⊘◌, ◌⋖◌, ◌⩽◌, zero_float, min_float, max_float}
use octopush.Prelude.Action.{Action, Result, ok, raised, validation_error, ◌>>=◌, pure}
use octopush.Order.{
  Side, buy, sell, sign, OrderType, market, limit, ioc, fok, Liquidity, maker, taker, FillEvent,
  PaperOrder, remaining_quantity,
}
use octopush.Settings.{FeeSchedule, fee_bps, ExecutionConfig}
use octopush.Book.{PriceLevel}
use octopush.Oms.{qty_epsilon}
use octopush.Execution.Costs.{walk_book, bps}

-- The next number in [0, 1) of a generator of states `R`.
pub record Draws (F R : Type 0) : Type 0 where
  pub draw : R → F × R

pub record SimulatedFill (F : Type 0) : Type 0 where
  pub quantity : F
  pub price : F
  pub fee : F
  pub liquidity : Liquidity
  pub slippage_bps : F

pub record BookView (F : Type 0) : Type 0 where
  pub opposing : List (PriceLevel F)
  pub own_touch : Option F
  pub traded_through : F

abbrev pub is_market : OrderType → Bool
is_market market = true
is_market limit = false

-- `is_marketable`
unfoldable pub is_marketable : {F : Type 0} → PaperOrder F → Bool
is_marketable o =
    is_market o.order_type || (elim o.time_in_force [ ioc ↦ true | fok ↦ true | _ ↦ false ])

module _ {F : Type 0} ⦃fl : Float F⦄ where
  abbrev pub one : F
  one = fl.of_int (pos 1)

  abbrev pub drift_factor : Side → F → F
  drift_factor buy drift = one ⊕ drift ⊘ bps
  drift_factor sell drift = one ⊖ drift ⊘ bps

  -- The levels at prices times a factor; the schema refuses a price that is not positive.
  unfoldable pub moved_levels : F → List (PriceLevel F) → Result (List (PriceLevel F))
  moved_levels factor [] = ok []
  moved_levels factor (level ∷ levels) =
      let rest = moved_levels factor levels in
      if zero_float ⋖ level.price ⊗ factor
      then elim rest [
        | ok ls ↦ ok (record level { price = level.price ⊗ factor } ∷ ls)
        | raised e ↦ raised e
      ]
      else raised validation_error

  unfoldable pub latency_adjusted_levels :
      ExecutionConfig F → List (PriceLevel F) → Side → F → Result (List (PriceLevel F))
  latency_adjusted_levels config levels side latency =
      if latency ⩽ zero_float || is_nil levels
      then ok levels
      else moved_levels
          (drift_factor side (config.latency_drift_bps_per_100ms ⊗ (latency ⊘ fl.of_int (pos 100))))
          levels

  abbrev pub fee_for : F → FeeSchedule F → Liquidity → F
  fee_for notional fees maker = notional ⊗ fee_bps fees true ⊘ bps
  fee_for notional fees taker = notional ⊗ fee_bps fees false ⊘ bps

  -- `level.price <= limit` for a buyer, `>=` for a seller
  abbrev pub reaches : Side → F → F → Bool
  reaches buy price limit_price = price ⩽ limit_price
  reaches sell price limit_price = limit_price ⩽ price

  abbrev pub within_limit : PaperOrder F → List (PriceLevel F) → List (PriceLevel F)
  within_limit o levels = elim o.limit_price [
    | none ↦ levels
    | some price ↦
        if is_market o.order_type
        then levels
        else filterb (λ l. reaches o.side l.price price) levels
  ]

  abbrev pub slippage_of : PaperOrder F → F → F
  slippage_of o price =
      if zero_float ⋖ o.expected_price
      then (price ⊖ o.expected_price) ⊘ o.expected_price ⊗ bps ⊗ fl.of_int (sign o.side)
      else zero_float

  abbrev pub simulated : PaperOrder F → FeeSchedule F → Liquidity → F → F → SimulatedFill F
  simulated o fees liquidity quantity price = record {
    quantity = quantity;
    price = price;
    fee = fee_for (quantity ⊗ price) fees liquidity;
    liquidity = liquidity;
    slippage_bps = slippage_of o price;
  }

  -- The fill of a marketable order from the levels that it may consume.
  unfoldable pub taken :
      ExecutionConfig F
      → PaperOrder F
      → FeeSchedule F
      → List (PriceLevel F)
      → Option (SimulatedFill F)
  taken config o fees [] = none
  taken config o fees (level ∷ levels) =
      let cap = config.max_partial_fraction in
      let wanted = if cap ⋖ one then remaining_quantity o ⊗ cap else remaining_quantity o in
      let walk = walk_book (level ∷ levels) (wanted ⊗ level.price) o.side in
      if walk.filled_quantity ⩽ zero_float
      then none
      else some (simulated o fees taker (min_float wanted walk.filled_quantity) walk.average_price)

  -- The end of `fill_passive`, at a price: the part beyond the queue, by a draw.
  abbrev pub passed_queue :
      ExecutionConfig F → PaperOrder F → FeeSchedule F → F → F → Option (SimulatedFill F)
  passed_queue config o fees price drawn =
      let share = max_float zero_float (one ⊖ config.queue_ahead_fraction ⊗ drawn) in
      let quantity = remaining_quantity o ⊗ share in
      if quantity ⩽ qty_epsilon then none else some (simulated o fees maker quantity price)

  -- The probability that a resting order trades, where it can.
  abbrev pub maker_probability : ExecutionConfig F → PaperOrder F → BookView F → F → F → Option F
  maker_probability config o view touch price =
      if reaches o.side touch price
      then some config.maker_fill_probability
      else if view.traded_through ⩽ zero_float
      then none
      else some (
          config.maker_fill_probability
          ⊗ min_float one
              (view.traded_through ⊘ max_float (fl.decimal 1 9) (remaining_quantity o ⊗ price)))

  -- `build_fill`, with the id that `new_id` mints
  abbrev pub build_fill : String → PaperOrder F → SimulatedFill F → ℕ → FillEvent F
  build_fill minted o s now = record {
    fill_id = minted;
    client_order_id = o.client_order_id;
    created_at = now;
    venue = o.venue;
    symbol = o.symbol;
    side = o.side;
    quantity = s.quantity;
    price = s.price;
    fee = s.fee;
    liquidity = s.liquidity;
    slippage_bps = s.slippage_bps;
    strategy = o.strategy;
  }

module _ {F R : Type 0} ⦃fl : Float F⦄ ⦃dr : Draws F R⦄ where
  -- The loop of `apply_vanishing_liquidity`.
  unfoldable pub survivors : F → List (PriceLevel F) → R → List (PriceLevel F) × R
  survivors probability [] r = ([], r)
  survivors probability (level ∷ levels) r =
      let (drawn, r') = dr.draw r in
      let (rest, r'') = survivors probability levels r' in
      (if drawn ⋖ probability then rest else level ∷ rest, r'')

  unfoldable pub apply_vanishing_liquidity :
      ExecutionConfig F → Action R (List (PriceLevel F)) → Action R (List (PriceLevel F))
  apply_vanishing_liquidity config levels = levels >>= λ ls r.
      if config.liquidity_vanish_probability ⩽ zero_float
      then (ok ls, r)
      else let (left, r') = survivors config.liquidity_vanish_probability ls r in (ok left, r')

  -- `fill_marketable`
  unfoldable pub fill_marketable :
      ExecutionConfig F
      → PaperOrder F
      → BookView F
      → FeeSchedule F
      → F
      → Action R (Option (SimulatedFill F))
  fill_marketable config o view fees latency =
      apply_vanishing_liquidity config
        (λ r. (latency_adjusted_levels config view.opposing o.side latency, r))
      >>= λ levels. pure (taken config o fees (within_limit o levels))

  -- The draws of `fill_passive`.
  abbrev pub resting :
      ExecutionConfig F
      → PaperOrder F
      → FeeSchedule F
      → F
      → Option F
      → R
      → Option (SimulatedFill F) × R
  resting config o fees price none r = (none, r)
  resting config o fees price (some probability) r =
      let (first, r') = dr.draw r in
      let (second, r'') = dr.draw r' in
      if probability ⋖ first then (none, r') else (passed_queue config o fees price second, r'')

  abbrev pub at_touch :
      ExecutionConfig F
      → PaperOrder F
      → BookView F
      → FeeSchedule F
      → F
      → List (PriceLevel F)
      → R
      → Option (SimulatedFill F) × R
  at_touch config o view fees price [] r = (none, r)
  at_touch config o view fees price (level ∷ _) r =
      resting config o fees price (maker_probability config o view level.price price) r

  -- `fill_passive`
  unfoldable pub fill_passive :
      ExecutionConfig F
      → PaperOrder F
      → BookView F
      → FeeSchedule F
      → R
      → Option (SimulatedFill F) × R
  fill_passive config o view fees r = elim o.limit_price [
    | none ↦ (none, r)
    | some price ↦ at_touch config o view fees price view.opposing r
  ]

  abbrev pub race_at : ExecutionConfig F → PaperOrder F → F → List (PriceLevel F) → R → Bool × R
  race_at config o price [] r = (true, r)
  race_at config o price (level ∷ _) r =
      let (drawn, r') = dr.draw r in
      if reaches o.side level.price price
      then (config.maker_fill_probability ⋖ drawn, r')
      else (true, r)

  -- `cancel_wins_race`
  unfoldable pub cancel_wins_race : ExecutionConfig F → PaperOrder F → BookView F → R → Bool × R
  cancel_wins_race config o view r =
      if is_market o.order_type then (false, r) else elim o.limit_price [
        | none ↦ (true, r)
        | some price ↦ race_at config o price view.opposing r
      ]
