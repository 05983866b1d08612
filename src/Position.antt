-- ===== src/Position.antt =====
-- `PositionState` of core/models/portfolio.py: one venue and symbol's net position, by average cost.
-- The schema validates each assignment: an average entry price or a fee total that is not at least
-- zero raises, and leaves what was written before.
use octopush.Prelude.{
  ℕ, String, Bool, true, false, not, ◌||◌, Option, none, some, text_append, if◌then◌else◌,
}
use octopush.Prelude.Float.{Float, ◌⊕◌, ◌⊖◌, ◌⊗◌, ◌⊘◌, ◌⋖◌, ◌⩽◌, zero_float, min_float}
use octopush.Prelude.Action.{Action, ok, raised, validation_error, ◌>>=◌, ◌>>◌, modify, pure}
use octopush.Order.{Side, sign}

pub record PositionState (F : Type 0) : Type 0 where
  pub venue : String
  pub symbol : String
  pub quantity : F
  pub average_entry_price : F
  pub realized_pnl : F
  pub fees_paid : F
  pub mark_price : Option F
  pub updated_at : Option ℕ

-- `f"{venue}:{symbol}"`
abbrev pub position_key : String → String → String
position_key venue symbol = text_append venue (text_append ":" symbol)

-- `a == b` on truth values
abbrev pub agree : Bool → Bool → Bool
agree true b = b
agree false b = not b

module _ {F : Type 0} ⦃fl : Float F⦄ where
  abbrev pub flat_epsilon : F
  flat_epsilon = fl.decimal 1 12

  -- `PositionState(venue=…, symbol=…)`
  abbrev pub new_position : String → String → PositionState F
  new_position venue symbol = record {
    venue = venue;
    symbol = symbol;
    quantity = zero_float;
    average_entry_price = zero_float;
    realized_pnl = zero_float;
    fees_paid = zero_float;
    mark_price = none;
    updated_at = none;
  }

  unfoldable pub is_flat : PositionState F → Bool
  is_flat p = fl.absolute p.quantity ⋖ flat_epsilon

  abbrev mark_or_entry : Option F → F → F
  mark_or_entry none entry = entry
  mark_or_entry (some mark) entry = mark

  unfoldable pub notional : PositionState F → F
  notional p = fl.absolute p.quantity ⊗ mark_or_entry p.mark_price p.average_entry_price

  unfoldable pub signed_notional : PositionState F → F
  signed_notional p = p.quantity ⊗ mark_or_entry p.mark_price p.average_entry_price

  abbrev gain_at : Option F → PositionState F → F
  gain_at none p = zero_float
  gain_at (some mark) p =
      if is_flat p then zero_float else (mark ⊖ p.average_entry_price) ⊗ p.quantity

  unfoldable pub unrealized_pnl : PositionState F → F
  unrealized_pnl p = gain_at p.mark_price p

  -- The validated assignments.
  abbrev set_average : F → Action (PositionState F) (Unit {0})
  set_average price p =
      if zero_float ⩽ price
      then (ok tt, record p { average_entry_price = price })
      else (raised validation_error, p)

  abbrev set_fees : F → Action (PositionState F) (Unit {0})
  set_fees fees p =
      if zero_float ⩽ fees
      then (ok tt, record p { fees_paid = fees })
      else (raised validation_error, p)

  abbrev set_quantity : F → Action (PositionState F) (Unit {0})
  set_quantity q = modify (λ p. record p { quantity = q })

  -- Opening or increasing: the average entry price rolls forward.
  unfoldable pub increase : F → F → Action (PositionState F) F
  increase signed price p =
      let new_qty = p.quantity ⊕ signed in
      let average = (p.average_entry_price ⊗ p.quantity ⊕ price ⊗ signed) ⊘ new_qty in
      ((if flat_epsilon ⋖ fl.absolute new_qty then set_average average else pure tt)
          >> set_quantity new_qty
          >> pure zero_float)
        p

  -- Closing, and opening the other way where the fill is larger than the position.
  unfoldable pub reduce : F → F → Action (PositionState F) F
  reduce signed price p =
      let closing = min_float (fl.absolute signed) (fl.absolute p.quantity) in
      let direction =
        if zero_float ⋖ p.quantity then fl.decimal 1 0 else fl.opposite (fl.decimal 1 0) in
      let realized = (price ⊖ p.average_entry_price) ⊗ closing ⊗ direction in
      let remaining = fl.absolute signed ⊖ closing in
      let new_qty = p.quantity ⊕ signed in
      (set_quantity new_qty
          >> (if fl.absolute new_qty ⋖ flat_epsilon
              then set_quantity zero_float >> set_average zero_float
              else if zero_float ⋖ remaining
              then set_average price
              else pure tt)
          >> pure realized)
        p

  -- `PositionState.apply`
  unfoldable pub apply : Side → F → F → F → Action (PositionState F) F
  apply side quantity price fee p =
      let signed = quantity ⊗ fl.of_int (sign side) in
      ((if is_flat p || agree (zero_float ⋖ p.quantity) (zero_float ⋖ signed)
            then increase signed price
            else reduce signed price)
          >>= λ realized q.
              ((modify (λ u. record u { realized_pnl = u.realized_pnl ⊕ realized })
                  >> set_fees (q.fees_paid ⊕ fee)
                  >> pure realized)
                q))
        p
