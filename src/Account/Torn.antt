-- ===== src/Account/Torn.antt =====
-- A fee that the position's schema refuses (core/models/portfolio.py, `fees_paid` at least zero;
-- core/config/settings.py allows fee rates down to -10 bps): where `apply_fill` of
-- execution/paper/account.py stops.
use octopush.Prelude.{
  ◌+◌, ◌<◌, ◌≡◌, refl, sym, ap, ◌∙◌, subst, true, false, Option, none, some, arith,
}
use octopush.Prelude.Dict.{insert, lookup-insert_self}
use octopush.Prelude.Float.{Float, ◌⊕◌, ◌⊗◌, ◌⊘◌, ◌⩽◌, zero_float}
use octopush.Prelude.Action.{Result, ok, raised, validation_error}
use octopush.Order.{Side, sign, FillEvent}
use octopush.Dedupe.{seen, admit}
use octopush.Dedupe.Horizon.{IsWindow, seen-admit}
use octopush.Account.Reconcile.{SameLedger, admitted-SameLedger}
use octopush.Position.{PositionState, is_flat, increase, reduce, apply, new_position}
use octopush.Account.{
  PaperAccount, admitted, roll_day, finish, apply_fill, fill_position, position_of, key_of, Ledger,
}

module _ {F : Type 0} ⦃fl : Float F⦄ where
  apply_refused :
      (side : Side) (quantity price fee : F) (p : PositionState F)
      → (zero_float ⩽ (p.fees_paid ⊕ fee)) ≡ false
      → (apply side quantity price fee p).0 ≡ raised validation_error
  unfolding apply increase reduce
  apply_refused side quantity price fee p h = ground arith

  apply_refused-quantity :
      (side : Side) (quantity price fee : F) (p : PositionState F)
      → is_flat p ≡ true
      → let signed = quantity ⊗ fl.of_int (sign side) in
        let new_qty = p.quantity ⊕ signed in
        (zero_float ⩽ (p.average_entry_price ⊗ p.quantity ⊕ price ⊗ signed) ⊘ new_qty) ≡ true
        → (apply side quantity price fee p).1.quantity ≡ p.quantity ⊕ signed
  unfolding apply increase
  apply_refused-quantity side quantity price fee p flat valid = ground arith

  admitted-fields :
      (f : FillEvent F) (a : PaperAccount F)
      → ((admitted f a).fills_applied ≡ a.fills_applied + 1)
        × ((admitted f a).fees_paid ≡ a.fees_paid)
        × ((admitted f a).window ≡ admit f.fill_id a.window)
  unfolding admitted roll_day
  admitted-fields f a = ground arith

  finish-raised :
      (f : FillEvent F) (r : Result F) (p : PositionState F) (a : PaperAccount F)
      → r ≡ raised validation_error
      → finish f (r, p) a
        ≡ (raised validation_error, record a { positions = insert (key_of f) p a.positions })
  unfolding finish
  finish-raised f r p a e = rw (e, finish)

  -- The account after the refused fee.
  abbrev torn : FillEvent F → PaperAccount F → PaperAccount F
  torn f a = record (admitted f a) {
    positions =
        insert (key_of f) (fill_position f (position_of f a.positions)).1 (admitted f a).positions;
  }

  apply_fill-torn :
      (f : FillEvent F) (a : PaperAccount F)
      → seen f.fill_id a.window ≡ false
      → (zero_float ⩽ ((position_of f a.positions).fees_paid ⊕ f.fee)) ≡ false
      → apply_fill f a ≡ (raised validation_error, torn f a)
  unfolding apply_fill
  apply_fill-torn f a new negative = rw new (
      finish-raised f _ (fill_position f (position_of f a.positions)).1 (admitted f a)
        (apply_refused f.side f.quantity f.price f.fee (position_of f a.positions) negative))

  apply_fill-seen :
      (f : FillEvent F) (a : PaperAccount F)
      → seen f.fill_id a.window ≡ true
      → apply_fill f a ≡ (ok false, a)
  unfolding apply_fill
  apply_fill-seen f a old = rw old

  -- A new fill meets a flat position, its average price passes validation, and its fee would take the
  -- position's fee total below zero, as a maker rebate does on a position that has paid no fee. With
  -- a duplicate window that keeps at least one id, the call raises. The fill then counts as applied
  -- and the position has its quantity, but cash, the account's fees and the fill log stay as they
  -- were, and a second delivery is dropped as a duplicate.
  pub apply_fill_rebate :
      (f : FillEvent F) (a : PaperAccount F)
      → IsWindow a.window
      → 0 < a.window.retained
      → seen f.fill_id a.window ≡ false
      → let p = position_of f a.positions in
        let signed = f.quantity ⊗ fl.of_int (sign f.side) in
        is_flat p ≡ true
        → (zero_float
            ⩽ (p.average_entry_price ⊗ p.quantity ⊕ f.price ⊗ signed) ⊘ (p.quantity ⊕ signed))
          ≡ true
        → (zero_float ⩽ (p.fees_paid ⊕ f.fee)) ≡ false
        → let (r, b) = apply_fill f a in
          (r ≡ raised validation_error)
          × (b.fills_applied ≡ a.fills_applied + 1)
          × ((position_of f b.positions).quantity ≡ p.quantity ⊕ signed)
          × (b.cash ≡ a.cash)
          × (b.fees_paid ≡ a.fees_paid)
          × (b.fill_log ≡ a.fill_log)
          × (apply_fill f b ≡ (ok false, b))
  apply_fill_rebate f a w room new flat valid negative = rw (apply_fill-torn f a new negative) (
    refl,
    fields.0,
    ap (λ o. (or_new o).quantity) (lookup-insert_self (key_of f) _ (admitted f a).positions)
        ∙ apply_refused-quantity f.side f.quantity f.price f.fee (position_of f a.positions) flat
            valid,
    ap (λ (l : Ledger F). l.cash) same.ledgers,
    fields.1,
    same.logs,
    apply_fill-seen f (torn f a) (
        subst (λ u. seen f.fill_id u ≡ true) (sym fields.2)
          (seen-admit f.fill_id a.window w new room)),
  )
    where
      or_new : Option (PositionState F) → PositionState F
      or_new none = new_position f.venue f.symbol
      or_new (some p) = p

      fields :
          ((admitted f a).fills_applied ≡ a.fills_applied + 1)
          × ((admitted f a).fees_paid ≡ a.fees_paid)
          × ((admitted f a).window ≡ admit f.fill_id a.window)
      fields = admitted-fields f a

      same : SameLedger (admitted f a) a
      same = admitted-SameLedger f a
