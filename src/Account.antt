-- ===== src/Account.antt =====
-- execution/paper/account.py: the paper account, its fill log and its checkpoint. The time is an
-- argument where the source asks the clock.
pub mod Replay
pub mod Reconcile
pub mod Session
pub mod Torn
mod Tests
use octopush.Prelude.{
  ℕ, zero, suc, ◌+◌, ◌-◌, String, Bool, true, false, not, Option, none, some, List, [], ◌∷◌, ◌++◌,
  map, length, take, drop, leb, if◌then◌else◌,
}
use Prim.Native.Nat.{min}
use octopush.Prelude.Dict.{Dict, lookup, insert, get_or, values}
use octopush.Prelude.Float.{Float, ◌⊕◌, ◌⊖◌, ◌⋖◌, zero_float, max_float}
use octopush.Prelude.Action.{Action, Result, ok, raised, and_then}
use octopush.Order.{FillEvent, cash_delta}
use octopush.Dedupe.{Window, empty, seen, admit}
use octopush.Position.{PositionState, position_key, new_position, signed_notional, unrealized_pnl}
use octopush.Position

abbrev pub day_ms : ℕ
day_ms = 86_400_000

pub record LedgerCheckpoint (F : Type 0) : Type 0 where
  pub fills_sealed : ℕ
  pub cash : F
  pub realized_pnl : F
  pub fees_paid : F
  pub positions : Dict (PositionState F)
  pub sealed_at : Option ℕ

pub record PaperAccount (F : Type 0) : Type 0 where
  pub initial_balance : F
  pub cash : F
  pub positions : Dict (PositionState F)
  pub realized_pnl : F
  pub fees_paid : F
  pub peak_equity : F
  pub day_realized_pnl : F
  pub day_started_at : Option ℕ
  pub fill_log : List (FillEvent F)
  pub checkpoint : LedgerCheckpoint F
  pub fills_applied : ℕ
  -- `_applied`, `_dedupe_order` and `retained_fills`
  pub window : Window

-- What a replay of fills carries along: cash, positions and realised P&L.
pub record Ledger (F : Type 0) : Type 0 where
  pub cash : F
  pub positions : Dict (PositionState F)
  pub realized : F

-- `len(log) if count is None else min(count, len(log))`
abbrev pub seal_limit : Option ℕ → ℕ → ℕ
seal_limit none n = n
seal_limit (some count) n = min count n

module _ {F : Type 0} ⦃fl : Float F⦄ where
  -- An account as `__post_init__` leaves it when only the balance was given.
  unfoldable pub open_account : F → ℕ → ℕ → PaperAccount F
  open_account balance retained now = record {
    initial_balance = balance;
    cash = balance;
    positions = [];
    realized_pnl = zero_float;
    fees_paid = zero_float;
    peak_equity = balance;
    day_realized_pnl = zero_float;
    day_started_at = some now;
    fill_log = [];
    checkpoint = record {
      fills_sealed = 0;
      cash = balance;
      realized_pnl = zero_float;
      fees_paid = zero_float;
      positions = [];
      sealed_at = none;
    };
    fills_applied = 0;
    window = empty retained;
  }

  -- `_roll_day`
  unfoldable pub roll_day : ℕ → PaperAccount F → PaperAccount F
  roll_day now a = elim a.day_started_at [
    | none ↦ record a { day_started_at = some now }
    | some start ↦
        if leb day_ms (now - start)
        then record a { day_started_at = some now; day_realized_pnl = zero_float }
        else a
  ]

  abbrev pub key_of : FillEvent F → String
  key_of f = position_key f.venue f.symbol

  -- The position of a fill, made where it is missing.
  abbrev pub position_of : FillEvent F → Dict (PositionState F) → PositionState F
  position_of f ps = get_or (key_of f) (new_position f.venue f.symbol) ps

  abbrev pub fill_position : FillEvent F → Action (PositionState F) F
  fill_position f = Position.apply f.side f.quantity f.price f.fee

  -- Everything that `apply_fill` does before it applies the fill to the position.
  unfoldable pub admitted : FillEvent F → PaperAccount F → PaperAccount F
  admitted f a =
      roll_day f.created_at
        (record a { window = admit f.fill_id a.window; fills_applied = a.fills_applied + 1 })

  -- Everything after it: `realized` is what the position returned, and `p` the position.
  unfoldable pub booked : FillEvent F → F → PositionState F → PaperAccount F → PaperAccount F
  booked f realized p a = record a {
    positions = insert (key_of f) (record p { updated_at = some f.created_at }) a.positions;
    cash = a.cash ⊕ cash_delta f;
    realized_pnl = a.realized_pnl ⊕ realized;
    day_realized_pnl = a.day_realized_pnl ⊕ (realized ⊖ f.fee);
    fees_paid = a.fees_paid ⊕ f.fee;
    fill_log = a.fill_log ++ f ∷ [];
  }

  -- The position object is in the dict while the fill is applied to it.
  unfoldable pub finish :
      FillEvent F → Result F × PositionState F → PaperAccount F → Result Bool × PaperAccount F
  finish f (ok realized, p) a = (ok true, booked f realized p a)
  finish f (raised e, p) a = (raised e, record a { positions = insert (key_of f) p a.positions })

  -- `PaperAccount.apply_fill`
  unfoldable pub apply_fill : FillEvent F → Action (PaperAccount F) Bool
  apply_fill f a =
      if seen f.fill_id a.window
      then (ok false, a)
      else finish f (fill_position f (position_of f a.positions)) (admitted f a)

  unfoldable pub equity : PaperAccount F → F
  equity a = a.cash ⊕ fl.sum (map signed_notional (values a.positions))

  -- `marks.get(key, marks.get(position.symbol))`, where it is positive.
  abbrev pub mark_for : Dict F → String → String → Option F
  mark_for marks key symbol = elim (lookup key marks) [
    | none ↦ lookup symbol marks
    | some price ↦ some price
  ]

  abbrev pub marked : ℕ → Option F → PositionState F → PositionState F
  marked stamp none p = p
  marked stamp (some price) p =
      if zero_float ⋖ price
      then record p { mark_price = some price; updated_at = some stamp }
      else p

  unfoldable pub mark_all : ℕ → Dict F → Dict (PositionState F) → Dict (PositionState F)
  mark_all stamp marks [] = []
  mark_all stamp marks ((k, p) ∷ ps) =
      (k, marked stamp (mark_for marks k p.symbol) p) ∷ mark_all stamp marks ps

  -- `PaperAccount.mark`
  unfoldable pub mark : Dict F → ℕ → PaperAccount F → PaperAccount F
  mark marks stamp a =
      let b = record a { positions = mark_all stamp marks a.positions } in
      record b { peak_equity = max_float b.peak_equity (equity b) }

  -- One fill of a replay, with what the position returned and became.
  unfoldable pub continue : FillEvent F → Ledger F → Result F × PositionState F → Result (Ledger F)
  continue f l (ok realized, p) = ok (record {
    cash = l.cash ⊕ cash_delta f;
    positions = insert (key_of f) p l.positions;
    realized = l.realized ⊕ realized;
  })
  continue f l (raised e, p) = raised e

  abbrev pub replay_one : FillEvent F → Ledger F → Result (Ledger F)
  replay_one f l = continue f l (fill_position f (position_of f l.positions))

  -- The loop over fills of `recompute_from_fills` and of `seal`.
  unfoldable pub replay : List (FillEvent F) → Ledger F → Result (Ledger F)
  replay [] l = ok l
  replay (f ∷ fs) l = and_then (replay_one f l) (replay fs)

  abbrev pub sealed_ledger : PaperAccount F → Ledger F
  sealed_ledger a = record {
    cash = a.checkpoint.cash;
    positions = a.checkpoint.positions;
    realized = a.checkpoint.realized_pnl;
  }

  abbrev pub running_ledger : PaperAccount F → Ledger F
  running_ledger a = record { cash = a.cash; positions = a.positions; realized = a.realized_pnl }

  -- `recompute_from_fills`
  unfoldable pub recompute_from_fills : PaperAccount F → Result (Ledger F)
  recompute_from_fills a = replay a.fill_log (sealed_ledger a)

  abbrev pub fee_of : FillEvent F → F
  fee_of f = f.fee

  abbrev pub sealed_to : ℕ → ℕ → PaperAccount F → Ledger F → PaperAccount F
  sealed_to limit now a l = record a {
    checkpoint = record {
      fills_sealed = a.checkpoint.fills_sealed + limit;
      cash = l.cash;
      realized_pnl = l.realized;
      fees_paid = a.checkpoint.fees_paid ⊕ fl.sum (map fee_of (take limit a.fill_log));
      positions = l.positions;
      sealed_at = some now;
    };
    fill_log = drop limit a.fill_log;
  }

  -- `seal`: a replay that raises leaves the account alone.
  unfoldable pub seal : Option ℕ → ℕ → Action (PaperAccount F) ℕ
  seal count now a =
      let limit = seal_limit count (length a.fill_log) in
      if leb limit 0 then (ok 0, a) else elim (replay (take limit a.fill_log) (sealed_ledger a)) [
        | ok l ↦ (ok limit, sealed_to limit now a l)
        | raised e ↦ (raised e, a)
      ]
