-- ===== src/Account/Replay.antt =====
-- A replay of fills (execution/paper/account.py, `recompute_from_fills` and `seal`) does not read
-- the fields in which the account's positions differ from a replay's: the mark and its time.
use octopush.Prelude.{String, ◌≡◌, refl, sym, ap, ◌∙◌, none, List, [], ◌∷◌, ◌++◌, arith}
use octopush.Prelude.Dict.{Dict, insert, get_or}
use octopush.Prelude.Float.{Float, ◌⊕◌, ◌⊗◌}
use octopush.Prelude.Action.{Result, ok, raised, and_then, and_then_assoc}
use octopush.Order.{Side, sign, FillEvent, cash_delta}
use octopush.Position.{PositionState, new_position, is_flat, increase, reduce, apply}
use octopush.Account.{Ledger, key_of, position_of, fill_position, continue, replay_one, replay}

module _ {F : Type 0} where
  -- A position without its mark.
  abbrev pub unmarked : PositionState F → PositionState F
  unmarked p = record p { mark_price = none; updated_at = none }

  abbrev pub unmarked_all : Dict (PositionState F) → Dict (PositionState F)
  unmarked_all [] = []
  unmarked_all ((k, p) ∷ ps) = (k, unmarked p) ∷ unmarked_all ps

  pub unmarked-insert :
      (k : String) (p : PositionState F) (ps : Dict (PositionState F))
      → unmarked_all (insert k p ps) ≡ insert k (unmarked p) (unmarked_all ps)
  unmarked-insert k p [] = refl
  unmarked-insert k p ((j, q) ∷ ps) = ground (arith, unmarked-insert k p ps)

module _ {F : Type 0} ⦃fl : Float F⦄ where
  increase-unmarked :
      (signed price : F) (p : PositionState F)
      → increase signed price (unmarked p)
        ≡ ((increase signed price p).0, unmarked (increase signed price p).1)
  unfolding increase
  increase-unmarked signed price p = ground arith

  reduce-unmarked :
      (signed price : F) (p : PositionState F)
      → reduce signed price (unmarked p)
        ≡ ((reduce signed price p).0, unmarked (reduce signed price p).1)
  unfolding reduce
  reduce-unmarked signed price p = ground arith

  apply-unmarked :
      (side : Side) (quantity price fee : F) (p : PositionState F)
      → apply side quantity price fee (unmarked p)
        ≡ ((apply side quantity price fee p).0, unmarked (apply side quantity price fee p).1)
  unfolding apply is_flat
  apply-unmarked side quantity price fee p = ground (
    arith,
    increase-unmarked (quantity ⊗ fl.of_int (sign side)) price p,
    reduce-unmarked (quantity ⊗ fl.of_int (sign side)) price p,
  )

  unmarked-lookup :
      (k : String) (default : PositionState F) (ps : Dict (PositionState F))
      → get_or k (unmarked default) (unmarked_all ps) ≡ unmarked (get_or k default ps)
  unmarked-lookup k default [] = refl
  unmarked-lookup k default ((j, q) ∷ ps) = ground (arith, unmarked-lookup k default ps)

  abbrev pub unmarked_ledger : Ledger F → Ledger F
  unmarked_ledger l = record l { positions = unmarked_all l.positions }

  continue-unmarked :
      (f : FillEvent F) (l : Ledger F) (r : Result F) (p : PositionState F)
      → continue f (unmarked_ledger l) (r, unmarked p)
        ≡ and_then (continue f l (r, p)) (λ m. ok (unmarked_ledger m))
  unfolding continue
  continue-unmarked f l (ok realized) p =
      ap
        (λ ps. ok (record {
          cash = l.cash ⊕ cash_delta f;
          positions = ps;
          realized = l.realized ⊕ realized;
        }))
        (sym (unmarked-insert (key_of f) p l.positions))
  continue-unmarked f l (raised e) p = refl

  replay_one-unmarked :
      (f : FillEvent F) (l : Ledger F)
      → replay_one f (unmarked_ledger l) ≡ and_then (replay_one f l) (λ m. ok (unmarked_ledger m))
  replay_one-unmarked f l =
      let p = position_of f l.positions in
      ap (λ q. continue f (unmarked_ledger l) (fill_position f q))
        (unmarked-lookup (key_of f) (new_position f.venue f.symbol) l.positions)
      ∙ ap (continue f (unmarked_ledger l)) (apply-unmarked f.side f.quantity f.price f.fee p)
      ∙ continue-unmarked f l (fill_position f p).0 (fill_position f p).1

  -- A replay in two parts.
  pub replay-append :
      (fs gs : List (FillEvent F)) (l : Ledger F)
      → replay (fs ++ gs) l ≡ and_then (replay fs l) (replay gs)
  unfolding replay
  replay-append [] gs l = refl
  replay-append (f ∷ fs) gs l =
      and_then_assoc (replay_one f l) (replay (fs ++ gs)) (replay fs) (replay gs)
        (replay-append fs gs)

  -- Ledgers that agree but for the marks go on to agree.
  pub replay_one-agrees :
      (f : FillEvent F) (l m : Ledger F)
      → unmarked_ledger l ≡ unmarked_ledger m
      → and_then (replay_one f l) (λ n. ok (unmarked_ledger n))
        ≡ and_then (replay_one f m) (λ n. ok (unmarked_ledger n))
  replay_one-agrees f l m e =
      sym (replay_one-unmarked f l) ∙ ap (replay_one f) e ∙ replay_one-unmarked f m
