-- ===== src/Account/Reconcile.antt =====
-- The second opinion of execution/paper/account.py: what `recompute_from_fills` rebuilds against the
-- running state, through fills, marks and sealing.
use octopush.Prelude.{
  ℕ, ◌≤◌, ◌+◌, ◌≡◌, refl, sym, ap, ◌∙◌, Bool, Option, none, some, [], ◌∷◌, take, drop, length,
  take-append-drop, length-drop, arith, inl, inr, Bool-cases, leb,
}
use octopush.Prelude.Dict.{Dict}
use octopush.Prelude.Float.{Float, ◌⊕◌}
use octopush.Prelude.Action.{Result, ok, raised, and_then, and_then-eq-ok, ok_injective}
use octopush.Order.{FillEvent, cash_delta}
use octopush.Dedupe.{seen}
use octopush.Position.{PositionState}
use octopush.Account.{
  PaperAccount, Ledger, LedgerCheckpoint, open_account, admitted, roll_day, booked, finish,
  apply_fill, mark, mark_all, mark_for, marked, continue, replay_one, replay, sealed_ledger,
  sealed_to, seal_limit, running_ledger, recompute_from_fills, seal, fill_position, position_of,
  key_of,
}
use octopush.Account.Replay.{
  unmarked, unmarked_all, unmarked_ledger, unmarked-insert, replay-append, replay_one-agrees,
}

seal_limit-le : (count : Option ℕ) (n : ℕ) → seal_limit count n ≤ n
seal_limit-le none n = omega arith
seal_limit-le (some c) n = omega arith

module _ {F : Type 0} ⦃fl : Float F⦄ where
  abbrev pub forget_marks : Result (Ledger F) → Result (Ledger F)
  forget_marks r = and_then r (λ l. ok (unmarked_ledger l))

  -- The rebuild raises nothing and gives the running cash, realised P&L and positions, to the last
  -- bit; of the positions the marks and the times of update are left out, which a rebuild does not
  -- know.
  abbrev pub IsReconciled : PaperAccount F → Type 0
  IsReconciled a = forget_marks (recompute_from_fills a) ≡ ok (unmarked_ledger (running_ledger a))

  pub open_account-IsReconciled :
      (balance : F) (retained now : ℕ) → IsReconciled (open_account balance retained now)
  unfolding recompute_from_fills replay open_account
  open_account-IsReconciled balance retained now = refl

  -- Admitting a fill leaves the ledger, the log and the checkpoint alone.
  pub record SameLedger (a b : PaperAccount F) : Type 0 where
    pub logs : a.fill_log ≡ b.fill_log
    pub checkpoints : a.checkpoint ≡ b.checkpoint
    pub ledgers : running_ledger a ≡ running_ledger b

  roll_day-SameLedger : (now : ℕ) (a : PaperAccount F) → SameLedger (roll_day now a) a
  unfolding roll_day
  roll_day-SameLedger now a = ground arith

  pub admitted-SameLedger : (f : FillEvent F) (a : PaperAccount F) → SameLedger (admitted f a) a
  unfolding admitted
  admitted-SameLedger f a =
      let s = roll_day-SameLedger f.created_at _ in
      record { logs = s.logs; checkpoints = s.checkpoints; ledgers = s.ledgers }

  SameLedger-IsReconciled :
      (a b : PaperAccount F) → SameLedger a b → IsReconciled b → IsReconciled a
  unfolding recompute_from_fills
  SameLedger-IsReconciled a b s v =
      ap (λ fs. forget_marks (replay fs (sealed_ledger a))) s.logs
      ∙ ap
          (λ (c : LedgerCheckpoint F). forget_marks (
            replay b.fill_log
              (record { cash = c.cash; positions = c.positions; realized = c.realized_pnl })))
          s.checkpoints
      ∙ v
      ∙ ap (λ l. ok (unmarked_ledger l)) (sym s.ledgers)

  forget-one :
      (f : FillEvent F) (l : Ledger F)
      → forget_marks (replay (f ∷ []) l) ≡ forget_marks (replay_one f l)
  unfolding replay
  forget-one f l = from (replay_one f l)
    where
      from : (r : Result (Ledger F)) → forget_marks (and_then r (replay [])) ≡ forget_marks r
      from (ok m) = refl
      from (raised e) = refl

  booked-IsReconciled :
      (f : FillEvent F) (realized : F) (p : PositionState F) (a : PaperAccount F)
      → IsReconciled a
      → fill_position f (position_of f a.positions) ≡ (ok realized, p)
      → IsReconciled (booked f realized p a)
  unfolding recompute_from_fills booked continue
  booked-IsReconciled f realized p a v e =
      let (l, whole, same) = and_then-eq-ok (replay a.fill_log (sealed_ledger a)) _ v in
      ap forget_marks (replay-append a.fill_log (f ∷ []) (sealed_ledger a))
      ∙ ap (λ r. forget_marks (and_then r (replay (f ∷ [])))) whole
      ∙ forget-one f l
      ∙ replay_one-agrees f l (running_ledger a) (ok_injective same)
      ∙ ap (λ x. forget_marks (continue f (running_ledger a) x)) e
      ∙ ap
          (λ ps. ok (record {
            cash = a.cash ⊕ cash_delta f;
            positions = ps;
            realized = a.realized_pnl ⊕ realized;
          }))
          (unmarked-insert (key_of f) p a.positions
            ∙ sym (
                unmarked-insert (key_of f) (record p { updated_at = some f.created_at })
                  a.positions))

  -- A fill that is new and does not raise, or is a duplicate, keeps the account reconciled.
  finish-IsReconciled :
      (f : FillEvent F) (x : Result F × PositionState F) (b : Bool) (a : PaperAccount F)
      → IsReconciled a
      → fill_position f (position_of f a.positions) ≡ x
      → (finish f x a).0 ≡ ok b
      → IsReconciled (finish f x a).1
  unfolding finish
  finish-IsReconciled f (ok realized, p) b a v e h = booked-IsReconciled f realized p a v e
  finish-IsReconciled f (raised x, p) b a v e h = cc

  pub apply_fill-IsReconciled :
      (f : FillEvent F) (b : Bool) (a : PaperAccount F)
      → IsReconciled a
      → (apply_fill f a).0 ≡ ok b
      → IsReconciled (apply_fill f a).1
  unfolding apply_fill
  apply_fill-IsReconciled f b a v h = elim (Bool-cases (seen f.fill_id a.window)) [
    | inl old ↦ rw old v
    | inr new ↦ rw new (
        finish-IsReconciled f (fill_position f (position_of f a.positions)) b (admitted f a)
          (SameLedger-IsReconciled (admitted f a) a (admitted-SameLedger f a) v)
          (ap (λ (l : Ledger F). fill_position f (position_of f l.positions))
            (admitted-SameLedger f a).ledgers)
          (rw new at h))
  ]

  unmarked-marked :
      (stamp : ℕ) (price : Option F) (p : PositionState F)
      → unmarked (marked stamp price p) ≡ unmarked p
  unmarked-marked stamp none p = refl
  unmarked-marked stamp (some price) p = ground arith

  unmarked-mark :
      (stamp : ℕ) (marks : Dict F) (ps : Dict (PositionState F))
      → unmarked_all (mark_all stamp marks ps) ≡ unmarked_all ps
  unfolding mark_all
  unmarked-mark stamp marks [] = refl
  unmarked-mark stamp marks ((k, p) ∷ ps) = λ i.
      (k, unmarked-marked stamp (mark_for marks k p.symbol) p i) ∷ unmarked-mark stamp marks ps i

  -- Marking moves prices and the peak, and leaves the account reconciled.
  pub mark-IsReconciled :
      (marks : Dict F) (stamp : ℕ) (a : PaperAccount F)
      → IsReconciled a
      → IsReconciled (mark marks stamp a)
  unfolding mark recompute_from_fills
  mark-IsReconciled marks stamp a v =
      v
      ∙ ap (λ ps. ok (record { cash = a.cash; positions = ps; realized = a.realized_pnl }))
          (sym (unmarked-mark stamp marks a.positions))

  -- What a seal of `limit` fills does once its replay has given `l`.
  sealed_to_lem :
      (limit now : ℕ) (a : PaperAccount F) (l : Ledger F)
      → limit ≤ length a.fill_log
      → IsReconciled a
      → replay (take limit a.fill_log) (sealed_ledger a) ≡ ok l
      → (recompute_from_fills (sealed_to limit now a l) ≡ recompute_from_fills a)
        × ((sealed_to limit now a l).checkpoint.fills_sealed
              + length (sealed_to limit now a l).fill_log
            ≡ a.checkpoint.fills_sealed + length a.fill_log)
        × IsReconciled (sealed_to limit now a l)
  unfolding recompute_from_fills
  sealed_to_lem limit now a l within v e =
      (rest, omega (arith, length-drop limit a.fill_log), ap forget_marks rest ∙ v)
    where
      rest : replay (drop limit a.fill_log) l ≡ replay a.fill_log (sealed_ledger a)
      rest =
          ap (λ r. and_then r (replay (drop limit a.fill_log))) (sym e)
          ∙ sym (replay-append (take limit a.fill_log) (drop limit a.fill_log) (sealed_ledger a))
          ∙ ap (λ fs. replay fs (sealed_ledger a)) (take-append-drop limit a.fill_log)

  replay-take :
      (limit : ℕ) (a : PaperAccount F)
      → IsReconciled a
      → (l : Ledger F) × (replay (take limit a.fill_log) (sealed_ledger a) ≡ ok l)
  unfolding recompute_from_fills
  replay-take limit a v =
      let (whole, e, _) = and_then-eq-ok (replay a.fill_log (sealed_ledger a)) _ v in
      let (l, d, _) =
        and_then-eq-ok (replay (take limit a.fill_log) (sealed_ledger a))
          (replay (drop limit a.fill_log))
          (sym (replay-append (take limit a.fill_log) (drop limit a.fill_log) (sealed_ledger a))
            ∙ ap (λ fs. replay fs (sealed_ledger a)) (take-append-drop limit a.fill_log)
            ∙ e) in
      (l, d)

  -- Sealing a prefix of the log, of any length asked for, cannot raise on a reconciled account. The
  -- rebuild gives the same before and after, bit for bit, the running ledger stays, and no fill is
  -- lost from the count of sealed and unsealed ones.
  pub seal_lem :
      (count : Option ℕ) (now : ℕ) (a : PaperAccount F)
      → IsReconciled a
      → let (r, b) = seal count now a in
        (r ≡ ok (seal_limit count (length a.fill_log)))
        × (recompute_from_fills b ≡ recompute_from_fills a)
        × (running_ledger b ≡ running_ledger a)
        × (b.checkpoint.fills_sealed + length b.fill_log
            ≡ a.checkpoint.fills_sealed + length a.fill_log)
        × IsReconciled b
  unfolding seal
  seal_lem count now a v =
      let limit = seal_limit count (length a.fill_log) in
      let (l, e) = replay-take limit a v in
      let (same, kept, again) = sealed_to_lem limit now a l (seal_limit-le count _) v e in
      elim (Bool-cases (leb limit 0)) [
        | inl none_due ↦ rw none_due (ap ok (ground arith), refl, refl, refl, v)
        | inr some_due ↦ rw (some_due, e, seal) (refl, same, refl, kept, again)
      ]
