-- ===== src/Account/Session.antt =====
-- A session of the paper account (execution/paper/account.py): fills, marks and seals in any order.
use octopush.Prelude.{ℕ, ◌≡◌, refl, Option, List, [], ◌∷◌, subst}
use octopush.Prelude.Dict.{Dict}
use octopush.Prelude.Float.{Float}
use octopush.Prelude.Action.{Result, ok, raised, and_then, and_then-eq-ok, ok_injective}
use octopush.Order.{FillEvent}
use octopush.Account.{PaperAccount, open_account, apply_fill, mark, seal}
use octopush.Account.Reconcile.{
  IsReconciled, open_account-IsReconciled, apply_fill-IsReconciled, mark-IsReconciled, seal_lem,
}

pub data Call (F : Type 0) : Type 0 where
  fills : FillEvent F → Call F
  marks : Dict F → ℕ → Call F
  seals : Option ℕ → ℕ → Call F

-- The state after a call that returned; an exception ends the session.
abbrev returned : {S A : Type 0} → Result A × S → Result S
returned (ok a, s) = ok s
returned (raised e, s) = raised e

module _ {F : Type 0} ⦃fl : Float F⦄ where
  unfoldable pub step : Call F → PaperAccount F → Result (PaperAccount F)
  step (fills f) a = returned (apply_fill f a)
  step (marks ms stamp) a = ok (mark ms stamp a)
  step (seals count now) a = returned (seal count now a)

  unfoldable pub run : List (Call F) → PaperAccount F → Result (PaperAccount F)
  run [] a = ok a
  run (c ∷ cs) a = and_then (step c a) (run cs)

  returned-IsReconciled :
      {A : Type 0} (r : Result A) (a b : PaperAccount F)
      → ((x : A) → r ≡ ok x → IsReconciled a)
      → returned (r, a) ≡ ok b
      → IsReconciled b
  returned-IsReconciled (ok x) a b keep e = subst IsReconciled (ok_injective e) (keep x refl)
  returned-IsReconciled (raised x) a b keep e = cc

  step-IsReconciled :
      (c : Call F) (a b : PaperAccount F) → IsReconciled a → step c a ≡ ok b → IsReconciled b
  unfolding step
  step-IsReconciled (fills f) a b v e =
      returned-IsReconciled (apply_fill f a).0 (apply_fill f a).1 b
        (λ x h. apply_fill-IsReconciled f x a v h) e
  step-IsReconciled (marks ms stamp) a b v e =
      subst IsReconciled (ok_injective e) (mark-IsReconciled ms stamp a v)
  step-IsReconciled (seals count now) a b v e =
      returned-IsReconciled (seal count now a).0 (seal count now a).1 b
        (λ _ _. (seal_lem count now a v).4) e

  run-IsReconciled :
      (cs : List (Call F)) (a b : PaperAccount F)
      → IsReconciled a
      → run cs a ≡ ok b
      → IsReconciled b
  unfolding run
  run-IsReconciled [] a b v e = subst IsReconciled (ok_injective e) v
  run-IsReconciled (c ∷ cs) a b v e =
      let (a', first, rest) = and_then-eq-ok (step c a) (run cs) e in
      run-IsReconciled cs a' b (step-IsReconciled c a a' v first) rest

  -- However fills, marks and seals follow on one another from an account's opening on: as long as
  -- none of them raises, what `recompute_from_fills` rebuilds is the running cash, realised P&L and
  -- positions to the last bit, marks and times of update left aside.
  pub run-open_account-IsReconciled :
      (cs : List (Call F)) (balance : F) (retained now : ℕ) (a : PaperAccount F)
      → run cs (open_account balance retained now) ≡ ok a
      → IsReconciled a
  run-open_account-IsReconciled cs balance retained now a e =
      run-IsReconciled cs _ a (open_account-IsReconciled balance retained now) e
