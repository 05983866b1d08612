-- ===== src/RuneCore/Decisions.antt =====
-- The decisions of agents/rune/core.py (`evaluate`): when they approve, and what they count.
use octopush.Prelude.{
  ℕ, ◌+◌, String, ◌≡◌, ◌↔◌, refl, sym, ap, ◌∙◌, Bool, true, false, List, [], ◌∷◌, map, filterb,
  is_nil, arith, inl, inr, Bool-cases, if◌then◌else◌,
}
use octopush.Prelude.Float.{Float, ◌⊖◌, ◌⋖◌, zero_float}
use octopush.Opportunity.{TradeIntent}
use octopush.Risk.{GateCheck, blocking}
use octopush.RuneCore.{
  RiskContext, RiskDecision, RuneCore, approved, checks, headroom, sized, gate, evaluate,
  failed_gates, decided,
}
use octopush.RuneCore.Permission.{IsPermitted}
use octopush.RuneCore.Safety.{Passes-nil, nil-Passes, Passes-IsPermitted, IsPermitted-Passes}

-- The outcome of an evaluation of an intent that was sized to `fitted`.
pub record IsSettled {F : Type 0} ⦃fl : Float F⦄ (core : RuneCore F) (intent fitted : TradeIntent F)
    (core' : RuneCore F) (d : RiskDecision F) : Type 0 where
  -- An approval is for the fitted size, a rejection for nothing.
  pub size : d.approved_notional ≡ (if approved d then fitted.notional else zero_float)
  -- It approves exactly when no gate that it reports blocks.
  pub clean : approved d ≡ is_nil (failed_gates d)
  -- A rejection names the gates that block.
  pub reasons : approved d ≡ false → d.reason_codes ≡ map (λ c. c.name) (failed_gates d)
  pub requested : d.requested_notional ≡ intent.notional
  pub limits : core'.limits ≡ core.limits
  pub evaluations : core'.evaluations ≡ core.evaluations + 1
  pub rejections : core'.rejections ≡ (if approved d then core.rejections else core.rejections + 1)

module _ {F : Type 0} ⦃fl : Float F⦄ (original intent : TradeIntent F) (now : ℕ) (id : String)
    (reduced : Bool) (core : RuneCore F) (all : List (GateCheck F)) where
  decided-approved :
      (blocked : List (GateCheck F))
      → approved (decided original intent now id reduced all blocked core).1 ≡ is_nil blocked
  unfolding approved
  decided-approved [] = ground arith
  decided-approved (b ∷ rest) = refl

  decided-IsSettled :
      (blocked : List (GateCheck F))
      → filterb blocking all ≡ blocked
      → let (core', d) = decided original intent now id reduced all blocked core in
        IsSettled core original intent core' d
  unfolding approved failed_gates
  decided-IsSettled [] e = record {
    size = ground arith;
    clean = ground arith;
    reasons = ground arith;
    requested = refl;
    limits = refl;
    evaluations = refl;
    rejections = ground arith;
  }
  decided-IsSettled (b ∷ rest) e = record {
    size = refl;
    clean = rw e refl;
    reasons = λ _. rw e refl;
    requested = refl;
    limits = refl;
    evaluations = refl;
    rejections = refl;
  }

is_nil-eq {ℓ} : {A : Type ℓ} (xs : List A) → is_nil xs ≡ true → xs ≡ []
is_nil-eq [] h = refl
is_nil-eq (x ∷ xs) h = cc

module _ {F : Type 0} ⦃fl : Float F⦄ (core : RuneCore F) (intent : TradeIntent F)
    (ctx : RiskContext F) (now : ℕ) (id : String) where
  enough-approved :
      (headroom core.limits intent ctx ⋖ core.limits.min_trade_notional) ≡ false
      → approved (evaluate intent ctx now id core).1
        ≡ is_nil (filterb blocking (checks core.limits (sized core.limits intent ctx) ctx now))
  unfolding evaluate gate
  enough-approved enough = rw enough (
      decided-approved intent (sized core.limits intent ctx) now id _ core _
        (filterb blocking (checks core.limits (sized core.limits intent ctx) ctx now)))

  small-approved :
      (headroom core.limits intent ctx ⋖ core.limits.min_trade_notional) ≡ true
      → approved (evaluate intent ctx now id core).1 ≡ false
  unfolding evaluate approved
  small-approved small = rw small refl

  -- A decision approves exactly when the headroom is no smaller than the smallest trade and every
  -- gate permits the intent at the size that is left.
  pub evaluate-approved : (approved (evaluate intent ctx now id core).1 ≡ true) ↔ (
      ((headroom core.limits intent ctx ⋖ core.limits.min_trade_notional) ≡ false)
      × IsPermitted core.limits (sized core.limits intent ctx) ctx now)
  evaluate-approved =
      elim (Bool-cases (headroom core.limits intent ctx ⋖ core.limits.min_trade_notional)) [
        | inl small ↦ (λ a. cc (small-approved small), λ h. cc (h.0))
        | inr enough ↦ (
          λ a.
              let clear = is_nil-eq _ (sym (enough-approved enough) ∙ a) in
              (enough, Passes-IsPermitted _ _ _ _ (Passes-nil _ clear)),
          λ h.
              enough-approved enough
              ∙ ap is_nil (nil-Passes _ (IsPermitted-Passes core.limits _ ctx now h.1)),
        )
      ]

  -- Every evaluation returns a decision that is consistent in itself: an approval is for the intent's
  -- size, fitted to the headroom, and no gate of its list blocks; a rejection is for zero, and its
  -- reasons are the names of the gates of its list that block, of which there is one at least. It
  -- repeats the notional that was asked for. The limits stay as they are, the evaluations are
  -- counted, and the rejections are too.
  pub evaluate-IsSettled :
      IsSettled core intent
        (sized core.limits intent ctx)
        (evaluate intent ctx now id core).0
        (evaluate intent ctx now id core).1
  unfolding evaluate approved failed_gates blocking gate
  evaluate-IsSettled =
      elim (Bool-cases (headroom core.limits intent ctx ⋖ core.limits.min_trade_notional)) [
        | inl small ↦ rw small record {
          size = refl;
          clean = refl;
          reasons = λ _. refl;
          requested = refl;
          limits = refl;
          evaluations = refl;
          rejections = refl;
        }
        | inr enough ↦ rw enough (
            decided-IsSettled intent (sized core.limits intent ctx) now id
              ((sized core.limits intent ctx).notional ⋖ (intent.notional ⊖ fl.decimal 1 9)) core
              (checks core.limits (sized core.limits intent ctx) ctx now) _ refl)
      ]
