-- ===== src/Strategy/Trail.antt =====
-- The way of an opportunity through the strategy state machine (`transition` and `_reject` of
-- apps/orchestrator/orchestrator.py).
use octopush.Prelude.{
  ℕ, String, ◌≡◌, refl, sym, ap, ◌∙◌, subst, true, false, ◌||◌, Option, none, some, List, [], ◌∷◌,
  ◌++◌, map, any, All, ◌==◌, arith, inl, inr, Bool-cases, if◌then◌else◌,
}
use octopush.Strategy.{
  StrategyState, idle, opportunity_detected, agents_evaluating, consensus_reached, risk_check,
  authorized, executing, hedging, reconciling, monitoring, exiting, closed, rejected, code,
  is_state, strategy_transitions, StateChange, OpportunityRecord, detected, is_end, can_move,
  transition, reject,
}

abbrev decode : ℕ → StrategyState
decode n =
    if n == 0
    then idle
    else if n == 1
    then opportunity_detected
    else if n == 2
    then agents_evaluating
    else if n == 3
    then consensus_reached
    else if n == 4
    then risk_check
    else if n == 5
    then authorized
    else if n == 6
    then executing
    else if n == 7
    then hedging
    else if n == 8
    then reconciling
    else if n == 9
    then monitoring
    else if n == 10
    then exiting
    else if n == 11
    then closed
    else rejected

decode-code : (s : StrategyState) → decode (code s) ≡ s
decode-code idle = refl
decode-code opportunity_detected = refl
decode-code agents_evaluating = refl
decode-code consensus_reached = refl
decode-code risk_check = refl
decode-code authorized = refl
decode-code executing = refl
decode-code hedging = refl
decode-code reconciling = refl
decode-code monitoring = refl
decode-code exiting = refl
decode-code closed = refl
decode-code rejected = refl

is_state-eq : (a b : StrategyState) → is_state a b ≡ true → a ≡ b
is_state-eq a b h =
    let same : code a ≡ code b = ground arith in
    sym (decode-code a) ∙ ap decode same ∙ decode-code b

any-All :
    (P : StrategyState → Type 0) (t : StrategyState) (xs : List StrategyState)
    → any (is_state t) xs ≡ true
    → All P xs
    → P t
any-All P t [] h a = cc
any-All P t (x ∷ xs) h a = elim (Bool-cases (is_state t x)) [
  | inl here ↦ subst P (sym (is_state-eq t x here)) a.0
  | inr there ↦ any-All P t xs (rw there at h) a.1
]

-- The states on the way to execution, and what an opportunity has been through when it is in one.
abbrev pub trail : StrategyState → Option (List StrategyState)
trail opportunity_detected = some []
trail agents_evaluating = some (agents_evaluating ∷ [])
trail consensus_reached = some (agents_evaluating ∷ consensus_reached ∷ [])
trail risk_check = some (agents_evaluating ∷ consensus_reached ∷ risk_check ∷ [])
trail authorized = some (agents_evaluating ∷ consensus_reached ∷ risk_check ∷ authorized ∷ [])
trail executing =
    some (agents_evaluating ∷ consensus_reached ∷ risk_check ∷ authorized ∷ executing ∷ [])
trail _ = none

abbrev Follows : List StrategyState → Option (List StrategyState) → Type 0
Follows done none = Unit
Follows done (some states) = done ≡ states

-- No move leads into the trail but the next one on it.
Follows-move :
    (s : StrategyState) (done : List StrategyState)
    → is_state s idle ≡ false
    → Follows done (trail s)
    → All
        (λ t. Follows (done ++ t ∷ []) (trail t) × (is_state t idle ≡ false))
        (strategy_transitions s)
Follows-move idle done n h = cc
Follows-move opportunity_detected done n h =
    ((ap (λ d. d ++ agents_evaluating ∷ []) h, refl), ((tt, refl), tt))
Follows-move agents_evaluating done n h =
    ((ap (λ d. d ++ consensus_reached ∷ []) h, refl), ((tt, refl), tt))
Follows-move consensus_reached done n h =
    ((ap (λ d. d ++ risk_check ∷ []) h, refl), ((tt, refl), tt))
Follows-move risk_check done n h = ((ap (λ d. d ++ authorized ∷ []) h, refl), ((tt, refl), tt))
Follows-move authorized done n h = ((ap (λ d. d ++ executing ∷ []) h, refl), ((tt, refl), tt))
Follows-move executing done n h = ((tt, refl), ((tt, refl), ((tt, refl), ((tt, refl), tt))))
Follows-move hedging done n h = ((tt, refl), ((tt, refl), tt))
Follows-move reconciling done n h = ((tt, refl), ((tt, refl), tt))
Follows-move monitoring done n h = ((tt, refl), ((tt, refl), tt))
Follows-move exiting done n h = ((tt, refl), ((tt, refl), tt))
Follows-move closed done n h = tt
Follows-move rejected done n h = tt

pub data Request : Type 0 where
  moves : StrategyState → Request
  rejects : String → Request

unfoldable pub step : OpportunityRecord → ℕ × Request → OpportunityRecord
step r (now, moves target) = (transition target now r).1
step r (now, rejects reason) = (reject reason now r).1

unfoldable pub run : OpportunityRecord → List (ℕ × Request) → OpportunityRecord
run r [] = r
run r (q ∷ qs) = run (step r q) qs

-- The states that an opportunity has entered, in order.
abbrev pub entered : OpportunityRecord → List StrategyState
entered r = map (λ c. c.after) r.published

abbrev Invariant : OpportunityRecord → Type 0
Invariant r =
    (is_state r.state idle ≡ false)
    × Follows (entered r) (trail r.state)
    × (r.released ≡ is_end r.state)

entered-moved :
    (cs : List StateChange) (c : StateChange)
    → map (λ (d : StateChange). d.after) (cs ++ c ∷ [])
      ≡ map (λ (d : StateChange). d.after) cs ++ c.after ∷ []
entered-moved [] c = refl
entered-moved (d ∷ cs) c = ap (λ l. d.after ∷ l) (entered-moved cs c)

released_once :
    (s : StrategyState) → All (λ t. (is_end s || is_end t) ≡ is_end t) (strategy_transitions s)
released_once idle = (refl, tt)
released_once opportunity_detected = (refl, (refl, tt))
released_once agents_evaluating = (refl, (refl, tt))
released_once consensus_reached = (refl, (refl, tt))
released_once risk_check = (refl, (refl, tt))
released_once authorized = (refl, (refl, tt))
released_once executing = (refl, (refl, (refl, (refl, tt))))
released_once hedging = (refl, (refl, tt))
released_once reconciling = (refl, (refl, tt))
released_once monitoring = (refl, (refl, tt))
released_once exiting = (refl, (refl, tt))
released_once closed = tt
released_once rejected = tt

transition-Invariant :
    (target : StrategyState) (now : ℕ) (r : OpportunityRecord)
    → Invariant r
    → Invariant (transition target now r).1
unfolding transition can_move
transition-Invariant target now r (n, f, e) =
    elim (Bool-cases (any (is_state target) (strategy_transitions r.state))) [
      | inr barred ↦ rw barred (n, f, e)
      | inl free ↦
          let (follows, named) =
            any-All (λ t. Follows (entered r ++ t ∷ []) (trail t) × (is_state t idle ≡ false))
              target (strategy_transitions r.state) free (Follows-move r.state (entered r) n f) in
          rw free (
            named,
            subst (λ l. Follows l (trail target)) (sym (entered-moved r.published _)) follows,
            ap (λ b. b || is_end target) e
                ∙ any-All (λ t. (is_end r.state || is_end t) ≡ is_end t) target
                    (strategy_transitions r.state) free (released_once r.state),
          )
    ]

step-Invariant : (q : ℕ × Request) (r : OpportunityRecord) → Invariant r → Invariant (step r q)
unfolding step reject
step-Invariant (now, moves target) r v = transition-Invariant target now r v
step-Invariant (now, rejects reason) r v =
    transition-Invariant rejected now (record r { rejected_reason = some reason }) v

run-Invariant :
    (qs : List (ℕ × Request)) (r : OpportunityRecord) → Invariant r → Invariant (run r qs)
unfolding run
run-Invariant [] r v = v
run-Invariant (q ∷ qs) r v = run-Invariant qs (step r q) (step-Invariant q r v)

-- Whatever moves and rejections are asked for, an opportunity that is executing has entered exactly
-- AGENTS_EVALUATING, CONSENSUS_REACHED, RISK_CHECK, AUTHORIZED and EXECUTING, in this order, and has
-- not been released.
pub run-executing :
    (qs : List (ℕ × Request))
    → (run detected qs).state ≡ executing
    → (entered (run detected qs)
        ≡ agents_evaluating ∷ consensus_reached ∷ risk_check ∷ authorized ∷ executing ∷ [])
      × ((run detected qs).released ≡ false)
run-executing qs h =
    let (n, f, e) = run-Invariant qs detected (refl, refl, refl) in
    (subst (λ s. Follows (entered (run detected qs)) (trail s)) h f, e ∙ ap is_end h)

-- Whatever moves and rejections are asked for, an opportunity has been released exactly when it is
-- CLOSED or REJECTED.
pub run-released :
    (qs : List (ℕ × Request)) → (run detected qs).released ≡ is_end (run detected qs).state
run-released qs = let (n, f, e) = run-Invariant qs detected (refl, refl, refl) in e
