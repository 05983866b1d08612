-- ===== src/KillSwitch/Engagement.antt =====
-- The kill switch (risk/kill_switch/__init__.py): what has fired, what it halts, and what a reset
-- and the acknowledgements leave.
use octopush.Prelude.{
  is_nil, ℕ, ◌+◌, ltb, subst, String, ◌≡◌, refl, sym, ap, ◌∙◌, Bool, true, false, not, Option, none,
  some, List, [], ◌∷◌, ◌++◌, All, any, contains, arith, inl, inr, Bool-cases,
}
use octopush.Prelude.Dict.{get_or, get_or-All}
use octopush.Dedupe.Horizon.{NoRepeats, NoRepeats-snoc}
use octopush.KillSwitch.{
  KillAction, halt_new_trades, cancel_all, flatten, disable_execution, KillSwitchState, KillSwitch,
  init, trading_allowed, trigger_actions, actions_of, apply_actions, engaged_by, engage, required,
  observe, evaluate_one, evaluate_all, clear, acknowledge_cancel_all, acknowledge_flatten,
}

abbrev is_halt : KillAction → Bool
is_halt halt_new_trades = true
is_halt _ = false

apply_actions-triggered :
    (actions : List KillAction) (s : KillSwitchState)
    → (apply_actions actions s).triggered_by ≡ s.triggered_by
unfolding apply_actions
apply_actions-triggered [] s = refl
apply_actions-triggered (halt_new_trades ∷ rest) s = apply_actions-triggered rest _
apply_actions-triggered (cancel_all ∷ rest) s = apply_actions-triggered rest _
apply_actions-triggered (flatten ∷ rest) s = apply_actions-triggered rest _
apply_actions-triggered (disable_execution ∷ rest) s = apply_actions-triggered rest _

-- Once halted, trading stays halted.
apply_actions-halted :
    (actions : List KillAction) (s : KillSwitchState)
    → s.halt_new_trades ≡ true
    → (apply_actions actions s).halt_new_trades ≡ true
unfolding apply_actions
apply_actions-halted [] s h = h
apply_actions-halted (halt_new_trades ∷ rest) s h = apply_actions-halted rest _ refl
apply_actions-halted (cancel_all ∷ rest) s h = apply_actions-halted rest _ h
apply_actions-halted (flatten ∷ rest) s h = apply_actions-halted rest _ h
apply_actions-halted (disable_execution ∷ rest) s h = apply_actions-halted rest _ h

apply_actions-halt :
    (actions : List KillAction) (s : KillSwitchState)
    → any is_halt actions ≡ true
    → (apply_actions actions s).halt_new_trades ≡ true
unfolding apply_actions
apply_actions-halt [] s h = cc
apply_actions-halt (halt_new_trades ∷ rest) s h = apply_actions-halted rest _ refl
apply_actions-halt (cancel_all ∷ rest) s h = apply_actions-halt rest _ h
apply_actions-halt (flatten ∷ rest) s h = apply_actions-halt rest _ h
apply_actions-halt (disable_execution ∷ rest) s h = apply_actions-halt rest _ h

-- Every trigger halts, one that the table does not list too.
actions_of-halt : (trigger : String) → any is_halt (actions_of trigger) ≡ true
actions_of-halt trigger =
    get_or-All (λ actions. any is_halt actions ≡ true) trigger (halt_new_trades ∷ [])
      trigger_actions refl all_halt
  where
    all_halt : All (λ e. any is_halt e.1 ≡ true) trigger_actions
    all_halt = ground arith

-- Trading is allowed exactly while no trigger has fired; none is listed twice.
pub record IsHonest (s : KillSwitchState) : Type 0 where
  pub halts : s.halt_new_trades ≡ not (is_nil s.triggered_by)
  pub disables : s.execution_disabled ≡ true → s.halt_new_trades ≡ true
  pub distinct : NoRepeats s.triggered_by

pub engaged_by-lem :
    (trigger : String) (now : ℕ) (s : KillSwitchState)
    → ((engaged_by trigger now s).triggered_by ≡ s.triggered_by ++ trigger ∷ [])
      × ((engaged_by trigger now s).halt_new_trades ≡ true)
unfolding engaged_by
engaged_by-lem trigger now s = (
  apply_actions-triggered (actions_of trigger) _,
  apply_actions-halt (actions_of trigger) _ (actions_of-halt trigger),
)

is_nil-snoc : (xs : List String) (x : String) → is_nil (xs ++ x ∷ []) ≡ false
is_nil-snoc [] x = refl
is_nil-snoc (y ∷ xs) x = refl

engaged_by-IsHonest :
    (trigger : String) (now : ℕ) (s : KillSwitchState)
    → IsHonest s
    → contains trigger s.triggered_by ≡ false
    → IsHonest (engaged_by trigger now s)
engaged_by-IsHonest trigger now s v new =
    let (listed, halted) = engaged_by-lem trigger now s in
    record {
      halts =
          halted
          ∙ sym (ap (λ l. not (is_nil l)) listed ∙ ap not (is_nil-snoc s.triggered_by trigger));
      disables = λ _. halted;
      distinct =
          subst NoRepeats (sym listed) (NoRepeats-snoc s.triggered_by trigger v.distinct new);
    }

pub engage-IsHonest :
    (trigger : String) (now : ℕ) (k : KillSwitch)
    → IsHonest k.state
    → IsHonest (engage trigger now k).state
unfolding engage
engage-IsHonest trigger now k v = elim (Bool-cases (contains trigger k.state.triggered_by)) [
  | inl old ↦ rw old v
  | inr new ↦ rw new (engaged_by-IsHonest trigger now k.state v new)
]

observe-IsHonest :
    (name : String) (now : ℕ) (k : KillSwitch)
    → IsHonest k.state
    → IsHonest (observe name now k).0.state
unfolding observe
observe-IsHonest name now k v =
    elim (Bool-cases (ltb (get_or name 0 k.streaks + 1) (required name))) [
      | inl waiting ↦ rw waiting v
      | inr confirmed ↦ rw confirmed (engage-IsHonest name now _ v)
    ]

evaluate_one-IsHonest :
    (now : ℕ) (c : String × Option Bool) (k : KillSwitch)
    → IsHonest k.state
    → IsHonest (evaluate_one now c k).0.state
unfolding evaluate_one
evaluate_one-IsHonest now (name, none) k v =
    elim (Bool-cases (contains name k.state.triggered_by)) [
      | inl old ↦ rw old v
      | inr new ↦ rw new v
    ]
evaluate_one-IsHonest now (name, some true) k v =
    elim (Bool-cases (contains name k.state.triggered_by)) [
      | inl old ↦ rw old v
      | inr new ↦ rw new (observe-IsHonest name now k v)
    ]
evaluate_one-IsHonest now (name, some false) k v =
    elim (Bool-cases (contains name k.state.triggered_by)) [
      | inl old ↦ rw old v
      | inr new ↦ rw new v
    ]

pub evaluate_all-IsHonest :
    (now : ℕ) (cs : List (String × Option Bool)) (k : KillSwitch)
    → IsHonest k.state
    → IsHonest (evaluate_all now cs k).0.state
unfolding evaluate_all
evaluate_all-IsHonest now [] k v = v
evaluate_all-IsHonest now (c ∷ cs) k v =
    evaluate_all-IsHonest now cs (evaluate_one now c k).0 (evaluate_one-IsHonest now c k v)

-- What can be called on a kill switch; an evaluation brings the conditions that it finds.
pub data Call : Type 0 where
  engages : String → Call
  evaluates : List (String × Option Bool) → Call
  clears acknowledges_cancel acknowledges_flatten : Call

unfoldable pub step : KillSwitch → ℕ × Call → KillSwitch
step k (now, engages trigger) = engage trigger now k
step k (now, evaluates cs) = (evaluate_all now cs k).0
step k (now, clears) = clear now k
step k (now, acknowledges_cancel) = acknowledge_cancel_all k
step k (now, acknowledges_flatten) = acknowledge_flatten k

unfoldable pub run : KillSwitch → List (ℕ × Call) → KillSwitch
run k [] = k
run k (c ∷ cs) = run (step k c) cs

step-IsHonest : (k : KillSwitch) (c : ℕ × Call) → IsHonest k.state → IsHonest (step k c).state
unfolding step clear acknowledge_cancel_all acknowledge_flatten
step-IsHonest k (now, engages trigger) v = engage-IsHonest trigger now k v
step-IsHonest k (now, evaluates cs) v = evaluate_all-IsHonest now cs k v
step-IsHonest k (now, clears) v = record { halts = refl; disables = λ e. e; distinct = tt }
step-IsHonest k (now, acknowledges_cancel) v = record {
  halts = v.halts;
  disables = v.disables;
  distinct = v.distinct;
}
step-IsHonest k (now, acknowledges_flatten) v = record {
  halts = v.halts;
  disables = v.disables;
  distinct = v.distinct;
}

run-IsHonest :
    (cs : List (ℕ × Call)) (k : KillSwitch) → IsHonest k.state → IsHonest (run k cs).state
unfolding run
run-IsHonest [] k v = v
run-IsHonest (c ∷ cs) k v = run-IsHonest cs (step k c) (step-IsHonest k c v)

allowed-iff-untriggered :
    (s : KillSwitchState) → IsHonest s → trading_allowed s ≡ is_nil s.triggered_by
unfolding trading_allowed
allowed-iff-untriggered s v = ground (arith, v.halts)

-- After any calls on a fresh kill switch, trading is allowed exactly when `triggered_by` is empty, and
-- no trigger is listed in it twice.
pub run-trading_allowed :
    (cs : List (ℕ × Call))
    → let s = (run init cs).state in
      (trading_allowed s ≡ is_nil s.triggered_by) × NoRepeats s.triggered_by
run-trading_allowed cs =
    let v = run-IsHonest cs init (record { halts = refl; disables = λ e. e; distinct = tt }) in
    (allowed-iff-untriggered _ v, v.distinct)
