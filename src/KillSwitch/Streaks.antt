-- ===== src/KillSwitch/Streaks.antt =====
-- What one evaluation of risk/kill_switch/__init__.py (`evaluate`) does to each trigger's streak.
use octopush.Prelude.{
  ℕ, ◌+◌, String, ◌≡◌, refl, sym, ap, ◌∙◌, subst, Bool, true, false, ◌||◌, Option, none, some, List,
  [], ◌∷◌, contains, str_eq, eq_iff, eq_refl, ltb, arith, inl, inr, Bool-cases, if◌then◌else◌,
}
use octopush.Prelude.Dict.{
  Dict, IsDict, lookup, insert, get_or, lookup-insert, lookup-erase, lookup-erase_ne, insert-IsDict,
  erase-IsDict,
}
use octopush.Dedupe.Horizon.{contains-append}
use octopush.KillSwitch.Engagement.{engaged_by-lem}
use octopush.KillSwitch.{KillSwitch, required, engage, observe, evaluate_one, evaluate_all}

-- What the rule reads of a kill switch, for one trigger: whether it has fired, and its streak.
abbrev pub view : String → KillSwitch → Bool × ℕ
view name k = (contains name k.state.triggered_by, get_or name 0 k.streaks)

-- One evaluation of one trigger; `none` is a predicate that raises.
abbrev pub tick : ℕ → Option Bool → Bool × ℕ → Bool × ℕ
tick r c (true, n) = (true, n)
tick r none (false, n) = (false, n)
tick r (some false) (false, n) = (false, 0)
tick r (some true) (false, n) = if ltb (n + 1) r then (false, n + 1) else (true, n + 1)

engage-triggered :
    (name trigger : String) (now : ℕ) (k : KillSwitch)
    → contains name (engage trigger now k).state.triggered_by
      ≡ (contains name k.state.triggered_by || str_eq trigger name)
unfolding engage
engage-triggered name trigger now k = elim (Bool-cases (contains trigger k.state.triggered_by)) [
  | inl old ↦ rw old (ground (arith, eq_iff trigger name))
  | inr new ↦
      rw
        (
          new,
          (engaged_by-lem trigger now k.state).0,
          contains-append name k.state.triggered_by (trigger ∷ []),
        )
        (ground arith)
]

engage-streaks :
    (trigger : String) (now : ℕ) (k : KillSwitch) → (engage trigger now k).streaks ≡ k.streaks
unfolding engage
engage-streaks trigger now k = ground arith

get_or-insert :
    (k j : String) (n : ℕ) (d : Dict ℕ)
    → get_or j 0 (insert k n d) ≡ (if str_eq k j then n else get_or j 0 d)
get_or-insert k j n d = ground (arith, lookup-insert k j n d)

-- The steps for one trigger, seen by that trigger and by the others.
observe-own :
    (name : String) (now : ℕ) (k : KillSwitch)
    → contains name k.state.triggered_by ≡ false
    → view name (observe name now k).0 ≡ tick (required name) (some true) (view name k)
unfolding observe
observe-own name now k new =
    let n = get_or name 0 k.streaks + 1 in
    let k' = record k { streaks = insert name n k.streaks } in
    ground (
      arith,
      engage-triggered name name now k',
      engage-streaks name now k',
      get_or-insert name name n k.streaks,
      eq_refl name,
    )

observe-other :
    (name trigger : String) (now : ℕ) (k : KillSwitch)
    → str_eq trigger name ≡ false
    → view name (observe trigger now k).0 ≡ view name k
unfolding observe
observe-other name trigger now k ne =
    let n = get_or trigger 0 k.streaks + 1 in
    let k' = record k { streaks = insert trigger n k.streaks } in
    ground (
      arith,
      engage-triggered name trigger now k',
      engage-streaks trigger now k',
      get_or-insert trigger name n k.streaks,
    )

observe-IsDict :
    (trigger : String) (now : ℕ) (k : KillSwitch)
    → IsDict k.streaks
    → IsDict (observe trigger now k).0.streaks
unfolding observe
observe-IsDict trigger now k d =
    let n = get_or trigger 0 k.streaks + 1 in
    let k' = record k { streaks = insert trigger n k.streaks } in
    ground (arith, engage-streaks trigger now k', insert-IsDict trigger n k.streaks d)

evaluate_one-IsDict :
    (now : ℕ) (c : String × Option Bool) (k : KillSwitch)
    → IsDict k.streaks
    → IsDict (evaluate_one now c k).0.streaks
unfolding evaluate_one
evaluate_one-IsDict now (name, c) k d =
    ground (arith, observe-IsDict name now k d, erase-IsDict name k.streaks d)

evaluate_one-own :
    (now : ℕ) (name : String) (c : Option Bool) (k : KillSwitch)
    → IsDict k.streaks
    → view name (evaluate_one now (name, c) k).0 ≡ tick (required name) c (view name k)
unfolding evaluate_one
evaluate_one-own now name c k d = elim (Bool-cases (contains name k.state.triggered_by)) [
  | inl old ↦ ground arith
  | inr new ↦
      ground (arith, observe-own name now k new, lookup-erase name name k.streaks d, eq_refl name)
]

evaluate_one-other :
    (now : ℕ) (name other : String) (c : Option Bool) (k : KillSwitch)
    → str_eq other name ≡ false
    → view name (evaluate_one now (other, c) k).0 ≡ view name k
unfolding evaluate_one
evaluate_one-other now name other c k ne =
    ground (arith, observe-other name other now k ne, lookup-erase_ne other name k.streaks ne)

pub evaluate_all-IsDict :
    (now : ℕ) (cs : List (String × Option Bool)) (k : KillSwitch)
    → IsDict k.streaks
    → IsDict (evaluate_all now cs k).0.streaks
unfolding evaluate_all
evaluate_all-IsDict now [] k d = d
evaluate_all-IsDict now (c ∷ cs) k d =
    evaluate_all-IsDict now cs (evaluate_one now c k).0 (evaluate_one-IsDict now c k d)

evaluate_all-absent :
    (now : ℕ) (name : String) (cs : List (String × Option Bool)) (k : KillSwitch)
    → lookup name cs ≡ none
    → view name (evaluate_all now cs k).0 ≡ view name k
unfolding evaluate_all
evaluate_all-absent now name [] k a = refl
evaluate_all-absent now name ((other, c) ∷ cs) k a = elim (Bool-cases (str_eq other name)) [
  | inl same ↦ cc (rw same at a)
  | inr ne ↦
      evaluate_all-absent now name cs (evaluate_one now (other, c) k).0 (rw ne at a)
      ∙ evaluate_one-other now name other c k ne
]

-- One evaluation of the whole table is one step of each trigger's own machine.
pub evaluate_all-view :
    (now : ℕ) (name : String) (cs : List (String × Option Bool)) (k : KillSwitch)
    → IsDict cs
    → IsDict k.streaks
    → view name (evaluate_all now cs k).0 ≡ tick (required name) (get_or name none cs) (view name k)
unfolding evaluate_all
evaluate_all-view now name [] k u d = ground arith
evaluate_all-view now name ((other, c) ∷ cs) k u d = elim (Bool-cases (str_eq other name)) [
  | inl same ↦
      let here : other ≡ name = (eq_iff other name).0 same in
      rw (same, get_or)
        (evaluate_all-absent now name cs (evaluate_one now (other, c) k).0
            (subst (λ o. lookup o cs ≡ none) here u.0)
          ∙ subst
              (λ o. view name (evaluate_one now (o, c) k).0 ≡ tick (required name) c (view name k))
              (sym here) (evaluate_one-own now name c k d))
  | inr ne ↦
      rw (ne, get_or)
        (evaluate_all-view now name cs (evaluate_one now (other, c) k).0 u.1
            (evaluate_one-IsDict now (other, c) k d)
          ∙ ap (tick (required name) (get_or name none cs))
              (evaluate_one-other now name other c k ne))
]
