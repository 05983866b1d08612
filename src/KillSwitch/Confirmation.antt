-- ===== src/KillSwitch/Confirmation.antt =====
-- The confirmation rule of risk/kill_switch/__init__.py (`evaluate`, `CONFIRMATIONS`): a trigger
-- engages when its condition has held on enough evaluations in a row.
use octopush.Prelude.{
  ℕ, zero, suc, ◌+◌, ◌≤◌, String, ◌≡◌, refl, ap, ◌∙◌, subst, Bool, true, false, ◌||◌, none, some,
  List, [], ◌∷◌, map, All, contains, arith, if◌then◌else◌,
}
use octopush.Prelude.Dict.{IsDict, get_or, get_or-All}
use octopush.Prelude.Float.{Float}
use octopush.Settings.{RiskLimits}
use octopush.KillSwitch.{
  KillSwitchInputs, confirmations, conditions, evaluate, KillSwitch, init, required,
}
use octopush.KillSwitch.Streaks.{view, tick, evaluate_all-view, evaluate_all-IsDict}

-- The machine fires when the rounds hold a long enough run.
abbrev lead : ℕ → List Bool → Bool
lead zero cs = true
lead (suc m) [] = false
lead (suc m) (c ∷ cs) = if c then lead m cs else false

-- Some `r` entries in a row are all true.
abbrev pub has_run : ℕ → List Bool → Bool
has_run r [] = lead r []
has_run r (c ∷ cs) = lead r (c ∷ cs) || has_run r cs

lead-suc : (m : ℕ) (cs : List Bool) → lead (suc m) cs ≡ true → lead m cs ≡ true
lead-suc zero cs h = refl
lead-suc (suc m) [] h = cc
lead-suc (suc m) (c ∷ cs) h = ground (arith, lead-suc m cs)

lead-add : (r n m : ℕ) (cs : List Bool) → n + m ≡ r → lead r cs ≡ true → lead m cs ≡ true
lead-add r zero m cs e h = subst (λ i. lead i cs ≡ true) (omega arith) h
lead-add zero (suc n) m cs e h = ground arith
lead-add (suc r) (suc n) m cs e h = lead-add r n m cs (omega arith) (lead-suc r cs h)

lead-nil : (r : ℕ) → 1 ≤ r → lead r [] ≡ false
lead-nil zero h = ground arith
lead-nil (suc r) h = refl

lead-has_run : (r : ℕ) (cs : List Bool) → lead r cs ≡ true → has_run r cs ≡ true
lead-has_run r [] h = h
lead-has_run r (c ∷ cs) h = ground arith

lead-or-run : (r : ℕ) (cs : List Bool) → (lead r cs || has_run r cs) ≡ has_run r cs
lead-or-run r cs = ground (arith, lead-has_run r cs)

abbrev ticks : ℕ → List Bool → Bool × ℕ → Bool × ℕ
ticks r [] v = v
ticks r (c ∷ cs) v = ticks r cs (tick r (some c) v)

ticks-fired : (r n : ℕ) (cs : List Bool) → (ticks r cs (true, n)).0 ≡ true
ticks-fired r n [] = refl
ticks-fired r n (c ∷ cs) = ticks-fired r n cs

ticks-lead :
    (r n m : ℕ) (cs : List Bool)
    → n + suc m ≡ r
    → (ticks r cs (false, n)).0 ≡ (lead (suc m) cs || has_run r cs)
ticks-lead r n m [] e = ground (arith, lead-nil r)
ticks-lead r n m (false ∷ cs) e = ground (arith, ticks-lead r 0 (n + m) cs, lead-has_run r cs)
ticks-lead r n zero (true ∷ cs) e = ground (arith, ticks-fired r (n + 1) cs)
ticks-lead r n (suc m) (true ∷ cs) e =
    ground (arith, ticks-lead r (n + 1) m cs, lead-add r n (suc (suc m)) (true ∷ cs) e)

-- Every trigger needs one observation at least.
required-positive : (name : String) → 1 ≤ required name
unfolding required
required-positive name = get_or-All (λ n. 1 ≤ n) name 1 confirmations (omega arith) listed
  where
    listed : All (λ e. 1 ≤ e.1) confirmations
    listed = ground arith

-- The keys of `TRIGGERS`.
abbrev pub triggers : List String
triggers =
    "MAX_DRAWDOWN_BREACHED" ∷ "MAX_DAILY_LOSS_BREACHED" ∷ "MARKET_DATA_OUTAGE" ∷ "BOOK_CORRUPTION"
    ∷ "RECONCILIATION_MISMATCH" ∷ "UNEXPECTED_POSITION" ∷ "SYSTEM_HEALTH_FAILURE"
    ∷ "EXCESSIVE_LATENCY" ∷ "STORAGE_FAILURE" ∷ []

positive-suc : (r : ℕ) → 1 ≤ r → (m : ℕ) × (suc m ≡ r)
positive-suc zero h = ground arith
positive-suc (suc m) h = (m, refl)

module _ {F : Type 0} ⦃fl : Float F⦄ (limits : RiskLimits F) where
  -- A list of evaluations, each with its time and its inputs.
  unfoldable pub rounds : KillSwitch → List (ℕ × KillSwitchInputs F) → KillSwitch
  rounds k [] = k
  rounds k ((now, i) ∷ rest) = rounds (evaluate now i limits k).0 rest

  -- Whether the condition of a trigger holds of some inputs.
  unfoldable pub holds : String → KillSwitchInputs F → Bool
  holds name i = elim (get_or name none (conditions i limits)) [ none ↦ false | some b ↦ b ]

  conditions-IsDict : (i : KillSwitchInputs F) → IsDict (conditions i limits)
  unfolding conditions
  conditions-IsDict i = (refl, (refl, (refl, (refl, (refl, (refl, (refl, (refl, (refl, tt)))))))))

  condition-known :
      (name : String) (i : KillSwitchInputs F)
      → contains name triggers ≡ true
      → get_or name none (conditions i limits) ≡ some (holds name i)
  unfolding conditions holds
  condition-known name i known = ground arith

  evaluate-view :
      (now : ℕ) (name : String) (i : KillSwitchInputs F) (k : KillSwitch)
      → IsDict k.streaks
      → contains name triggers ≡ true
      → view name (evaluate now i limits k).0
        ≡ tick (required name) (some (holds name i)) (view name k)
  unfolding evaluate
  evaluate-view now name i k d known =
      evaluate_all-view now name (conditions i limits) k (conditions-IsDict i) d
      ∙ ap (λ c. tick (required name) c (view name k)) (condition-known name i known)

  rounds-view :
      (name : String) (rs : List (ℕ × KillSwitchInputs F)) (k : KillSwitch)
      → IsDict k.streaks
      → contains name triggers ≡ true
      → view name (rounds k rs) ≡ ticks (required name) (map (λ r. holds name r.1) rs) (view name k)
  unfolding rounds evaluate
  rounds-view name [] k d known = refl
  rounds-view name ((now, i) ∷ rs) k d known =
      rounds-view name rs (evaluate now i limits k).0
        (evaluate_all-IsDict now (conditions i limits) k d) known
      ∙ ap (ticks (required name) (map (λ r. holds name r.1) rs))
          (evaluate-view now name i k d known)

  -- After any evaluations of a fresh kill switch, a trigger of the table has fired exactly when there
  -- were as many evaluations in a row as the trigger's confirmation count, each of which found its
  -- condition to hold.
  pub rounds-fired :
      (name : String) (rs : List (ℕ × KillSwitchInputs F))
      → contains name triggers ≡ true
      → contains name (rounds init rs).state.triggered_by
        ≡ has_run (required name) (map (λ r. holds name r.1) rs)
  rounds-fired name rs known =
      let (m, e) = positive-suc (required name) (required-positive name) in
      let cs = map (λ r. holds name r.1) rs in
      ap (λ v. v.0) (rounds-view name rs init tt known)
      ∙ ticks-lead (required name) 0 m cs (omega arith)
      ∙ ap (λ n. lead n cs || has_run (required name) cs) e
      ∙ lead-or-run (required name) cs
