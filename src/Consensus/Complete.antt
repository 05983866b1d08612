-- ===== src/Consensus/Complete.antt =====
-- When a consensus is complete (strategies/consensus/engine.py, `combine`).
use octopush.Prelude.{
  ℕ, String, ◌≡◌, ◌↔◌, refl, ap, ◌∙◌, subst, Bool, true, false, not, ◌||◌, Option, none, some, List,
  [], ◌∷◌, contains, is_nil, str_eq, eq_iff, arith, inl, inr, Bool-cases, Option-cases, All,
  if◌then◌else◌,
}
use octopush.Prelude.Dict.{Dict, IsDict, lookup, has}
use octopush.Prelude.Float.{Float, ◌⩽◌, zero_float}
use octopush.Dedupe.Horizon.{contains-append}
use octopush.Consensus.{
  OpinionSlot, ConsensusConfig, Tally, effective_weight, consider, gather, nothing_gathered,
  missing_of, given, combine,
}

module _ {F : Type 0} ⦃fl : Float F⦄ where
  -- The agent has an opinion, and its quality leaves it a positive weight.
  abbrev pub IsHeard : ConsensusConfig F → Dict (OpinionSlot F) → String → Type 0
  IsHeard config opinions agent =
      (base : F) × (slot : OpinionSlot F) × (lookup agent config.weights ≡ some base)
      × (lookup agent opinions ≡ some slot)
      × ((effective_weight base slot.quality config.degraded_weight_factor ⩽ zero_float) ≡ false)

  -- The test behind it.
  abbrev heard : F → F → Option (OpinionSlot F) → Bool
  heard factor base none = false
  heard factor base (some slot) = not (effective_weight base slot.quality factor ⩽ zero_float)

  abbrev unheard : F → Option F → Option (OpinionSlot F) → Bool
  unheard factor none slot = false
  unheard factor (some base) slot = not (heard factor base slot)

  consider-missing :
      (factor : F) (agent other : String) (base : F) (slot : Option (OpinionSlot F)) (t : Tally F)
      → contains other (consider factor agent base slot t).missing ≡ (
          contains other t.missing
          || (if str_eq agent other then not (heard factor base slot) else false))
  unfolding consider
  consider-missing factor agent other base none t =
      ground (arith, contains-append other t.missing (agent ∷ []), eq_iff agent other)
  consider-missing factor agent other base (some slot) t =
      ground (arith, contains-append other t.missing (agent ∷ []), eq_iff agent other)

  gather-missing :
      (factor : F) (ws : Dict F) (opinions : Dict (OpinionSlot F)) (t : Tally F) (agent : String)
      → IsDict ws
      → contains agent (gather factor ws opinions t).missing
        ≡ (contains agent t.missing || unheard factor (lookup agent ws) (lookup agent opinions))
  unfolding gather
  gather-missing factor [] opinions t agent u = ground arith
  gather-missing factor ((j, base) ∷ ws) opinions t agent u =
      let next =
        gather-missing factor ws opinions (consider factor j base (lookup j opinions) t) agent
          u.1 in
      let here = consider-missing factor j agent base (lookup j opinions) t in
      elim (Bool-cases (str_eq j agent)) [
        | inl same ↦
            let at_agent : j ≡ agent = (eq_iff j agent).0 same in
            let gone : lookup agent ws ≡ none = subst (λ i. lookup i ws ≡ none) at_agent u.0 in
            let told = ap (λ i. heard factor base (lookup i opinions)) at_agent in
            rw same (next ∙ ground (arith, here, gone, told))
        | inr other ↦ rw other (ground (arith, next, here))
      ]

  unheard-IsHeard :
      (config : ConsensusConfig F) (opinions : Dict (OpinionSlot F)) (a : String)
      → has a config.weights ≡ true
      → (unheard config.degraded_weight_factor (lookup a config.weights) (lookup a opinions)
          ≡ false)
        ↔ IsHeard config opinions a
  unheard-IsHeard config opinions a h = elim (Option-cases (lookup a config.weights)) [
    | inl missing ↦ cc (rw (missing, has) at h)
    | inr (base, weighs) ↦ elim (Option-cases (lookup a opinions)) [
      | inl silent ↦ (λ f. cc (rw (weighs, silent) at f), λ (b, slot, w, o, p). cc (silent, o))
      | inr (slot, said) ↦ (
        λ f. (base, slot, weighs, said, ground (arith, rw (weighs, said) at f)),
        λ (b, slot', w, o, p). rw (w, o) (ground arith),
      )
    ]
  ]

  missing_of-IsHeard :
      (config : ConsensusConfig F) (opinions : Dict (OpinionSlot F)) (required : List String)
      → IsDict config.weights
      → All (λ a. has a config.weights ≡ true) required
      → (is_nil (
            missing_of required
              (gather config.degraded_weight_factor config.weights opinions
                nothing_gathered).missing)
          ≡ true)
        ↔ All (IsHeard config opinions) required
  missing_of-IsHeard config opinions [] u h = (λ _. tt, λ _. refl)
  missing_of-IsHeard config opinions (a ∷ as_) u h =
      let listed =
        gather-missing config.degraded_weight_factor config.weights opinions nothing_gathered a u in
      let (told, untold) = unheard-IsHeard config opinions a h.0 in
      let (all_told, none_left) = missing_of-IsHeard config opinions as_ u h.1 in
      (
        λ e. (told (ground (arith, listed)), all_told (ground (arith, listed))),
        λ (one, rest). ground (arith, listed, untold one, none_left rest),
      )

  -- Every required agent having a weight, a consensus is complete exactly when each required agent is
  -- heard: it has an opinion, and the weight that the opinion's quality leaves it is positive.
  pub combine-complete :
      (config : ConsensusConfig F) (now : ℕ) (symbol strategy : String)
      (opinions : Dict (OpinionSlot F)) (correlation : Option String)
      (required : Option (List String))
      → IsDict config.weights
      → All (λ a. has a config.weights ≡ true) (given required config.required_agents)
      → ((combine config now symbol strategy opinions correlation required).complete ≡ true)
        ↔ All (IsHeard config opinions) (given required config.required_agents)
  unfolding combine
  combine-complete config now symbol strategy opinions correlation required u h =
      missing_of-IsHeard config opinions (given required config.required_agents) u h
