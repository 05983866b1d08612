-- ===== src/Consensus/Absent.antt =====
-- An opinion that is no longer usable is no opinion (strategies/consensus/engine.py, `combine`).
use octopush.Prelude.{
  ℕ, String, ◌≡◌, refl, sym, ap, ◌∙◌, subst, true, false, Option, none, some, List, [], ◌∷◌, str_eq,
  eq_iff, inl, inr, Bool-cases,
}
use octopush.Prelude.Dict.{Dict, IsDict, lookup, erase, lookup-erase, lookup-erase_ne}
use octopush.Prelude.Float.{Float, ◌⩽◌, zero_float}
use octopush.Consensus.{
  DataQuality, fresh, degraded, stale, unavailable, is_usable, is_degraded, OpinionSlot,
  ConsensusConfig, Tally, effective_weight, consider, gather, combine,
}

module _ {F : Type 0} ⦃fl : Float F⦄ where
  effective_weight-unusable :
      (base : F) (q : DataQuality) (factor : F)
      → is_usable q ≡ false
      → is_degraded q ≡ false
      → effective_weight base q factor ≡ zero_float
  unfolding effective_weight
  effective_weight-unusable base fresh factor u d = cc
  effective_weight-unusable base degraded factor u d = cc
  effective_weight-unusable base stale factor u d = refl
  effective_weight-unusable base unavailable factor u d = refl

  consider-unusable :
      (factor : F) (agent : String) (base : F) (slot : OpinionSlot F) (t : Tally F)
      → (zero_float {F = F} ⩽ zero_float) ≡ true
      → is_usable slot.quality ≡ false
      → is_degraded slot.quality ≡ false
      → consider factor agent base (some slot) t ≡ consider factor agent base none t
  unfolding consider
  consider-unusable factor agent base slot t z u d =
      rw (effective_weight-unusable base slot.quality factor u d, z, d) refl

  gather-erase :
      (factor : F) (ws : Dict F) (opinions : Dict (OpinionSlot F)) (agent : String)
      (slot : OpinionSlot F) (t : Tally F)
      → IsDict opinions
      → lookup agent opinions ≡ some slot
      → (zero_float {F = F} ⩽ zero_float) ≡ true
      → is_usable slot.quality ≡ false
      → is_degraded slot.quality ≡ false
      → gather factor ws (erase agent opinions) t ≡ gather factor ws opinions t
  unfolding gather
  gather-erase factor [] opinions agent slot t v said z u d = refl
  gather-erase factor ((j, base) ∷ ws) opinions agent slot t v said z u d =
      gather-erase factor ws opinions agent slot _ v said z u d
      ∙ ap (gather factor ws opinions) same_round
    where
      same_round :
          consider factor j base (lookup j (erase agent opinions)) t
          ≡ consider factor j base (lookup j opinions) t
      same_round = elim (Bool-cases (str_eq agent j)) [
        | inr other ↦ rw (lookup-erase_ne agent j opinions other) refl
        | inl same ↦
            let here : lookup j opinions ≡ some slot =
              subst (λ i. lookup i opinions ≡ some slot) ((eq_iff agent j).0 same) said in
            let gone : lookup j (erase agent opinions) ≡ none =
              lookup-erase agent j opinions v ∙ rw same refl in
            rw (here, gone) (sym (consider-unusable factor j base slot t z u d))
      ]

  -- Zero being at most zero, an opinion that is STALE or UNAVAILABLE counts as no opinion: the result
  -- is, field for field, that of the same call without it.
  pub combine-erase :
      (config : ConsensusConfig F) (now : ℕ) (symbol strategy : String)
      (opinions : Dict (OpinionSlot F)) (correlation : Option String)
      (required : Option (List String)) (agent : String) (slot : OpinionSlot F)
      → IsDict opinions
      → lookup agent opinions ≡ some slot
      → (zero_float {F = F} ⩽ zero_float) ≡ true
      → is_usable slot.quality ≡ false
      → is_degraded slot.quality ≡ false
      → combine config now symbol strategy (erase agent opinions) correlation required
        ≡ combine config now symbol strategy opinions correlation required
  unfolding combine
  combine-erase config now symbol strategy opinions correlation required agent slot v said z u d =
      rw
        (gather-erase config.degraded_weight_factor config.weights opinions agent slot _ v said z u
          d)
        refl
