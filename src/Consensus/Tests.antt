-- ===== src/Consensus/Tests.antt =====
-- Runs of the consensus engine, and its theorems at concrete opinions.
use octopush.Prelude.{ℕ, ◌*◌, ◌/◌, String, ◌≡◌, ◌↔◌, refl, true, false, none, [], ◌∷◌, All}
use octopush.Prelude.Int.{ℤ, pos}
use octopush.Prelude.Dict.{Dict, erase}
use octopush.Prelude.Float.{fixed_point, unit_scale}
use octopush.Consensus.{
  DataQuality, fresh, degraded, stale, OpinionSlot, ConsensusConfig, effective_weight, consider,
  gather, combine, score_of, quality_at, AgentOpinion,
}
use octopush.Consensus.Complete.{IsHeard, combine-complete}
use octopush.Consensus.Absent.{combine-erase}

abbrev hundredths : ℕ → ℤ
hundredths n = pos (n * (unit_scale / 100))

-- The defaults of core/config/settings.py.
abbrev config : ConsensusConfig ℤ
config = record {
  weights =
      ("TIDAL", hundredths 140)
      ∷ ("NORO", hundredths 150)
      ∷ ("ZEPHR", hundredths 150)
      ∷ ("LUMEN", hundredths 50)
      ∷ [];
  required_agents = "TIDAL" ∷ "NORO" ∷ "ZEPHR" ∷ [];
  entry_threshold = hundredths 60;
  exit_threshold = hundredths 45;
  degraded_grace_ms = 500;
  agent_response_timeout_ms = 1_000;
  degraded_weight_factor = hundredths 35;
}

abbrev opinion : String → AgentOpinion ℤ
opinion agent = record {
  created_at = 0;
  agent_id = agent;
  symbol = "BTC-USD";
  signal = hundredths 80;
  confidence = hundredths 100;
  expires_at = 100;
  model_version = "1";
  correlation_id = none;
}

abbrev slot : String → DataQuality → OpinionSlot ℤ
slot agent quality = record { opinion = opinion agent; quality = quality }

abbrev opinions : Dict (OpinionSlot ℤ)
opinions =
    ("TIDAL", slot "TIDAL" fresh)
    ∷ ("NORO", slot "NORO" degraded)
    ∷ ("ZEPHR", slot "ZEPHR" stale)
    ∷ []

aging :
    (quality_at (opinion "NORO") 100 500 ≡ fresh)
    × (quality_at (opinion "NORO") 600 500 ≡ degraded)
    × (quality_at (opinion "NORO") 601 500 ≡ stale)
unfolding quality_at
aging = (refl, refl, refl)

one_stale :
    let r = combine config 50 "BTC-USD" "cross_venue" opinions none none in
    (r.score ≡ hundredths 80)
    × (r.missing_agents ≡ "ZEPHR" ∷ "LUMEN" ∷ [])
    × (r.degraded_agents ≡ "NORO" ∷ [])
    × (r.complete ≡ false)
unfolding combine gather consider effective_weight score_of
one_stale = (refl, refl, refl, refl)

combine-complete_example :
    ((combine config 50 "BTC-USD" "cross_venue" opinions none none).complete ≡ true)
    ↔ All (IsHeard config opinions) ("TIDAL" ∷ "NORO" ∷ "ZEPHR" ∷ [])
combine-complete_example =
    combine-complete config 50 "BTC-USD" "cross_venue" opinions none none
      (refl, (refl, (refl, (refl, tt)))) (refl, (refl, (refl, tt)))

combine-erase_example :
    combine config 50 "BTC-USD" "cross_venue" (erase "ZEPHR" opinions) none none
    ≡ combine config 50 "BTC-USD" "cross_venue" opinions none none
combine-erase_example =
    combine-erase config 50 "BTC-USD" "cross_venue" opinions none none "ZEPHR" (slot "ZEPHR" stale)
      (refl, (refl, (refl, tt))) refl refl refl refl
