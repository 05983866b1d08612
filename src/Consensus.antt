-- ===== src/Consensus.antt =====
-- strategies/consensus/engine.py: the weighted consensus of the agents; with `AgentOpinion`,
-- `AgentContribution` and `ConsensusResult` of core/models/agent.py, `DataQuality` of
-- core/models/common.py, `OpinionSlot` of core/state/__init__.py and `ConsensusConfig` of
-- core/config/settings.py. An agent's id is its text.
pub mod Complete
pub mod Absent
mod Tests
use octopush.Prelude.{
  ℕ, ◌+◌, String, Bool, true, false, not, ◌&&◌, Option, none, some, List, [], ◌∷◌, ◌++◌, map,
  contains, filterb, str_eq, is_nil, leb, if◌then◌else◌,
}
use octopush.Prelude.Int.{pos}
use octopush.Prelude.Dict.{Dict, lookup, has}
use octopush.Prelude.Float.{Float, ◌⊕◌, ◌⊗◌, ◌⊘◌, ◌⋖◌, ◌⩽◌, zero_float, max_float, min_float}

pub data DataQuality : Type 0 where
  fresh degraded stale unavailable : DataQuality

-- `is_usable`
abbrev pub is_usable : DataQuality → Bool
is_usable fresh = true
is_usable _ = false

pub record AgentOpinion (F : Type 0) : Type 0 where
  pub created_at : ℕ
  pub correlation_id : Option String
  pub agent_id : String
  pub symbol : String
  pub signal : F
  pub confidence : F
  pub expires_at : ℕ
  pub model_version : String

-- What an opinion is about: the opportunity that it names, or else its symbol.
abbrev pub subject : {F : Type 0} → AgentOpinion F → String
subject o = elim o.correlation_id [ none ↦ o.symbol | some c ↦ if str_eq c "" then o.symbol else c ]

unfoldable pub quality_at : {F : Type 0} → AgentOpinion F → ℕ → ℕ → DataQuality
quality_at opinion now grace =
    if leb now opinion.expires_at
    then fresh
    else if leb now (opinion.expires_at + grace)
    then degraded
    else stale

pub record OpinionSlot (F : Type 0) : Type 0 where
  pub opinion : AgentOpinion F
  pub quality : DataQuality

pub record AgentContribution (F : Type 0) : Type 0 where
  pub agent_id : String
  pub signal : F
  pub confidence : F
  pub weight : F
  pub weighted_signal : F
  pub contribution_share : F
  pub quality : DataQuality

pub record ConsensusResult (F : Type 0) : Type 0 where
  pub created_at : ℕ
  pub correlation_id : Option String
  pub symbol : String
  pub strategy : String
  pub score : F
  pub agreement : F
  pub contributions : List (AgentContribution F)
  pub missing_agents : List String
  pub degraded_agents : List String
  pub complete : Bool

pub record ConsensusConfig (F : Type 0) : Type 0 where
  pub weights : Dict F
  pub required_agents : List String
  pub entry_threshold : F
  pub exit_threshold : F
  pub degraded_grace_ms : ℕ
  pub agent_response_timeout_ms : ℕ
  pub degraded_weight_factor : F

-- What the loop of `combine` gathers.
pub record Tally (F : Type 0) : Type 0 where
  pub contributions : List (AgentContribution F)
  pub missing : List String
  pub degraded : List String
  pub weighted_signal_sum : F
  pub weight_sum : F

abbrev pub is_degraded : DataQuality → Bool
is_degraded degraded = true
is_degraded _ = false

-- `[a for a in required_agents if a in missing]`
abbrev pub missing_of : List String → List String → List String
missing_of required missing = filterb (λ a. contains a missing) required

abbrev pub given : Option (List String) → List String → List String
given none configured = configured
given (some required) configured = required

module _ {F : Type 0} ⦃fl : Float F⦄ where
  -- `_exit_below_entry`: whether the validator lets the configuration pass.
  abbrev pub is_coherent : ConsensusConfig F → Bool
  is_coherent c =
      not (c.entry_threshold ⩽ c.exit_threshold)
      && not (is_nil c.weights)
      && is_nil (filterb (λ a. not (has a c.weights)) c.required_agents)

  -- `_effective_weight`
  unfoldable pub effective_weight : F → DataQuality → F → F
  effective_weight base fresh factor = base
  effective_weight base degraded factor = base ⊗ factor
  effective_weight base _ factor = zero_float

  abbrev counted : String → F → OpinionSlot F → Tally F → Tally F
  counted agent weight slot t =
      let effective = weight ⊗ slot.opinion.confidence in
      let weighted = effective ⊗ slot.opinion.signal in
      record t {
        weighted_signal_sum = t.weighted_signal_sum ⊕ weighted;
        weight_sum = t.weight_sum ⊕ effective;
        contributions =
            t.contributions
            ++ record {
              agent_id = agent;
              signal = slot.opinion.signal;
              confidence = slot.opinion.confidence;
              weight = weight;
              weighted_signal = weighted;
              contribution_share = zero_float;
              quality = slot.quality;
            }
              ∷ [];
      }

  abbrev lacking : String → Tally F → Tally F
  lacking agent t = record t { missing = t.missing ++ agent ∷ [] }

  abbrev noted : String → DataQuality → Tally F → Tally F
  noted agent quality t =
      if is_degraded quality then record t { degraded = t.degraded ++ agent ∷ [] } else t

  -- One round of the loop, from the agent's opinion.
  unfoldable pub consider : F → String → F → Option (OpinionSlot F) → Tally F → Tally F
  consider factor agent base none t = lacking agent t
  consider factor agent base (some slot) t =
      let weight = effective_weight base slot.quality factor in
      if weight ⩽ zero_float
      then lacking agent (noted agent slot.quality t)
      else counted agent weight slot (noted agent slot.quality t)

  unfoldable pub gather : F → Dict F → Dict (OpinionSlot F) → Tally F → Tally F
  gather factor [] opinions t = t
  gather factor ((agent, base) ∷ ws) opinions t =
      gather factor ws opinions (consider factor agent base (lookup agent opinions) t)

  abbrev pub nothing_gathered : Tally F
  nothing_gathered = record {
    contributions = [];
    missing = [];
    degraded = [];
    weighted_signal_sum = zero_float;
    weight_sum = zero_float;
  }

  abbrev share_of : F → AgentContribution F → AgentContribution F
  share_of mass c = record c {
    contribution_share =
        if zero_float ⋖ mass then fl.absolute c.weighted_signal ⊘ mass else zero_float;
  }

  -- The shares of the absolute weighted mass.
  unfoldable pub shared : List (AgentContribution F) → List (AgentContribution F)
  shared cs =
      let mass = fl.sum (map (λ c. fl.absolute c.weighted_signal) cs) in map (share_of mass) cs

  unfoldable pub score_of : Tally F → F
  score_of t =
      if zero_float ⋖ t.weight_sum then t.weighted_signal_sum ⊘ t.weight_sum else zero_float

  -- `combine`
  unfoldable pub combine :
      ConsensusConfig F
      → ℕ
      → String
      → String
      → Dict (OpinionSlot F)
      → Option String
      → Option (List String)
      → ConsensusResult F
  combine config now symbol strategy opinions correlation required =
      let t = gather config.degraded_weight_factor config.weights opinions nothing_gathered in
      let one = fl.decimal 1 0 in
      record {
        created_at = now;
        correlation_id = correlation;
        symbol = symbol;
        strategy = strategy;
        score = max_float (fl.opposite one) (min_float one (score_of t));
        agreement = max_float zero_float (min_float one (score_of t));
        contributions = shared t.contributions;
        missing_agents = t.missing;
        degraded_agents = t.degraded;
        complete = is_nil (missing_of (given required config.required_agents) t.missing);
      }

  unfoldable pub entry_allowed : ConsensusConfig F → ConsensusResult F → Bool
  entry_allowed config r = r.complete && (config.entry_threshold ⩽ r.agreement)

  unfoldable pub continuation_allowed : ConsensusConfig F → ConsensusResult F → Bool
  continuation_allowed config r = r.complete && (config.exit_threshold ⩽ r.agreement)
