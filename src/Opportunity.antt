-- ===== src/Opportunity.antt =====
-- core/models/opportunity.py: the legs of an opportunity, its costs and the trade intent.
use octopush.Prelude.{ℕ, String, Bool, Option, List}
use octopush.Prelude.Float.{Float, ◌⊕◌, ◌⊖◌}
use octopush.Order.{Side}

pub record OpportunityLeg (F : Type 0) : Type 0 where
  pub venue : String
  pub symbol : String
  pub side : Side
  pub reference_price : F
  pub quantity : Option F

-- In basis points of notional, each a cost.
pub record CostBreakdown (F : Type 0) : Type 0 where
  pub fees_bps : F
  pub spread_bps : F
  pub slippage_bps : F
  pub hedge_bps : F
  pub funding_bps : F
  pub latency_bps : F
  pub other_bps : F

module _ {F : Type 0} ⦃fl : Float F⦄ where
  abbrev pub total_bps : CostBreakdown F → F
  total_bps c =
      c.fees_bps ⊕ c.spread_bps ⊕ c.slippage_bps ⊕ c.hedge_bps ⊕ c.funding_bps ⊕ c.latency_bps
      ⊕ c.other_bps

  abbrev pub net_from : CostBreakdown F → F → F
  net_from c gross_edge_bps = gross_edge_bps ⊖ total_bps c

pub record TradeIntent (F : Type 0) : Type 0 where
  pub created_at : ℕ
  pub source_data_timestamp : Option ℕ
  pub correlation_id : Option String
  pub intent_id : String
  pub opportunity_id : String
  pub strategy : String
  pub symbol : String
  pub legs : List (OpportunityLeg F)
  pub notional : F
  pub gross_edge_bps : F
  pub costs : CostBreakdown F
  pub expected_net_edge_bps : F
  pub consensus_score : F
  pub consensus_agreement : F
  pub max_slippage_bps : F
  pub deadline_ms : ℕ
  pub urgency : F
  pub is_exit : Bool

-- `ExecutionPlan`; its planned orders are of type `O`.
pub record ExecutionPlan (F O : Type 0) : Type 0 where
  pub created_at : ℕ
  pub source_data_timestamp : Option ℕ
  pub correlation_id : Option String
  pub plan_id : String
  pub intent_id : String
  pub strategy : String
  pub symbol : String
  pub orders : List O
  pub deadline_ms : ℕ
  pub max_slippage_bps : F
  pub notional : F
