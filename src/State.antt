-- ===== src/State.antt =====
-- core/state/__init__.py: `SystemState`, the record that the orchestrator writes and the others read.
-- The dict of opinions has pairs of texts as keys, subject and agent. An error is its time and its
-- message. The clock is an argument.
pub mod Latest
pub mod Kept
mod Tests
use Prim.Native.String.{compare}
use Prim.Native.Nat.{Ordering}
use octopush.Prelude.{
  ℕ, zero, suc, ◌+◌, ◌-◌, String, Bool, true, false, not, ◌&&◌, ◌||◌, Option, none, some, List, [],
  ◌∷◌, ◌++◌, map, foldl, length, take, drop, any, filterb, contains, str_eq, ltb, leb, ◌==◌,
  if◌then◌else◌,
}
use octopush.Prelude.Float.{Float, zero_float}
use octopush.Prelude.Dict.{Dict, lookup, insert, erase, values, has}
use octopush.Order.{PaperOrder, FillEvent, is_live}
use octopush.Market.{MarketState}
use octopush.Portfolio.{PortfolioState}
use octopush.Health.{SystemHealth}
use octopush.KillSwitch.{KillSwitchState}
use octopush.Opportunity.{OpportunityLeg, TradeIntent}
use octopush.RuneCore.{RiskDecision}
use octopush.RuneCore.Utilization.{RiskUtilization}
use octopush.Strategy.{StrategyState, opportunity_detected, is_end}
use octopush.Consensus.{AgentOpinion, OpinionSlot, quality_at, subject}

-- `P` is the type of opportunities.
pub record OpportunityRecord (F P : Type 0) : Type 0 where
  pub opportunity : P
  pub state : StrategyState
  pub intent : Option (TradeIntent F)
  pub decision : Option (RiskDecision F)
  pub order_ids : List String
  pub entry_agreement : Option F
  pub last_agreement : Option F
  pub rejected_reason : Option String
  pub exit_attempts : ℕ
  pub updated_at : ℕ
  pub realized_pnl : F
  pub fees : F
  pub filled_notional : F

abbrev pub is_open : {F P : Type 0} → OpportunityRecord F P → Bool
is_open r = not (is_end r.state)

-- Subject and agent.
abbrev pub Key : Type 0
Key = String × String

abbrev pub same_key : Key → Key → Bool
same_key (a, b) (c, d) = str_eq a c && str_eq b d

abbrev pub Opinions : Type 0 → Type 0
Opinions F = List (Key × AgentOpinion F)

pub record SystemState (F P : Type 0) : Type 0 where
  pub market : Option (MarketState F)
  pub portfolio : Option (PortfolioState F)
  pub health : Option SystemHealth
  pub kill_switch : KillSwitchState
  pub risk_utilization : RiskUtilization F
  pub opinions : Opinions F
  pub opportunities : Dict (OpportunityRecord F P)
  pub orders : Dict (PaperOrder F)
  pub fills : List (FillEvent F)
  pub rejections : List (RiskDecision F)
  pub errors : List (ℕ × String)
  pub max_history : ℕ

module _ {F : Type 0} where
  abbrev pub key_of : AgentOpinion F → Key
  key_of o = (subject o, o.agent_id)

  abbrev pub find : Key → Opinions F → Option (AgentOpinion F)
  find k [] = none
  find k ((j, o) ∷ d) = if same_key j k then some o else find k d

  abbrev pub store : Key → AgentOpinion F → Opinions F → Opinions F
  store k o [] = (k, o) ∷ []
  store k o ((j, p) ∷ d) = if same_key j k then (j, o) ∷ d else (j, p) ∷ store k o d

  -- An opinion that is older than the one stored is dropped.
  unfoldable pub put : AgentOpinion F → Opinions F → Opinions F
  put o d = elim (find (key_of o) d) [
    | none ↦ store (key_of o) o d
    | some p ↦ if ltb o.created_at p.created_at then d else store (key_of o) o d
  ]

  -- The inner loop of `opinions_for`, at one subject.
  unfoldable pub collect : String → ℕ → ℕ → Opinions F → Dict (OpinionSlot F) → Dict (OpinionSlot F)
  collect about now grace [] out = out
  collect about now grace (((s, agent), o) ∷ d) out = collect about now grace d (
      if not (str_eq s about) || has agent out
      then out
      else insert agent (record { opinion = o; quality = quality_at o now grace }) out)

  unfoldable pub collect_all :
      List String → ℕ → ℕ → Opinions F → Dict (OpinionSlot F) → Dict (OpinionSlot F)
  collect_all [] now grace d out = out
  collect_all (about ∷ rest) now grace d out =
      collect_all rest now grace d (collect about now grace d out)

-- A time and an id, as tuples are compared.
abbrev pub no_later : ℕ × String → ℕ × String → Bool
no_later (s, i) (t, j) =
    if ltb s t then true else s == t && (elim (compare i j) [ Ordering.gt ↦ false | _ ↦ true ])

abbrev pub insort : ℕ × String → List (ℕ × String) → List (ℕ × String)
insort x [] = x ∷ []
insort x (y ∷ ys) = if no_later x y then x ∷ y ∷ ys else y ∷ insort x ys

unfoldable pub sorted : List (ℕ × String) → List (ℕ × String)
sorted [] = []
sorted (x ∷ xs) = insort x (sorted xs)

-- `d.pop(id, None)` for each id of a list
unfoldable pub pop_all : {V : Type 0} → List (ℕ × String) → Dict V → Dict V
pop_all [] d = d
pop_all ((_, id) ∷ ids) d = pop_all ids (erase id d)

-- The newest `n`.
abbrev pub newest : {A : Type 0} → ℕ → List A → List A
newest n xs = drop (length xs - n) xs

-- `terminal_at or created_at`, where 0 counts as nothing
abbrev pub time_of : {F : Type 0} → PaperOrder F → ℕ
time_of o = elim o.terminal_at [
  | none ↦ o.created_at
  | some at ↦ if at == 0 then o.created_at else at
]

abbrev pub is_droppable : {F : Type 0} → List String → String × PaperOrder F → Bool
is_droppable referenced (id, o) = not (is_live o) && not (contains id referenced)

module _ {F P : Type 0} where
  -- `put_opinion`
  unfoldable pub put_opinion : AgentOpinion F → SystemState F P → SystemState F P
  put_opinion o s = record s { opinions = put o s.opinions }

  -- `opinion`
  abbrev pub opinion : String → String → ℕ → ℕ → SystemState F P → Option (OpinionSlot F)
  opinion about agent grace now s = elim (find (about, agent) s.opinions) [
    | none ↦ none
    | some o ↦ some (record { opinion = o; quality = quality_at o now grace })
  ]

  -- `opinions_for`
  abbrev pub opinions_for : List String → ℕ → ℕ → SystemState F P → Dict (OpinionSlot F)
  opinions_for subjects grace now s = collect_all subjects now grace s.opinions []

  -- `prune_opinions`
  abbrev pub prune_opinions : List String → SystemState F P → SystemState F P
  prune_opinions keep_subjects s = record s {
    opinions = filterb (λ e. contains e.0.0 keep_subjects) s.opinions;
  }

  -- `_trim_opportunities`
  unfoldable pub trim_opportunities : SystemState F P → SystemState F P
  trim_opportunities s =
      let over = length s.opportunities - s.max_history in
      let ended = filterb (λ e. not (is_open e.1)) s.opportunities in
      if leb (length s.opportunities) s.max_history then s else record s {
        opportunities =
            pop_all (take over (sorted (map (λ e. (e.1.updated_at, e.0)) ended))) s.opportunities;
      }

  abbrev pub open_opportunities : SystemState F P → List (OpportunityRecord F P)
  open_opportunities s = filterb is_open (values s.opportunities)

  abbrev pub referenced_ids : Dict (OpportunityRecord F P) → List String
  referenced_ids [] = []
  referenced_ids ((_, r) ∷ d) = r.order_ids ++ referenced_ids d

  abbrev pub droppable : SystemState F P → List (ℕ × String)
  droppable s =
      map (λ e. (time_of e.1, e.0))
        (filterb (is_droppable (referenced_ids s.opportunities)) s.orders)

  -- `_trim_orders`
  unfoldable pub trim_orders : SystemState F P → SystemState F P
  trim_orders s = if leb (length s.orders) s.max_history then s else record s {
    orders = pop_all (take (length s.orders - s.max_history) (sorted (droppable s))) s.orders;
  }

  -- `put_order`
  unfoldable pub put_order : PaperOrder F → SystemState F P → SystemState F P
  put_order o s = trim_orders (record s { orders = insert o.client_order_id o s.orders })

  abbrev pub open_orders : SystemState F P → List (PaperOrder F)
  open_orders s = filterb is_live (values s.orders)

  -- `add_fill`: false for a duplicate among the last 500.
  unfoldable pub add_fill : FillEvent F → SystemState F P → Bool × SystemState F P
  add_fill f s =
      let fills = s.fills ++ f ∷ [] in
      if any (λ g. str_eq g.fill_id f.fill_id) (newest 500 s.fills)
      then (false, s)
      else (true, record s { fills = if ltb 5_000 (length fills) then drop 1_000 fills else fills })

  abbrev pub record_rejection : RiskDecision F → SystemState F P → SystemState F P
  record_rejection d s = record s { rejections = newest s.max_history (s.rejections ++ d ∷ []) }

  abbrev pub record_error : String → ℕ → SystemState F P → SystemState F P
  record_error message now s = record s {
    errors = newest s.max_history (s.errors ++ (now, message) ∷ []);
  }

-- `OpportunityRecord(opportunity=…, updated_at=…)`
abbrev pub new_record : {F P : Type 0} → ⦃fl : Float F⦄ → P → ℕ → OpportunityRecord F P
new_record opportunity now = record {
  opportunity = opportunity;
  state = opportunity_detected;
  intent = none;
  decision = none;
  order_ids = [];
  entry_agreement = none;
  last_agreement = none;
  rejected_reason = none;
  exit_attempts = 0;
  updated_at = now;
  realized_pnl = zero_float;
  fees = zero_float;
  filled_notional = zero_float;
}

module _ {F P : Type 0} ⦃fl : Float F⦄ where
  -- `add_opportunity`, with the opportunity's id
  unfoldable pub add_opportunity :
      String → P → ℕ → SystemState F P → OpportunityRecord F P × SystemState F P
  add_opportunity id opportunity now s =
      let r = new_record opportunity now in
      (r, trim_opportunities (record s { opportunities = insert id r s.opportunities }))
