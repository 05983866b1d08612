-- ===== src/Events.antt =====
-- core/events/types.py: the topics and the envelope of the bus. The payload, the JSON form of a
-- model, is a parameter.
use octopush.Prelude.{ℕ, String, Bool, Option, none, some, List, [], ◌∷◌, any, str_eq, leb}

pub data EventType : Type 0 where
  market_update book_snapshot book_delta trade_print market_state venue_connected venue_disconnected
        venue_sequence_gap feed_stale opportunity_detected opportunity_expired agent_opinion
        consensus_updated risk_evaluation_request risk_pass risk_fail trade_intent execution_plan
        paper_order_created paper_order_updated paper_fill execution_report position_updated
        portfolio_state delta_report hedge_intent reconciliation_complete reconciliation_mismatch
        strategy_state_changed trade_attribution health_heartbeat kill_switch_triggered
        kill_switch_cleared system_event error :
      EventType

abbrev pub value : EventType → String
value market_update = "MARKET_UPDATE"
value book_snapshot = "BOOK_SNAPSHOT"
value book_delta = "BOOK_DELTA"
value trade_print = "TRADE_PRINT"
value market_state = "MARKET_STATE"
value venue_connected = "VENUE_CONNECTED"
value venue_disconnected = "VENUE_DISCONNECTED"
value venue_sequence_gap = "VENUE_SEQUENCE_GAP"
value feed_stale = "FEED_STALE"
value opportunity_detected = "OPPORTUNITY_DETECTED"
value opportunity_expired = "OPPORTUNITY_EXPIRED"
value agent_opinion = "AGENT_OPINION"
value consensus_updated = "CONSENSUS_UPDATED"
value risk_evaluation_request = "RISK_EVALUATION_REQUEST"
value risk_pass = "RISK_PASS"
value risk_fail = "RISK_FAIL"
value trade_intent = "TRADE_INTENT"
value execution_plan = "EXECUTION_PLAN"
value paper_order_created = "PAPER_ORDER_CREATED"
value paper_order_updated = "PAPER_ORDER_UPDATED"
value paper_fill = "PAPER_FILL"
value execution_report = "EXECUTION_REPORT"
value position_updated = "POSITION_UPDATED"
value portfolio_state = "PORTFOLIO_STATE"
value delta_report = "DELTA_REPORT"
value hedge_intent = "HEDGE_INTENT"
value reconciliation_complete = "RECONCILIATION_COMPLETE"
value reconciliation_mismatch = "RECONCILIATION_MISMATCH"
value strategy_state_changed = "STRATEGY_STATE_CHANGED"
value trade_attribution = "TRADE_ATTRIBUTION"
value health_heartbeat = "HEALTH_HEARTBEAT"
value kill_switch_triggered = "KILL_SWITCH_TRIGGERED"
value kill_switch_cleared = "KILL_SWITCH_CLEARED"
value system_event = "SYSTEM_EVENT"
value error = "ERROR"

abbrev pub is_type : EventType → EventType → Bool
is_type s t = str_eq (value s) (value t)

-- `MARKET_INPUT_TYPES`
abbrev pub market_input_types : List EventType
market_input_types =
    book_snapshot ∷ book_delta ∷ trade_print ∷ venue_connected ∷ venue_disconnected
    ∷ venue_sequence_gap ∷ []

abbrev pub among : EventType → List EventType → Bool
among t = any (λ s. is_type s t)

abbrev pub current_schema_version : ℕ
current_schema_version = 1

pub record Event (P : Type 0) : Type 0 where
  pub id : String
  pub type : EventType
  pub ts_ms : ℕ
  pub source : String
  pub payload : P
  pub schema_name : Option String
  pub schema_version : ℕ
  pub correlation_id : Option String
  pub causation_id : Option String
  pub sequence : Option ℕ

module _ {P : Type 0} where
  abbrev pub is_readable : Event P → Bool
  is_readable e = leb e.schema_version current_schema_version

  -- `sequence if sequence is not None else 0`
  abbrev pub sequence_or_zero : Event P → ℕ
  sequence_or_zero e = elim e.sequence [ none ↦ 0 | some n ↦ n ]

  abbrev pub sort_key : Event P → ℕ × ℕ × String
  sort_key e = (e.ts_ms, sequence_or_zero e, e.id)
