-- ===== src/State/Tests.antt =====
-- Runs of the system state, and its theorems at concrete states.
use octopush.Prelude.{
  ℕ, ◌+◌, ◌≡◌, refl, String, false, Option, none, some, List, [], ◌∷◌, All, inl, map, length,
}
use octopush.Prelude.Int.{ℤ, pos}
use octopush.Prelude.Float.{fixed_point}
use octopush.Prelude.Dict.{lookup}
use octopush.Order.Status.{filled, is_terminal_status}
use octopush.Order.{PaperOrder, is_live, is_terminal}
use octopush.Oms.{new_order}
use octopush.KillSwitch.{untriggered}
use octopush.Consensus.{AgentOpinion, quality_at}
use octopush.State.{
  SystemState, key_of, put, put_opinion, collect, collect_all, opinions_for, put_order, trim_orders,
  pop_all, sorted, add_fill,
}
use octopush.State.Latest.{IsSince, put_opinions, put_opinions-IsSince}
use octopush.State.Kept.{put_order-lookup}
use octopush.Samples.{units, buy_five, first_fill}

-- No order is kept beyond what is live or named.
abbrev empty : SystemState ℤ (Unit {0})
empty = record {
  market = none;
  portfolio = none;
  health = none;
  kill_switch = untriggered;
  risk_utilization = record {
    gross_exposure = pos 0;
    max_gross_exposure = pos 0;
    net_exposure = pos 0;
    max_net_exposure = pos 0;
    day_loss = pos 0;
    max_day_loss = pos 0;
    drawdown = pos 0;
    max_drawdown = pos 0;
    unhedged_notional = pos 0;
    max_unhedged_notional = pos 0;
    venue_exposure = [];
    max_venue_exposure = pos 0;
    strategy_exposure = [];
    max_strategy_exposure = pos 0;
  };
  opinions = [];
  opportunities = [];
  orders = [];
  fills = [];
  rejections = [];
  errors = [];
  max_history = 0;
}

-- An opinion on the symbol or on an opportunity.
abbrev opinion_at : ℕ → Option String → AgentOpinion ℤ
opinion_at now about = record {
  created_at = now;
  correlation_id = about;
  agent_id = "NORO";
  symbol = "BTC-USD";
  signal = units 1;
  confidence = units 1;
  expires_at = now + 100;
  model_version = "1";
}

abbrev late : List (AgentOpinion ℤ)
late = opinion_at 50 none ∷ opinion_at 20 none ∷ opinion_at 30 (some "opp-1") ∷ []

-- The older opinion that arrives later is dropped, and the one on the opportunity comes first.
gathered :
    let s = put_opinions late empty in
    (length s.opinions ≡ 2)
    × (map (λ e. e.1.opinion.created_at) (opinions_for ("opp-1" ∷ "BTC-USD" ∷ []) 0 140 s)
        ≡ 30 ∷ [])
unfolding put_opinions put_opinion put collect collect_all quality_at
gathered = (refl, refl)

put_opinions-IsSince_example :
    All (λ o. IsSince (key_of o) o.created_at (put_opinions late empty).opinions) late
put_opinions-IsSince_example = put_opinions-IsSince late empty

abbrev order : String → PaperOrder ℤ
order id = new_order (record buy_five { client_order_id = some id }) "minted" 5

-- A terminal order goes at once, where nothing names it.
dropped : lookup "o1" (put_order (record (order "o1") { status = filled }) empty).orders ≡ none
unfolding put_order trim_orders pop_all sorted is_live is_terminal is_terminal_status new_order
dropped = refl

put_order-lookup_example : lookup "o1" (put_order (order "o1") empty).orders ≡ some (order "o1")
unfolding is_live is_terminal is_terminal_status new_order
put_order-lookup_example = put_order-lookup (order "o1") "o1" (order "o1") empty tt refl (inl refl)

-- A fill is taken once.
once : ((add_fill first_fill (add_fill first_fill empty).1).0 ≡ false)
unfolding add_fill
once = refl
