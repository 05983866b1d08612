-- ===== src/Lib.antt =====
-- octopush: the trading core of a paper-trading platform, modelled from its Python sources.
--
-- Strategies propose trade intents; RUNE-CORE sizes and gates them against the limits, the account's
-- portfolio, component health and the kill switch; the order manager tracks the orders that result
-- and applies their fills; the paper account books the same fills to cash and positions, and can
-- rebuild the same totals from its fill log, which reconciliation compares. Between them, an intent is
-- planned and handed to the paper executor, which simulates its fills. The kill switch watches
-- the portfolio and the health of the parts and stops trading.
--
-- Which file models which part, with paths from the repository's root:
--   Order (Status, Lifecycle, Totals, Sound, Terminal): core/models/common.py (Side, OrderType, TimeInForce,
--     Liquidity) and core/models/execution.py (OrderStatus, ORDER_TRANSITIONS, FillEvent,
--     PaperOrder). `transition` and `apply_fill` are the methods of those names.
--   Dedupe (Horizon, Stream): the duplicate window, `_applied_fills`, `_dedupe_order` and
--     `_trim_dedupe` of execution/oms/__init__.py, and the same of execution/paper/account.py.
--   Oms (State, Orders, Fills, Taking, Compaction, History): execution/oms/__init__.py, `OrderManager` and
--     `ArchivedOrders`, one function per method; PlannedOrder of core/models/opportunity.py.
--   Position: `PositionState` of core/models/portfolio.py. `apply` keeps the order of the validated
--     assignments, so that what a failed one leaves behind is visible.
--   Account (Replay, Reconcile, Session, Torn): execution/paper/account.py, `PaperAccount` and
--     `LedgerCheckpoint`.
--   Portfolio: `PortfolioState` of core/models/portfolio.py and `PaperAccount.snapshot`.
--   Health (Registry, Errors): `HealthState` and `SystemHealth` of core/models/ops.py and the registry
--     of core/health/__init__.py.
--   Events: core/events/types.py, the topics and the envelope of the bus.
--   Bus (Trace, Delivery, Fifo, Cascade, Drain; Barrier with Answers): core/bus/memory.py with
--     `Subscription` of core/bus/base.py, and core/bus/barrier.py. What handlers and middleware do is
--     the parameter Components of Bus.antt; EventBus there is what other parts use of a bus.
--   Marin (Report, Checks, Agreement, Sealing, Straddling): agents/marin/agent.py, with `Mismatch` and
--     `ReconciliationResult` of core/models/ops.py.
--   KillSwitch (Engagement, Streaks, Confirmation): risk/kill_switch/__init__.py, with
--     `KillSwitchState` of core/models/ops.py.
--   Settings: `FeeSchedule`, `RiskLimits`, `VenueConfig` and `ExecutionConfig` of
--     core/config/settings.py.
--   Opportunity: legs, costs, intents and plans of core/models/opportunity.py.
--   Market: metrics and states of core/models/market.py.
--   Execution (Costs, Simulator, Router, Venue, Executor, Polling, Veska; Disabled, Stuck, Mirror):
--     `walk_book` of execution/costs.py, execution/paper/simulator.py, execution/router/__init__.py,
--     `PaperExecutor` of execution/paper/executor.py and `Veska` of execution/veska/engine.py.
--   Risk: the gates of risk/limits/__init__.py and `GateCheck` of core/models/risk.py.
--   RuneCore (Permission, Safety, Decisions, Utilization): agents/rune/core.py, with the decision
--     and the utilization of core/models/risk.py.
--   Book (Sides, Best, Feed, Sequence, Load): agents/tidal/book.py, `LocalOrderBook`, with PriceLevel
--     and OrderBookSnapshot of core/models/market.py and BookDelta of venues/base/messages.py. That
--     prices are ordered, as floats other than NaN are, is the hypothesis IsOrdered of Book/Sides.antt.
--   Consensus (Complete, Absent): strategies/consensus/engine.py, with AgentOpinion and
--     ConsensusResult of core/models/agent.py, DataQuality of core/models/common.py, OpinionSlot of
--     core/state/__init__.py and ConsensusConfig of core/config/settings.py.
--   Strategy (Trail): the strategy state machine, STRATEGY_TRANSITIONS of core/models/opportunity.py
--     with `transition` and `_reject` of apps/orchestrator/orchestrator.py.
--   Tidal (Windows): agents/tidal/metrics.py and `safe_bps` of core/models/market.py.
--   Noro: agents/noro/fair_value.py.
--   State (Latest, Kept): core/state/__init__.py, `SystemState`, which the orchestrator writes and the
--     others read.
--   Prelude and Samples: shared notation, lists, dicts, integers, floats and the monad for methods
--     that raise; test data. The modules named Tests hold runs on concrete data.
--
-- How the program is represented. Objects are records, and a method that mutates is a function from
-- state to state. A method that can raise returns a result next to the state, so the state that an
-- exception leaves behind is part of the model. Dicts are association lists in insertion order, sets
-- of ids are lists without repetition. Times are natural numbers of milliseconds and arguments where
-- the source asks its clock, as are freshly minted ids; the executor takes its ids in order from a
-- parameter `mint`, and the numbers of its generator from the parameter Draws. Floats are a
-- parameter, the record Float of Prelude/Float.antt, and no law of arithmetic is assumed, so
-- rounding is no concern; where the comparison of floats other than NaN matters, in Book and
-- Consensus, what is used of it is a hypothesis. The tests run at numbers with twelve decimals. Free
-- texts of messages and details and the event ids of envelopes are left out. Loops run over lists;
-- `drain` of the bus runs on the number of cycles that the source allows it, so no fuel is made up.
--
-- Not modelled: the agents around the order book, the metrics and the fair value, those that call
-- language models, the tick of the orchestrator, market impact and latency cost of
-- execution/costs.py, the Redis bus, storage, replay, and the adapters of venues; settings are
-- modelled as far as limits, fees, venues and execution go.
pub mod Prelude
pub mod Order
pub mod Dedupe
pub mod Oms
pub mod Position
pub mod Account
pub mod Portfolio
pub mod Health
pub mod KillSwitch
pub mod Settings
pub mod Book
pub mod Opportunity
pub mod Risk
pub mod RuneCore
pub mod Consensus
pub mod State
pub mod Noro
pub mod Strategy
pub mod Tidal
pub mod Market
pub mod Execution
pub mod Events
pub mod Bus
pub mod Marin
pub mod Samples
