-- ===== src/Bus.antt =====
-- core/bus/base.py (`Subscription`) and core/bus/memory.py (`InMemoryEventBus`): the in-process event
-- bus. What handlers and middleware do is a parameter: a handler changes the world outside of the
-- bus, publishes events one after another and returns or raises, and a middleware changes the world
-- and returns or raises. The event loop that wakes the dispatcher is left out, but for the marks
-- `_idle` and `_work`.
pub mod Trace
pub mod Delivery
pub mod Fifo
pub mod Cascade
pub mod Drain
pub mod Barrier
mod Tests
use octopush.Prelude.{
  ℕ, zero, suc, ◌+◌, String, Bool, true, false, not, ◌&&◌, Option, none, some, List, [], ◌∷◌, ◌++◌,
  length, is_nil, any, str_eq, ◌==◌, if◌then◌else◌,
}
use octopush.Prelude.Action.{
  Action, Error, Result, ok, raised, index_error, runtime_error, ◌>>◌, raise,
}
use octopush.Events.{Event, EventType, among}

pub record Subscription (H : Type 0) : Type 0 where
  pub name : String
  pub types : Option (List EventType)
  pub handler : H
  pub delivered : ℕ
  pub errors : ℕ

-- `M` names the middleware, as `H` names the handlers.
pub record InMemoryEventBus (P H M : Type 0) : Type 0 where
  pub queue : List (Event P)
  pub subs : List (Subscription H)
  pub middleware : List M
  pub running : Bool
  -- The marks `_idle` and `_work`.
  pub idle : Bool
  pub work : Bool
  -- What `next(self._seq)` gives.
  pub next_sequence : ℕ
  pub raise_on_handler_error : Bool
  pub published_count : ℕ
  pub delivered_count : ℕ
  pub dropped_count : ℕ
  pub discarded_at_stop : ℕ

-- The methods of `EventBus` that components use to publish, on a bus of states `B`.
pub record EventBus (P B : Type 0) : Type 0 where
  pub publish_event : Event P → Action B (Unit {0})
  pub depth : B → ℕ

-- What the subscribers and the middleware do, in a world of states `W`.
pub record Components (P H M W : Type 0) : Type 0 where
  pub handle : H → Event P → W → Result (Unit {0}) × List (Event P) × W
  pub observe : M → Event P → W → Result (Unit {0}) × W

abbrev pub new_bus : {P H M : Type 0} → Bool → InMemoryEventBus P H M
new_bus raise_on_handler_error = record {
  queue = [];
  subs = [];
  middleware = [];
  running = false;
  idle = true;
  work = false;
  next_sequence = 1;
  raise_on_handler_error = raise_on_handler_error;
  published_count = 0;
  delivered_count = 0;
  dropped_count = 0;
  discarded_at_stop = 0;
}

-- `self.types is None or event.type in self.types`
abbrev pub wants_type : EventType → Option (List EventType) → Bool
wants_type t none = true
wants_type t (some ts) = among t ts

abbrev pub wants : {P H : Type 0} → Event P → Subscription H → Bool
wants e s = wants_type e.type s.types

-- `list.remove`, by an equality of subscriptions.
abbrev pub remove :
    {H : Type 0}
    → (Subscription H → Subscription H → Bool)
    → Subscription H
    → List (Subscription H)
    → List (Subscription H)
remove same s [] = []
remove same s (t ∷ ts) = if same t s then ts else t ∷ remove same s ts

-- `for mw in self._middleware: await mw(event)`
unfoldable pub run_middleware :
    {P M W : Type 0}
    → (M → Event P → W → Result (Unit {0}) × W)
    → List M
    → Event P
    → Action W (Unit {0})
run_middleware observe [] e w = (ok tt, w)
run_middleware observe (m ∷ ms) e w = (observe m e >> run_middleware observe ms e) w

module _ {P H M : Type 0} where
  -- The event as `publish` stamps it.
  abbrev pub stamped : Event P → InMemoryEventBus P H M → Event P
  stamped e b = record e {
    sequence = elim e.sequence [ none ↦ some b.next_sequence | some n ↦ some n ];
  }

  -- The counters after the stamp.
  abbrev pub counted : Event P → InMemoryEventBus P H M → InMemoryEventBus P H M
  counted e b = record b {
    next_sequence = elim e.sequence [ none ↦ b.next_sequence + 1 | some _ ↦ b.next_sequence ];
    published_count = b.published_count + 1;
  }

  abbrev pub enqueue : Event P → InMemoryEventBus P H M → InMemoryEventBus P H M
  enqueue e b = record b { queue = b.queue ++ e ∷ []; idle = false; work = true }

  abbrev pub start : InMemoryEventBus P H M → InMemoryEventBus P H M
  start b = record b { running = true }

  -- `stop`: what is queued is counted as discarded, and stays in the queue.
  abbrev pub stop : InMemoryEventBus P H M → InMemoryEventBus P H M
  stop b = record b { discarded_at_stop = b.discarded_at_stop + length b.queue; running = false }

  abbrev pub add_middleware : M → InMemoryEventBus P H M → InMemoryEventBus P H M
  add_middleware m b = record b { middleware = b.middleware ++ m ∷ [] }

  abbrev pub subscribe :
      H
      → Option (List EventType)
      → String
      → InMemoryEventBus P H M
      → Subscription H × InMemoryEventBus P H M
  subscribe handler types name b =
      let s : Subscription H = record {
        name = name;
        types = types;
        handler = handler;
        delivered = 0;
        errors = 0;
      } in
      (s, record b { subs = b.subs ++ s ∷ [] })

  -- `unsubscribe`, with the equality of dataclasses as an argument.
  abbrev pub unsubscribe :
      (Subscription H → Subscription H → Bool)
      → Subscription H
      → InMemoryEventBus P H M
      → InMemoryEventBus P H M
  unsubscribe same s b = record b { subs = remove same s b.subs }

  abbrev pub queue_depth : InMemoryEventBus P H M → ℕ
  queue_depth b = length b.queue

-- The end of `publish`, by how the middleware ended.
unfoldable pub accepted :
    {P H M W : Type 0}
    → Event P
    → InMemoryEventBus P H M
    → Result (Unit {0}) × W
    → Result (Unit {0}) × (InMemoryEventBus P H M × W)
accepted e b (ok _, w) = (ok tt, (enqueue e b, w))
accepted e b (raised x, w) = (raised x, (b, w))

-- What `_dispatch_one` makes of how a handler ended.
unfoldable pub concluded :
    {P H M W : Type 0}
    → Subscription H
    → Result (Unit {0}) × (InMemoryEventBus P H M × W)
    → Option Error × Subscription H × (InMemoryEventBus P H M × W)
concluded s (ok _, (b, w)) = (
  none,
  record s { delivered = s.delivered + 1 },
  (record b { delivered_count = b.delivered_count + 1 }, w),
)
concluded s (raised x, (b, w)) =
    (if b.raise_on_handler_error then some x else none, record s { errors = s.errors + 1 }, (b, w))

module _ {P H M W : Type 0} ⦃c : Components P H M W⦄ where
  -- `publish`: a middleware that raises keeps the event out of the queue.
  unfoldable pub publish : Event P → Action (InMemoryEventBus P H M × W) (Unit {0})
  publish e (b, w) =
      accepted (stamped e b) (counted e b) (run_middleware c.observe b.middleware (stamped e b) w)

  -- Publications of one handler, in order; an exception ends the handler.
  unfoldable pub publish_all : List (Event P) → Action (InMemoryEventBus P H M × W) (Unit {0})
  publish_all [] st = (ok tt, st)
  publish_all (e ∷ es) st = (publish e >> publish_all es) st

  -- `await sub.handler(event)`
  unfoldable pub call : H → Event P → Action (InMemoryEventBus P H M × W) (Unit {0})
  call h e (b, w) =
      let (r, events, w') = c.handle h e w in (publish_all events >> λ st. (r, st)) (b, w')

  -- The loop's body of `_dispatch_one`, with the exception that it lets out.
  unfoldable pub attempt :
      Event P
      → Subscription H
      → InMemoryEventBus P H M × W
      → Option Error × Subscription H × (InMemoryEventBus P H M × W)
  attempt e s st = if not (wants e s) then (none, s, st) else concluded s (call s.handler e st)

  -- The loop over the subscriptions, which are objects that it changes.
  unfoldable pub deliver :
      Event P
      → List (Subscription H)
      → InMemoryEventBus P H M × W
      → Result (Unit {0}) × List (Subscription H) × (InMemoryEventBus P H M × W)
  deliver e [] st = (ok tt, [], st)
  deliver e (s ∷ rest) st =
      let (stopped, s', st') = attempt e s st in
      elim stopped [
        | some x ↦ (raised x, s' ∷ rest, st')
        | none ↦ let (r, rest', st'') = deliver e rest st' in (r, s' ∷ rest', st'')
      ]

  abbrev pub dispatch : Event P → List (Event P) → Action (InMemoryEventBus P H M × W) (Unit {0})
  dispatch e waiting (b, w) =
      let (r, subs, (b', w')) = deliver e b.subs (record b { queue = waiting }, w) in
      (r, (record b' { subs = subs }, w'))

  -- `_dispatch_one`
  unfoldable pub dispatch_one : Action (InMemoryEventBus P H M × W) (Unit {0})
  dispatch_one (b, w) = elim b.queue [
    | [] ↦ (raised index_error, (b, w))
    | e ∷ waiting ↦ dispatch e waiting (b, w)
  ]

  -- The loop's test of `drain`, and its end.
  abbrev pub unless_empty :
      Action (InMemoryEventBus P H M × W) (Unit {0})
      → Action (InMemoryEventBus P H M × W) (Unit {0})
  unless_empty cycle (b, w) =
      if is_nil b.queue then (ok tt, (record b { idle = true }, w)) else cycle (b, w)

  -- `drain`: the number is `max_cycles - cycles`. The cycle after the last allowed one raises, also
  -- when it has emptied the queue.
  unfoldable pub drain : ℕ → Action (InMemoryEventBus P H M × W) (Unit {0})
  drain zero = unless_empty (dispatch_one >> raise runtime_error)
  drain (suc left) = unless_empty (dispatch_one >> drain left)

-- The in-process bus as an `EventBus`, in its world.
instance abbrev pub in_memory :
    {P H M W : Type 0} → ⦃c : Components P H M W⦄ → EventBus P (InMemoryEventBus P H M × W)
in_memory ⦃c = c⦄ = record { publish_event = publish; depth = λ st. queue_depth st.0 }
