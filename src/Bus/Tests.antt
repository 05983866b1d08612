-- ===== src/Bus/Tests.antt =====
-- Runs of the event bus and of the barrier, and their theorems at concrete ones.
use octopush.Prelude.{
  ℕ, ◌+◌, ◌≤◌, ◌≡◌, refl, true, false, not, none, some, List, [], ◌∷◌, ◌++◌, map, arith, inl, inr,
  Bool-cases, if◌then◌else◌,
}
use octopush.Prelude.Dict.{lookup}
use octopush.Prelude.Action.{ok, raised, runtime_error, value_error}
use octopush.Events.{Event, EventType, market_update, opportunity_detected, is_type}
use octopush.Bus.{
  InMemoryEventBus, new_bus, subscribe, add_middleware, run_middleware, publish, publish_all, call,
  accepted, concluded, attempt, deliver, dispatch_one, drain,
}
use octopush.Bus.Trace.{
  Trace, Recorder, recorder, Handlers, watched, routes, schedule, Act, publishes, dispatches,
  drains, stops, starts, Floor, run, step,
}
use octopush.Bus.Cascade.{weight}
use octopush.Bus.Fifo.{run-IsLogged}
use octopush.Bus.Drain.{Pays, Drained, drain-Drained}
use octopush.Bus.Barrier.{new_barrier, expect, note, note_response, end_wait, covers}
use octopush.Bus.Barrier.Answers.{Call, responses, expects, answers, end_wait-answers}
use octopush.Bus.Barrier.Answers

data Agent : Type 0 where
  detector broken : Agent

abbrev event_of : EventType → Event (Unit {0})
event_of t = record {
  id = "bus-1";
  type = t;
  ts_ms = 0;
  source = "test";
  payload = tt;
  schema_name = none;
  schema_version = 1;
  correlation_id = none;
  causation_id = none;
  sequence = none;
}

-- One agent answers a market update with an opportunity, the other one always raises. The world
-- counts the calls.
instance abbrev agents : Handlers (Unit {0}) Agent ℕ
agents = record {
  run = λ h e w. elim h [
    | detector ↦ (
      ok tt,
      if is_type e.type market_update then event_of opportunity_detected ∷ [] else [],
      w + 1,
    )
    | broken ↦ (raised value_error, [], w + 1)
  ];
}

abbrev bus : InMemoryEventBus (Unit {0}) Agent Recorder
bus =
    add_middleware recorder
      (subscribe detector (some (market_update ∷ [])) "detector"
        (subscribe broken none "broken" (new_bus false)).1).1

abbrev empty_trace : Trace (Unit {0}) Agent ℕ
empty_trace = record { world = 0; recorded = []; deliveries = [] }

abbrev acts : List (Act (Unit {0}))
acts = publishes (event_of market_update) ∷ starts ∷ dispatches ∷ drains 10 ∷ []

-- The update reaches both agents, and the opportunity that it causes the broken one.
calls_made :
    map (λ d. d.0) (run acts (bus, empty_trace)).1.deliveries ≡ broken ∷ detector ∷ broken ∷ []
unfolding run step publish run_middleware accepted dispatch_one deliver attempt concluded call
    publish_all drain
calls_made = refl

-- `stop` counts the queued event as discarded, and a later start and dispatch deliver it.
stopped_then_started :
    let st =
      run
        (publishes (event_of opportunity_detected) ∷ stops ∷ starts ∷ dispatches ∷ [])
        (bus, empty_trace) in
    (st.0.discarded_at_stop ≡ 1) × (map (λ d. d.0) st.1.deliveries ≡ broken ∷ [])
unfolding run step publish run_middleware accepted dispatch_one deliver attempt concluded call
    publish_all drain
stopped_then_started = (refl, refl)

-- A cycle too many raises although it has emptied the queue.
one_too_many :
    let st = (publish (event_of opportunity_detected) (bus, empty_trace)).1 in
    ((drain 0 st).0 ≡ raised runtime_error) × ((drain 0 st).1.0.queue ≡ [])
unfolding publish run_middleware accepted dispatch_one deliver attempt concluded call publish_all
    drain
one_too_many = (refl, refl)

run-IsLogged_example :
    let a = run acts (bus, empty_trace) in
    (done : List (Event (Unit {0}))) × (a.1.recorded ≡ done ++ a.0.queue)
    × (a.1.deliveries ≡ schedule (routes bus.subs) done)
run-IsLogged_example = run-IsLogged acts bus 0 refl refl refl

-- A market update costs two cycles, any other event one.
abbrev cost : EventType → ℕ
cost t = if is_type t market_update then 2 else 1

abbrev share : Agent → EventType → ℕ
share detector t = if is_type t market_update then 1 else 0
share broken t = 0

abbrev queued : Floor (Unit {0}) Agent ℕ
queued = (publish (event_of market_update) (bus, empty_trace)).1

bounded :
    (h : Agent) (e : Event (Unit {0})) (t : Trace (Unit {0}) Agent ℕ)
    → weight cost ((watched {P = Unit {0}}).handle h e t).1 ≤ share h e.type
bounded detector e t = elim (Bool-cases (is_type e.type market_update)) [
  | inl update ↦ rw update (omega arith)
  | inr other ↦ rw other (omega arith)
]
bounded broken e t = omega arith

pays : Pays cost share (routes bus.subs)
pays t = elim (Bool-cases (is_type t market_update)) [
  | inl update ↦ rw update (ground arith)
  | inr other ↦ rw other (ground arith)
]

drain-Drained_example : Drained (drain 2 queued)
unfolding publish run_middleware accepted
drain-Drained_example = drain-Drained cost share bounded 2 queued.0 queued.1 refl pays (omega arith)

abbrev answered : List Call
answered =
    responses "opp-1" "RUNE"
    ∷ expects "opp-2" ("RUNE" ∷ [])
    ∷ responses "opp-1" "ZEPHR"
    ∷ responses "opp-1" "RUNE"
    ∷ []

end_wait-answers_example :
    let b = Answers.run answered (expect "opp-1" ("RUNE" ∷ "ZEPHR" ∷ []) new_barrier) in
    let (result, after) = end_wait "opp-1" true 100 130 b in
    (result.responded ≡ answers "opp-1" answered [])
    × (result.required ≡ "RUNE" ∷ "ZEPHR" ∷ [])
    × (result.complete ≡ covers (answers "opp-1" answered []) ("RUNE" ∷ "ZEPHR" ∷ []))
    × (result.timed_out ≡ not (covers (answers "opp-1" answered []) ("RUNE" ∷ "ZEPHR" ∷ [])))
    × (lookup "opp-1" after.pending ≡ none)
unfolding Answers.run expect note note_response
end_wait-answers_example =
    end_wait-answers "opp-1" ("RUNE" ∷ "ZEPHR" ∷ []) answered true 100 130 new_barrier tt
      (tt, (refl, (tt, (tt, tt))))
      (λ _. (
        record {
          required = "RUNE" ∷ "ZEPHR" ∷ [];
          responded = "RUNE" ∷ "ZEPHR" ∷ [];
          event_is_set = true;
        },
        refl,
        refl,
      ))
