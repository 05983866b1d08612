-- ===== src/Bus/Trace.antt =====
-- Runs of the bus of core/bus/memory.py that keep what was published and which handlers were called.
use octopush.Prelude.{
  ℕ, ◌≡◌, refl, sym, ap, ◌∙◌, false, Option, List, [], ◌∷◌, ◌++◌, map, append_assoc, append-nil,
  inl, inr, Bool-cases, if◌then◌else◌,
}
use octopush.Prelude.Action.{Result, ok}
use octopush.Events.{Event, EventType}
use octopush.Bus.{
  Subscription, InMemoryEventBus, Components, wants_type, start, stop, publish, dispatch_one, drain,
}

-- A world of handlers together with what a recorder, the only middleware, has seen published, and
-- each call of a handler with its event.
pub record Trace (P H W : Type 0) : Type 0 where
  pub world : W
  pub recorded : List (Event P)
  pub deliveries : List (H × Event P)

pub data Recorder : Type 0 where
  recorder : Recorder

-- What each handler does, whatever the middleware is.
pub record Handlers (P H W : Type 0) : Type 0 where
  pub run : H → Event P → W → Result (Unit {0}) × List (Event P) × W

instance abbrev pub watched :
    {P H W : Type 0} → ⦃h : Handlers P H W⦄ → Components P H Recorder (Trace P H W)
watched ⦃h = hs⦄ = record {
  handle = λ h e t.
      let (r, es, w) = hs.run h e t.world in
      (r, es, record t { world = w; deliveries = t.deliveries ++ (h, e) ∷ [] });
  observe = λ _ e t. (ok tt, record t { recorded = t.recorded ++ e ∷ [] });
}

-- What of a subscription decides on its events.
abbrev pub route : {H : Type 0} → Subscription H → Option (List EventType) × H
route s = (s.types, s.handler)

abbrev pub routes : {H : Type 0} → List (Subscription H) → List (Option (List EventType) × H)
routes = map route

-- The calls that an event is due, in the order of registration.
abbrev pub due : {P H : Type 0} → Event P → List (Option (List EventType) × H) → List (H × Event P)
due e [] = []
due e ((types, h) ∷ rs) =
    let rest = due e rs in if wants_type e.type types then (h, e) ∷ rest else rest

pub due-split :
    {P H : Type 0} (e : Event P) (r : Option (List EventType) × H)
    (rs : List (Option (List EventType) × H))
    → due e (r ∷ []) ++ due e rs ≡ due e (r ∷ rs)
due-split e (types, h) rs = elim (Bool-cases (wants_type e.type types)) [
  | inl wanted ↦ rw wanted refl
  | inr other ↦ rw other refl
]

-- The calls for a list of events, one event after another.
abbrev pub schedule :
    {P H : Type 0} → List (Option (List EventType) × H) → List (Event P) → List (H × Event P)
schedule rs [] = []
schedule rs (e ∷ es) = due e rs ++ schedule rs es

pub schedule-append_one :
    {P H : Type 0} (rs : List (Option (List EventType) × H)) (es : List (Event P)) (e : Event P)
    → schedule rs (es ++ e ∷ []) ≡ schedule rs es ++ due e rs
schedule-append_one rs [] e = append-nil _
schedule-append_one rs (d ∷ es) e =
    ap (◌++◌ (due d rs)) (schedule-append_one rs es e)
    ∙ sym (append_assoc (due d rs) (schedule rs es) (due e rs))

pub data Act (P : Type 0) : Type 0 where
  publishes : Event P → Act P
  dispatches starts stops : Act P
  drains : ℕ → Act P

-- The bus with its surroundings.
abbrev pub Floor : Type 0 → Type 0 → Type 0 → Type 0
Floor P H W = InMemoryEventBus P H Recorder × Trace P H W

pub grown : {X : Type 0} (a b c xs ys : List X) → b ≡ a ++ xs → c ≡ b ++ ys → c ≡ a ++ (xs ++ ys)
grown a b c xs ys e f = f ∙ ap (λ u. u ++ ys) e ∙ append_assoc a xs ys

module _ {P H W : Type 0} where
  -- The recorder is the only middleware, and failures of handlers are isolated.
  abbrev pub IsRecorded : Floor P H W → Type 0
  IsRecorded st = (st.0.middleware ≡ recorder ∷ []) × (st.0.raise_on_handler_error ≡ false)

module _ {P H W : Type 0} ⦃hs : Handlers P H W⦄ where
  unfoldable pub step : Act P → Floor P H W → Floor P H W
  step (publishes e) st = (publish e st).1
  step dispatches st = (dispatch_one st).1
  step starts (b, t) = (start b, t)
  step stops (b, t) = (stop b, t)
  step (drains left) st = (drain left st).1

  unfoldable pub run : List (Act P) → Floor P H W → Floor P H W
  run [] st = st
  run (a ∷ acts) st = run acts (step a st)
