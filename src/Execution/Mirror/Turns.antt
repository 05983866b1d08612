-- ===== src/Execution/Mirror/Turns.antt =====
-- `poll` of execution/paper/executor.py, step by step, for the relation of Mirror.antt.
use octopush.Prelude.{
  ℕ, String, Bool, true, false, Option, none, some, List, [], ◌∷◌, ◌++◌, ltb, is_nil, not, ◌||◌,
  map, if◌then◌else◌,
}
use octopush.Prelude.Dict.{lookup, values}
use octopush.Prelude.Float.{Float}
use octopush.Prelude.Int.{pos}
use octopush.Prelude.Action.{Action, Result, ok, raised, ◌>>=◌, ◌>>◌, pure}
use octopush.Order.Status.{
  OrderStatus, submitting, acknowledged, open_order, cancelled, cancel_pending, unknown, is_status,
}
use octopush.Order.{PaperOrder, FillEvent, is_terminal}
use octopush.Settings.{VenueConfig, venue_named}
use octopush.Oms.{transition, mark_unknown}
use octopush.Events.{paper_order_updated}
use octopush.Execution.Simulator.{
  Draws, SimulatedFill, BookView, is_marketable, fill_marketable, fill_passive, cancel_wins_race,
}
use octopush.Execution.Venue.{Pending, on_oms, change_order, publish_order, latency_of, book_view}
use octopush.Execution.Polling.{
  on_rng, has_come, fillable, worthwhile, simulate, built, fill_at_venue, attempt_fill,
  expire_order, expiry_status, expire, recorded, fills_of, trade, settle_race, race, work, work_on,
  arrive, poll_pending, poll_order, poll_one, poll_each, poll,
}
use octopush.Execution.Mirror.{
  Keeps, bind-Keeps, if_Kept, if_Keeps, option_Kept, pure-Keeps, on_oms-Keeps, change_order-Keeps,
  publish_order-Keeps, transition-Still, mark_unknown-Still,
}
use octopush.Execution.Mirror.Fills.{record_fill-Keeps}

module _ {F R : Type 0} ⦃fl : Float F⦄ where
  -- A transition of an order and its event.
  pub step-Keeps :
      (id : String) (s : OrderStatus) (now : ℕ)
      → Keeps {F = F} {R = R} (on_oms (transition id s now) >> publish_order paper_order_updated id)
  step-Keeps id s now =
      bind-Keeps (on_oms (transition id s now)) (λ _. publish_order paper_order_updated id)
        (on_oms-Keeps (transition id s now) (transition-Still id s now))
        (λ _. publish_order-Keeps paper_order_updated id)

module _ {F R : Type 0} ⦃fl : Float F⦄ ⦃dr : Draws F R⦄ where
  on_rng-Keeps : {A : Type 0} (act : Action R A) → Keeps {F = F} {R = R} (on_rng {F = F} act)
  on_rng-Keeps act x v a e = record { windows = v.windows; counts = v.counts }

  simulate-Keeps :
      (o : PaperOrder F) (view : BookView F) (c : VenueConfig F) (latency : F)
      → Keeps {F = F} {R = R} (simulate o view c latency)
  unfolding simulate
  simulate-Keeps o view c latency x =
      if_Kept (is_marketable o) x _ _
        (on_rng-Keeps (fill_marketable x.config o view c.fees latency) x)
        (on_rng-Keeps (λ r. let (s, r') = fill_passive x.config o view c.fees r in (ok s, r')) x)

  built-Keeps :
      (o : PaperOrder F) (now : ℕ) (s : Option (SimulatedFill F))
      → Keeps {F = F} {R = R} (built o now s)
  built-Keeps o now none x v a e = v
  built-Keeps o now (some s) x v a e = record { windows = v.windows; counts = v.counts }

  fill_at_venue-Keeps :
      (o : PaperOrder F) (view : BookView F) (now : ℕ) (c : Result (VenueConfig F))
      → Keeps {F = F} {R = R} (fill_at_venue o view now c)
  fill_at_venue-Keeps o view now (raised x) y v a e = v
  fill_at_venue-Keeps o view now (ok c) x v a e =
      bind-Keeps (simulate o view c (fl.of_int (pos (latency_of o.venue x))))
        (λ s. built o now (worthwhile s)) (simulate-Keeps o view c _)
        (λ s. built-Keeps o now (worthwhile s)) x v a e

  attempt_fill-Keeps :
      (o : PaperOrder F) (view : BookView F) (now : ℕ)
      → Keeps {F = F} {R = R} (attempt_fill o view now)
  unfolding attempt_fill
  attempt_fill-Keeps o view now x =
      if_Kept (not (fillable o) || is_nil view.opposing) x (ok none, x) _ (λ v _ _. v)
        (fill_at_venue-Keeps o view now (venue_named o.venue x.venues) x)

  recorded-Keeps : (f : Option (FillEvent F)) (now : ℕ) → Keeps {F = F} {R = R} (recorded f now)
  recorded-Keeps none now = pure-Keeps tt
  recorded-Keeps (some f) now = record_fill-Keeps f now

  expire_order-Keeps : (o : PaperOrder F) (now : ℕ) → Keeps {F = F} {R = R} (expire_order o now)
  expire_order-Keeps o now =
      if_Keeps (is_terminal o || not (has_come now o.expires_at)) (pure tt) _ (pure-Keeps tt)
        (step-Keeps o.client_order_id (expiry_status o) now)

  expire-Keeps : (id : String) (now : ℕ) → Keeps {F = F} {R = R} (expire {F = F} id now)
  unfolding expire
  expire-Keeps id now x =
      option_Kept (lookup id x.oms.orders) x _ _ (λ v _ _. v) (λ o. expire_order-Keeps o now x)

  trade-Keeps : (o : PaperOrder F) (now : ℕ) → Keeps {F = F} {R = R} (trade o now)
  unfolding trade
  trade-Keeps o now x =
      bind-Keeps (attempt_fill o (book_view o x) now)
        (λ f. recorded f now >> expire o.client_order_id now >> pure (fills_of f))
        (attempt_fill-Keeps o (book_view o x) now)
        (λ f.
          bind-Keeps (recorded f now >> expire o.client_order_id now) (λ _. pure (fills_of f))
            (bind-Keeps (recorded f now) (λ _. expire o.client_order_id now) (recorded-Keeps f now)
              (λ _. expire-Keeps o.client_order_id now))
            (λ _. pure-Keeps (fills_of f)))
        x

  settle_race-Keeps :
      (wins : Bool) (o : PaperOrder F) (now : ℕ) → Keeps {F = F} {R = R} (settle_race wins o now)
  settle_race-Keeps true o now =
      bind-Keeps
        (on_oms (transition o.client_order_id cancelled now)
          >> publish_order paper_order_updated o.client_order_id)
        (λ _. pure []) (step-Keeps o.client_order_id cancelled now) (λ _. pure-Keeps [])
  settle_race-Keeps false o now = trade-Keeps o now

  race-Keeps : (o : PaperOrder F) (now : ℕ) → Keeps {F = F} {R = R} (race o now)
  race-Keeps o now x =
      let draw =
        on_rng {F = F} {R = R}
          (λ r. let (wins, r') = cancel_wins_race x.config o (book_view o x) r in (ok wins, r')) in
      bind-Keeps draw (λ wins. settle_race wins o now) (on_rng-Keeps _)
        (λ wins. settle_race-Keeps wins o now) x

  work-Keeps : (p : Pending F) (o : PaperOrder F) (now : ℕ) → Keeps {F = F} {R = R} (work p o now)
  unfolding work
  work-Keeps p o now =
      if_Keeps (is_status o.status cancel_pending)
        (if has_come now p.cancel_at then race o now else pure []) (trade o now)
        (if_Keeps (has_come now p.cancel_at) (race o now) (pure []) (race-Keeps o now)
          (pure-Keeps []))
        (trade-Keeps o now)

  work_on-Keeps : (p : Pending F) (id : String) (now : ℕ) → Keeps {F = F} {R = R} (work_on p id now)
  work_on-Keeps p id now x =
      option_Kept (lookup id x.oms.orders) x (ok [], x) (λ o. work p o now x) (λ v _ _. v)
        (λ o. work-Keeps p o now x)

  arrive-Keeps : (o : PaperOrder F) (now : ℕ) → Keeps {F = F} {R = R} (arrive o now)
  unfolding arrive
  arrive-Keeps o now =
      let id = o.client_order_id in
      let acknowledge = on_oms {R = R} (transition id acknowledged now) in
      let stamp =
        change_order {R = R} id (λ (q : PaperOrder F). record q { acknowledged_at = some now }) in
      let opens = on_oms {R = R} (transition id open_order now) in
      if_Keeps (not (is_status o.status submitting)) (pure tt)
        (acknowledge >> stamp >> opens >> publish_order paper_order_updated id) (pure-Keeps tt)
        (bind-Keeps (acknowledge >> stamp >> opens) (λ _. publish_order paper_order_updated id)
          (bind-Keeps (acknowledge >> stamp) (λ _. opens)
            (bind-Keeps acknowledge (λ _. stamp)
              (on_oms-Keeps _ (transition-Still id acknowledged now))
              (λ _. change_order-Keeps id (λ q. record q { acknowledged_at = some now })))
            (λ _. on_oms-Keeps _ (transition-Still id open_order now)))
          (λ _. publish_order-Keeps paper_order_updated id))

  lost-Keeps :
      (id : String) (now : ℕ)
      → Keeps {F = F} {R = R} (
          on_oms (mark_unknown id "simulated venue timeout" now)
          >> publish_order paper_order_updated id)
  lost-Keeps id now =
      bind-Keeps (on_oms (mark_unknown id "simulated venue timeout" now))
        (λ _. publish_order paper_order_updated id)
        (on_oms-Keeps _ (mark_unknown-Still id "simulated venue timeout" now))
        (λ _. publish_order-Keeps paper_order_updated id)

  poll_pending-Keeps :
      (p : Pending F) (o : PaperOrder F) (now : ℕ) → Keeps {F = F} {R = R} (poll_pending p o now)
  unfolding poll_pending
  poll_pending-Keeps p o now =
      let id = o.client_order_id in
      let lost =
        on_oms {R = R} (mark_unknown id "simulated venue timeout" now)
        >> publish_order paper_order_updated id in
      let waits = if ltb now p.ack_at then pure [] else arrive o now >> work_on p id now in
      if_Keeps p.force_unknown (lost >> pure []) waits
        (bind-Keeps lost (λ _. pure []) (lost-Keeps id now) (λ _. pure-Keeps []))
        (if_Keeps (ltb now p.ack_at) (pure []) (arrive o now >> work_on p id now) (pure-Keeps []) (
          bind-Keeps (arrive o now) (λ _. work_on p id now) (arrive-Keeps o now)
            (λ _. work_on-Keeps p id now)))

  poll_order-Keeps : (o : PaperOrder F) (now : ℕ) → Keeps {F = F} {R = R} (poll_order o now)
  unfolding poll_order
  poll_order-Keeps o now x =
      if_Kept (is_terminal o || is_status o.status unknown) x (ok [], x) _ (λ v _ _. v)
        (option_Kept (lookup o.client_order_id x.pending) x (ok [], x) (λ p. poll_pending p o now x)
          (λ v _ _. v) (λ p. poll_pending-Keeps p o now x))

  poll_one-Keeps : (id : String) (now : ℕ) → Keeps {F = F} {R = R} (poll_one id now)
  unfolding poll_one
  poll_one-Keeps id now x =
      option_Kept (lookup id x.oms.orders) x (ok [], x) (λ o. poll_order o now x) (λ v _ _. v)
        (λ o. poll_order-Keeps o now x)

  poll_each-Keeps : (ids : List String) (now : ℕ) → Keeps {F = F} {R = R} (poll_each ids now)
  unfolding poll_each
  poll_each-Keeps [] now = pure-Keeps []
  poll_each-Keeps (id ∷ ids) now =
      bind-Keeps (poll_one id now) (λ fills. poll_each ids now >>= λ more. pure (fills ++ more))
        (poll_one-Keeps id now)
        (λ fills.
          bind-Keeps (poll_each ids now) (λ more. pure (fills ++ more)) (poll_each-Keeps ids now)
            (λ more. pure-Keeps (fills ++ more)))

  pub poll-Keeps : (now : ℕ) → Keeps {F = F} {R = R} (poll now)
  unfolding poll
  poll-Keeps now x = poll_each-Keeps (map (λ o. o.client_order_id) (values x.oms.orders)) now x
