-- ===== src/Execution/Polling.antt =====
-- `poll` of execution/paper/executor.py: every live order is brought up to the time. A loop over order
-- objects is a loop over their ids, each looked up when its turn comes.
use octopush.Prelude.{
  ℕ, ◌+◌, String, Bool, false, not, ◌||◌, Option, none, some, List, [], ◌∷◌, ◌++◌, map, leb, ltb,
  is_nil, if◌then◌else◌,
}
use octopush.Prelude.Int.{pos}
use octopush.Prelude.Dict.{lookup, values}
use octopush.Prelude.Float.{Float, ◌⩽◌, zero_float}
use octopush.Prelude.Action.{Action, Result, ok, raised, ◌>>=◌, ◌>>◌, pure, modify}
use octopush.Order.Status.{
  OrderStatus, submitting, acknowledged, open_order, partially_filled, cancel_pending, cancelled,
  expired, unknown, is_status, among,
}
use octopush.Order.{FillEvent, PaperOrder, is_terminal}
use octopush.Settings.{VenueConfig, venue_named}
use octopush.Oms.{OrderManager, transition, mark_unknown, qty_epsilon}
use octopush.Oms
use octopush.Account
use octopush.Events.{paper_order_updated, paper_fill}
use octopush.Execution.Simulator.{
  Draws, SimulatedFill, BookView, is_marketable, fill_marketable, fill_passive, cancel_wins_race,
  build_fill,
}
use octopush.Execution.Venue.{
  Pending, fill_posted, PaperExecutor, on_oms, on_account, change_order, publish_order, latency_of,
  book_view,
}

abbrev pub has_come : ℕ → Option ℕ → Bool
has_come now none = false
has_come now (some at) = leb at now

module _ {F : Type 0} ⦃fl : Float F⦄ where
  -- The statuses in which `_attempt_fill` tries.
  abbrev pub fillable : PaperOrder F → Bool
  fillable o = among (open_order ∷ partially_filled ∷ cancel_pending ∷ []) o.status

  -- A simulated fill that is large enough.
  abbrev pub worthwhile : Option (SimulatedFill F) → Option (SimulatedFill F)
  worthwhile none = none
  worthwhile (some s) = if s.quantity ⩽ qty_epsilon then none else some s

  -- The status of an order whose time is over.
  abbrev pub expiry_status : PaperOrder F → OrderStatus
  expiry_status o = if o.filled_quantity ⩽ zero_float then expired else cancelled

abbrev pub fills_of : {F : Type 0} → Option (FillEvent F) → List (FillEvent F)
fills_of none = []
fills_of (some f) = f ∷ []

module _ {F R : Type 0} ⦃fl : Float F⦄ ⦃dr : Draws F R⦄ where
  -- Something drawn from the simulator's generator.
  abbrev pub on_rng : {A : Type 0} → Action R A → Action (PaperExecutor F R) A
  on_rng act x = let (r, g) = act x.rng in (r, record x { rng = g })

  unfoldable pub simulate :
      PaperOrder F
      → BookView F
      → VenueConfig F
      → F
      → Action (PaperExecutor F R) (Option (SimulatedFill F))
  simulate o view v latency x =
      if is_marketable o
      then on_rng (fill_marketable x.config o view v.fees latency) x
      else on_rng (λ r. let (s, r') = fill_passive x.config o view v.fees r in (ok s, r')) x

  abbrev pub built :
      PaperOrder F
      → ℕ
      → Option (SimulatedFill F)
      → Action (PaperExecutor F R) (Option (FillEvent F))
  built o now none x = (ok none, x)
  built o now (some s) x =
      (ok (some (build_fill (x.mint x.minted) o s now)), record x { minted = x.minted + 1 })

  abbrev pub fill_at_venue :
      PaperOrder F
      → BookView F
      → ℕ
      → Result (VenueConfig F)
      → Action (PaperExecutor F R) (Option (FillEvent F))
  fill_at_venue o view now (raised e) x = (raised e, x)
  fill_at_venue o view now (ok v) x =
      (simulate o view v (fl.of_int (pos (latency_of o.venue x))) >>= λ s.
      built o now (worthwhile s))
        x

  -- `_attempt_fill`
  unfoldable pub attempt_fill :
      PaperOrder F → BookView F → ℕ → Action (PaperExecutor F R) (Option (FillEvent F))
  attempt_fill o view now x =
      if not (fillable o) || is_nil view.opposing
      then (ok none, x)
      else fill_at_venue o view now (venue_named o.venue x.venues) x

  -- `_record_fill`: a duplicate ends it.
  unfoldable pub record_fill : FillEvent F → ℕ → Action (PaperExecutor F R) (Unit {0})
  record_fill f now = on_oms (Oms.apply_fill f now) >>= λ fresh.
      if not fresh
      then pure tt
      else on_account (Account.apply_fill f)
        >> modify (λ x. record x { published = x.published ++ (paper_fill, fill_posted f) ∷ [] })
        >> publish_order paper_order_updated f.client_order_id

  -- What is left of a turn once a fill has been tried: the order's time may be over.
  abbrev pub expire_order : PaperOrder F → ℕ → Action (PaperExecutor F R) (Unit {0})
  expire_order o now =
      if is_terminal o || not (has_come now o.expires_at)
      then pure tt
      else on_oms (transition o.client_order_id (expiry_status o) now)
        >> publish_order paper_order_updated o.client_order_id

  unfoldable pub expire : String → ℕ → Action (PaperExecutor F R) (Unit {0})
  expire id now x = elim (lookup id x.oms.orders) [
    | none ↦ (ok tt, x)
    | some o ↦ expire_order o now x
  ]

  abbrev pub recorded : Option (FillEvent F) → ℕ → Action (PaperExecutor F R) (Unit {0})
  recorded none now = pure tt
  recorded (some f) now = record_fill f now

  -- The part of a turn from `_attempt_fill` on.
  unfoldable pub trade : PaperOrder F → ℕ → Action (PaperExecutor F R) (List (FillEvent F))
  trade o now x =
      (attempt_fill o (book_view o x) now >>= λ fill.
      recorded fill now >> expire o.client_order_id now >> pure (fills_of fill))
        x

  -- A cancel that has arrived may lose the race to a fill.
  abbrev pub settle_race : Bool → PaperOrder F → ℕ → Action (PaperExecutor F R) (List (FillEvent F))
  settle_race wins o now =
      if wins
      then on_oms (transition o.client_order_id cancelled now)
        >> publish_order paper_order_updated o.client_order_id
        >> pure []
      else trade o now

  abbrev pub race : PaperOrder F → ℕ → Action (PaperExecutor F R) (List (FillEvent F))
  race o now x =
      (on_rng (λ r. let (wins, r') = cancel_wins_race x.config o (book_view o x) r in (ok wins, r'))
          >>= λ wins. settle_race wins o now)
        x

  -- An order that the venue has acknowledged.
  unfoldable pub work :
      Pending F → PaperOrder F → ℕ → Action (PaperExecutor F R) (List (FillEvent F))
  work p o now =
      if is_status o.status cancel_pending
      then (if has_come now p.cancel_at then race o now else pure [])
      else trade o now

  abbrev pub work_on : Pending F → String → ℕ → Action (PaperExecutor F R) (List (FillEvent F))
  work_on p id now x = elim (lookup id x.oms.orders) [ none ↦ (ok [], x) | some o ↦ work p o now x ]

  -- The acknowledgement of a submitted order.
  unfoldable pub arrive : PaperOrder F → ℕ → Action (PaperExecutor F R) (Unit {0})
  arrive o now =
      if not (is_status o.status submitting)
      then pure tt
      else on_oms (transition o.client_order_id acknowledged now)
        >> change_order o.client_order_id (λ q. record q { acknowledged_at = some now })
        >> on_oms (transition o.client_order_id open_order now)
        >> publish_order paper_order_updated o.client_order_id

  unfoldable pub poll_pending :
      Pending F → PaperOrder F → ℕ → Action (PaperExecutor F R) (List (FillEvent F))
  poll_pending p o now =
      if p.force_unknown
      then on_oms (mark_unknown o.client_order_id "simulated venue timeout" now)
        >> publish_order paper_order_updated o.client_order_id
        >> pure []
      else if ltb now p.ack_at
      then pure []
      else arrive o now >> work_on p o.client_order_id now

  -- The body of the loop of `poll`.
  unfoldable pub poll_order : PaperOrder F → ℕ → Action (PaperExecutor F R) (List (FillEvent F))
  poll_order o now x =
      if is_terminal o || is_status o.status unknown
      then (ok [], x)
      else elim (lookup o.client_order_id x.pending) [
        | none ↦ (ok [], x)
        | some p ↦ poll_pending p o now x
      ]

  unfoldable pub poll_one : String → ℕ → Action (PaperExecutor F R) (List (FillEvent F))
  poll_one id now x = elim (lookup id x.oms.orders) [
    | none ↦ (ok [], x)
    | some o ↦ poll_order o now x
  ]

  unfoldable pub poll_each : List String → ℕ → Action (PaperExecutor F R) (List (FillEvent F))
  poll_each [] now = pure []
  poll_each (id ∷ ids) now =
      poll_one id now >>= λ fills. poll_each ids now >>= λ more. pure (fills ++ more)

  -- `poll`
  unfoldable pub poll : ℕ → Action (PaperExecutor F R) (List (FillEvent F))
  poll now x = poll_each (map (λ o. o.client_order_id) (values x.oms.orders)) now x
