-- ===== src/Bus/Fifo.antt =====
-- The contract at the top of core/bus/base.py for the bus of core/bus/memory.py: one ordered log,
-- which each subscription reads in order, and handlers whose failures stay their own.
use octopush.Prelude.{
  ℕ, zero, suc, ◌≡◌, refl, sym, ap, ◌∙◌, subst, false, Option, List, [], ◌∷◌, ◌++◌, append_assoc,
  append-nil, inl, inr, List-cases,
}
use octopush.Prelude.Action.{Result, ok, ◌>>◌, raise, runtime_error, bind-ok_at}
use octopush.Events.{Event, EventType}
use octopush.Bus.{InMemoryEventBus, publish, dispatch, dispatch_one, drain, unless_empty}
use octopush.Bus.Trace.{
  Trace, Recorder, recorder, Handlers, watched, routes, due, schedule, schedule-append_one, Act,
  publishes, dispatches, starts, stops, drains, Floor, step, run, IsRecorded,
}
use octopush.Bus.Delivery.{deliver-Delivered, publish-Grew}

module _ {P H W : Type 0} ⦃hs : Handlers P H W⦄ where
  -- Of the log of everything that was published, `done` has been dispatched and the rest is queued,
  -- in order, and the calls are those that the dispatched events were due.
  pub record IsLogged (rs : List (Option (List EventType) × H)) (a : Floor P H W) : Type 0 where
    pub done : List (Event P)
    pub log : a.1.recorded ≡ done ++ a.0.queue
    pub calls : a.1.deliveries ≡ schedule rs done
    pub same : routes a.0.subs ≡ rs
    pub kept : IsRecorded a

  dispatch-IsLogged :
      (rs : List (Option (List EventType) × H)) (b : InMemoryEventBus P H Recorder)
      (t : Trace P H W) (e : Event P) (waiting : List (Event P))
      → IsLogged rs (b, t)
      → b.queue ≡ e ∷ waiting
      → IsLogged rs (dispatch e waiting (b, t)).1
  dispatch-IsLogged rs b t e waiting l q =
      let b' = record b { queue = waiting } in
      let (_, same, g) = deliver-Delivered e b.subs (b', t) l.kept in
      record {
        done = l.done ++ e ∷ [];
        log =
            g.noted
            ∙ ap (λ u. u ++ g.news) (l.log ∙ ap (◌++◌ l.done) q)
            ∙ append_assoc l.done (e ∷ waiting) g.news
            ∙ ap (λ u. l.done ++ e ∷ u) (sym g.queued)
            ∙ sym (append_assoc l.done (e ∷ []) _);
        calls =
            g.called
            ∙ ap (λ u. u ++ due e (routes b.subs)) l.calls
            ∙ ap (λ r. schedule rs l.done ++ due e r) l.same
            ∙ sym (schedule-append_one rs l.done e);
        same = same ∙ l.same;
        kept = g.kept;
      }

  dispatch_one-IsLogged :
      (rs : List (Option (List EventType) × H)) (a : Floor P H W)
      → IsLogged rs a
      → IsLogged rs (dispatch_one a).1
  unfolding dispatch_one
  dispatch_one-IsLogged rs (b, t) l = elim (List-cases b.queue) [
    | inl none_left ↦ rw none_left (record {
      done = l.done;
      log = l.log ∙ ap (◌++◌ l.done) none_left;
      calls = l.calls;
      same = l.same;
      kept = l.kept;
    })
    | inr (e, waiting, q) ↦ rw q (dispatch-IsLogged rs b t e waiting l q)
  ]

  dispatch-ok :
      (b : InMemoryEventBus P H Recorder) (t : Trace P H W) (e : Event P) (waiting : List (Event P))
      → IsRecorded (b, t)
      → (dispatch e waiting (b, t)).0 ≡ ok tt
  dispatch-ok b t e waiting k = (deliver-Delivered e b.subs (record b { queue = waiting }, t) k).0

  -- One cycle of `drain`, before whatever follows it.
  cycle-IsLogged :
      (rs : List (Option (List EventType) × H)) (a : Floor P H W)
      (next : Floor P H W → Result (Unit {0}) × Floor P H W)
      → ((b : Floor P H W) → IsLogged rs b → IsLogged rs (next b).1)
      → IsLogged rs a
      → IsLogged rs (unless_empty (dispatch_one >> next) a).1
  unfolding dispatch_one
  cycle-IsLogged rs (b, t) next keeps l = elim (List-cases b.queue) [
    | inl none_left ↦ rw none_left (record {
      done = l.done;
      log = l.log ∙ ap (◌++◌ l.done) none_left;
      calls = l.calls;
      same = l.same;
      kept = l.kept;
    })
    | inr (e, waiting, q) ↦ rw q (
        subst (λ r. IsLogged rs r.1)
          (sym
            (bind-ok_at (dispatch e waiting) (λ _. next) (b, t) (dispatch-ok b t e waiting l.kept)))
          (keeps _ (dispatch-IsLogged rs b t e waiting l q)))
  ]

  drain-IsLogged :
      (rs : List (Option (List EventType) × H)) (left : ℕ) (a : Floor P H W)
      → IsLogged rs a
      → IsLogged rs (drain left a).1
  unfolding drain
  drain-IsLogged rs zero a l = cycle-IsLogged rs a (raise runtime_error) (λ b k. k) l
  drain-IsLogged rs (suc left) a l =
      cycle-IsLogged rs a (drain left) (λ b k. drain-IsLogged rs left b k) l

  publish-IsLogged :
      (rs : List (Option (List EventType) × H)) (e : Event P) (a : Floor P H W)
      → IsLogged rs a
      → IsLogged rs (publish e a).1
  publish-IsLogged rs e a l =
      let (_, g) = publish-Grew e a l.kept in
      record {
        done = l.done;
        log =
            g.noted
            ∙ ap (λ u. u ++ g.news) l.log
            ∙ append_assoc l.done a.0.queue g.news
            ∙ ap (◌++◌ l.done) (sym g.queued);
        calls = g.called ∙ append-nil _ ∙ l.calls;
        same = ap routes g.same_subs ∙ l.same;
        kept = g.kept;
      }

  step-IsLogged :
      (rs : List (Option (List EventType) × H)) (act : Act P) (a : Floor P H W)
      → IsLogged rs a
      → IsLogged rs (step act a)
  unfolding step
  step-IsLogged rs (publishes e) a l = publish-IsLogged rs e a l
  step-IsLogged rs dispatches a l = dispatch_one-IsLogged rs a l
  step-IsLogged rs starts (b, t) l = record {
    done = l.done;
    log = l.log;
    calls = l.calls;
    same = l.same;
    kept = l.kept;
  }
  step-IsLogged rs stops (b, t) l = record {
    done = l.done;
    log = l.log;
    calls = l.calls;
    same = l.same;
    kept = l.kept;
  }
  step-IsLogged rs (drains left) a l = drain-IsLogged rs left a l

  run-step-IsLogged :
      (rs : List (Option (List EventType) × H)) (acts : List (Act P)) (a : Floor P H W)
      → IsLogged rs a
      → IsLogged rs (run acts a)
  unfolding run
  run-step-IsLogged rs [] a l = l
  run-step-IsLogged rs (act ∷ acts) a l =
      run-step-IsLogged rs acts (step act a) (step-IsLogged rs act a l)

  -- Whatever is published, dispatched and drained, and whenever the bus is started and stopped: a
  -- bus that starts with an empty queue, isolates failures and has a recorder for its middleware
  -- refines one log. What was published, by handlers too, is `done` followed by the queue, in order
  -- of publication, and the calls of handlers so far are exactly those that the events of `done` are
  -- due, event by event and in the order of registration, once each, whether or not handlers raise.
  pub run-IsLogged :
      (acts : List (Act P)) (b : InMemoryEventBus P H Recorder) (w : W)
      → b.queue ≡ []
      → b.middleware ≡ recorder ∷ []
      → b.raise_on_handler_error ≡ false
      → let a = run acts (b, record { world = w; recorded = []; deliveries = [] }) in
        (done : List (Event P)) × (a.1.recorded ≡ done ++ a.0.queue)
        × (a.1.deliveries ≡ schedule (routes b.subs) done)
  run-IsLogged acts b w q m k =
      let l =
        run-step-IsLogged (routes b.subs) acts _
          (record { done = []; log = sym q; calls = refl; same = refl; kept = (m, k) }) in
      (l.done, l.log, l.calls)
