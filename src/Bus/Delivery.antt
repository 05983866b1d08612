-- ===== src/Bus/Delivery.antt =====
-- What publishing and delivering an event do to the log of published events (core/bus/memory.py).
use octopush.Prelude.{
  ◌≡◌, refl, sym, ◌∙◌, subst, none, List, [], ◌∷◌, ◌++◌, append-nil, inl, inr, Bool-cases,
}
use octopush.Prelude.Action.{Result, ok, raised, bind-ok_at}
use octopush.Events.{Event}
use octopush.Bus.{
  Subscription, wants, stamped, run_middleware, publish, publish_all, call, attempt, accepted,
  deliver, concluded,
}
use octopush.Bus.Trace.{
  Trace, Handlers, watched, route, routes, due, due-split, Floor, grown, IsRecorded,
}

module _ {P H W : Type 0} where
  -- From `a` to `b` events were published, and `calls` were made.
  pub record Grew (a b : Floor P H W) (calls : List (H × Event P)) : Type 0 where
    pub news : List (Event P)
    pub queued : b.0.queue ≡ a.0.queue ++ news
    pub noted : b.1.recorded ≡ a.1.recorded ++ news
    pub called : b.1.deliveries ≡ a.1.deliveries ++ calls
    pub same_subs : b.0.subs ≡ a.0.subs
    pub kept : IsRecorded b

  pub Grew-none : (a : Floor P H W) → IsRecorded a → Grew a a []
  Grew-none a k = record {
    news = [];
    queued = sym (append-nil _);
    noted = sym (append-nil _);
    called = sym (append-nil _);
    same_subs = refl;
    kept = k;
  }

  Grew-then :
      (a b c : Floor P H W) (xs ys : List (H × Event P))
      → Grew a b xs
      → Grew b c ys
      → Grew a c (xs ++ ys)
  Grew-then a b c xs ys g h = record {
    news = g.news ++ h.news;
    queued = grown a.0.queue b.0.queue c.0.queue g.news h.news g.queued h.queued;
    noted = grown a.1.recorded b.1.recorded c.1.recorded g.news h.news g.noted h.noted;
    called = grown a.1.deliveries b.1.deliveries c.1.deliveries xs ys g.called h.called;
    same_subs = h.same_subs ∙ g.same_subs;
    kept = h.kept;
  }

module _ {P H W : Type 0} ⦃hs : Handlers P H W⦄ where
  -- The recorder does not raise, so that a publication is queued.
  pub publish-Grew :
      (e : Event P) (a : Floor P H W)
      → IsRecorded a
      → ((publish e a).0 ≡ ok tt) × Grew a (publish e a).1 []
  unfolding publish run_middleware accepted
  publish-Grew e (b, t) (m, q) = rw m (
    refl,
    record {
      news = stamped e b ∷ [];
      queued = refl;
      noted = refl;
      called = sym (append-nil _);
      same_subs = refl;
      kept = (refl, q);
    },
  )

  -- What a call that returned and made some calls has done.
  abbrev Passed : Floor P H W → List (H × Event P) → Result (Unit {0}) × Floor P H W → Type 0
  Passed a calls x = (x.0 ≡ ok tt) × Grew a x.1 calls

  publish_all-Passed :
      (es : List (Event P)) (a : Floor P H W) → IsRecorded a → Passed a [] (publish_all es a)
  unfolding publish_all
  publish_all-Passed [] a k = (refl, Grew-none a k)
  publish_all-Passed (e ∷ es) a k =
      let (fine, g) = publish-Grew e a k in
      let (fine', h) = publish_all-Passed es (publish e a).1 g.kept in
      subst (Passed a []) (sym (bind-ok_at (publish e) (λ _. publish_all es) a fine))
        (fine', Grew-then a (publish e a).1 (publish_all es (publish e a).1).1 [] [] g h)

  call-Grew :
      (h : H) (e : Event P) (a : Floor P H W) → IsRecorded a → Grew a (call h e a).1 ((h, e) ∷ [])
  unfolding call
  call-Grew h e (b, t) k =
      let x = hs.run h e t.world in
      let t' : Trace P H W = record t { world = x.2; deliveries = t.deliveries ++ (h, e) ∷ [] } in
      let (fine, g) = publish_all-Passed x.1 (b, t') k in
      subst (λ r. Grew (b, t) r.1 ((h, e) ∷ []))
        (sym (bind-ok_at (publish_all x.1) (λ _ st. (x.0, st)) (b, t') fine))
        (record {
          news = g.news;
          queued = g.queued;
          noted = g.noted;
          called = g.called ∙ append-nil _;
          same_subs = g.same_subs;
          kept = g.kept;
        })

  -- How a handler ended does not matter to what is due.
  concluded-Grew :
      (s : Subscription H) (a b : Floor P H W) (r : Result (Unit {0})) (calls : List (H × Event P))
      → Grew a b calls
      → let (stopped, s', b') = concluded s (r, b) in
        (stopped ≡ none) × (route s' ≡ route s) × Grew a b' calls
  unfolding concluded
  concluded-Grew s a b (ok _) calls g = (
    refl,
    refl,
    record {
      news = g.news;
      queued = g.queued;
      noted = g.noted;
      called = g.called;
      same_subs = g.same_subs;
      kept = g.kept;
    },
  )
  concluded-Grew s a b (raised x) calls g = (rw g.kept.1 refl, refl, g)

  -- One subscription: no exception leaves it, it is called when it wants the event, and its route
  -- stays.
  attempt-Grew :
      (e : Event P) (s : Subscription H) (a : Floor P H W)
      → IsRecorded a
      → let (stopped, s', b) = attempt e s a in
        (stopped ≡ none) × (route s' ≡ route s) × Grew a b (due e (route s ∷ []))
  unfolding attempt
  attempt-Grew e s a k = elim (Bool-cases (wants e s)) [
    | inr other ↦ rw other (refl, refl, Grew-none a k)
    | inl wanted ↦ rw wanted (
        concluded-Grew s a (call s.handler e a).1 (call s.handler e a).0 ((s.handler, e) ∷ [])
          (call-Grew s.handler e a k))
  ]

  -- What a delivery that let no exception out has done.
  abbrev pub Delivered :
      Floor P H W
      → Event P
      → List (Subscription H)
      → Result (Unit {0}) × List (Subscription H) × Floor P H W
      → Type 0
  Delivered a e ss x = (x.0 ≡ ok tt) × (routes x.1 ≡ routes ss) × Grew a x.2 (due e (routes ss))

  pub deliver-Delivered :
      (e : Event P) (ss : List (Subscription H)) (a : Floor P H W)
      → IsRecorded a
      → Delivered a e ss (deliver e ss a)
  unfolding deliver
  deliver-Delivered e [] a k = (refl, refl, Grew-none a k)
  deliver-Delivered e (s ∷ ss) a k =
      let (through, same, g) = attempt-Grew e s a k in
      let (fine, same', h) = deliver-Delivered e ss (attempt e s a).2 g.kept in
      rw (through, deliver)
        (
          fine,
          λ i. same i ∷ same' i,
          subst (Grew a (deliver e ss (attempt e s a).2).2) (due-split e (route s) (routes ss))
              (Grew-then a (attempt e s a).2 (deliver e ss (attempt e s a).2).2 _ _ g h),
        )
