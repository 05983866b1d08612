-- ===== src/Bus/Cascade.antt =====
-- How much a dispatch of core/bus/memory.py adds to the queue.
use octopush.Prelude.{
  ℕ, ◌+◌, ◌≤◌, ◌≡◌, refl, ◌∙◌, subst, false, Option, none, List, [], ◌∷◌, ◌++◌, inl, inr,
  Bool-cases, if◌then◌else◌, arith,
}
use octopush.Prelude.Action.{Result, ok, raised, ◌>>◌, Error}
use octopush.Events.{Event, EventType}
use octopush.Bus.{
  Subscription, InMemoryEventBus, Components, wants_type, wants, stamped, counted, run_middleware,
  publish, publish_all, call, attempt, accepted, concluded, deliver,
}
use octopush.Bus.Trace.{route, routes}

-- The cycles that the events of a list may cause, by their types.
abbrev pub weight : {P : Type 0} → (EventType → ℕ) → List (Event P) → ℕ
weight cost [] = 0
weight cost (e ∷ es) = cost e.type + weight cost es

pub weight-append :
    {P : Type 0} (cost : EventType → ℕ) (ds es : List (Event P))
    → weight cost (ds ++ es) ≡ weight cost ds + weight cost es
weight-append cost [] es = omega arith
weight-append cost (d ∷ ds) es = omega (arith, weight-append cost ds es)

-- What the handlers that are due an event of a type may publish, together.
abbrev pub shares :
    {H : Type 0} → (H → EventType → ℕ) → EventType → List (Option (List EventType) × H) → ℕ
shares share t [] = 0
shares share t ((types, h) ∷ rs) =
    let rest = shares share t rs in if wants_type t types then share h t + rest else rest

pub shares-split :
    {H : Type 0} (share : H → EventType → ℕ) (t : EventType) (r : Option (List EventType) × H)
    (rs : List (Option (List EventType) × H))
    → shares share t (r ∷ []) + shares share t rs ≡ shares share t (r ∷ rs)
shares-split share t (types, h) rs = ground arith

module _ {P H M W : Type 0} ⦃c : Components P H M W⦄ (cost : EventType → ℕ)
    (share : H → EventType → ℕ)
    (bounded : (h : H) (e : Event P) (w : W)
      → weight cost (c.handle h e w).1 ≤ share h e.type) where
  -- The queue has become heavier by `n` at most.
  pub record Grows (a b : InMemoryEventBus P H M × W) (n : ℕ) : Type 0 where
    pub heavier : weight cost b.0.queue ≤ weight cost a.0.queue + n
    pub same_subs : b.0.subs ≡ a.0.subs
    pub tolerant : b.0.raise_on_handler_error ≡ false

  Grows-then :
      (a b d : InMemoryEventBus P H M × W) (m n : ℕ) → Grows a b m → Grows b d n → Grows a d (m + n)
  Grows-then a b d m n g h = record {
    heavier = omega (arith, g.heavier, h.heavier);
    same_subs = h.same_subs ∙ g.same_subs;
    tolerant = h.tolerant;
  }

  Grows-le : (a b : InMemoryEventBus P H M × W) (m n : ℕ) → m ≤ n → Grows a b m → Grows a b n
  Grows-le a b m n h g = record {
    heavier = omega (arith, g.heavier);
    same_subs = g.same_subs;
    tolerant = g.tolerant;
  }

  Grows-accepted :
      (e : Event P) (b : InMemoryEventBus P H M) (w : W) (x : Result (Unit {0}) × W)
      → b.raise_on_handler_error ≡ false
      → Grows (b, w) (accepted (stamped e b) (counted e b) x).1 (cost e.type)
  unfolding accepted
  Grows-accepted e b w (ok _, w') k = record {
    heavier = omega (arith, weight-append cost b.queue (stamped e b ∷ []));
    same_subs = refl;
    tolerant = k;
  }
  Grows-accepted e b w (raised _, w') k = record {
    heavier = omega arith;
    same_subs = refl;
    tolerant = k;
  }

  then-Grows :
      (a b : InMemoryEventBus P H M × W) (r : Result (Unit {0})) (m n : ℕ)
      (next : InMemoryEventBus P H M × W → Result (Unit {0}) × (InMemoryEventBus P H M × W))
      → Grows a b m
      → Grows b (next b).1 n
      → Grows a (((λ st. (r, b)) >> next) a).1 (m + n)
  then-Grows a b (ok _) m n next g h = Grows-then a b (next b).1 m n g h
  then-Grows a b (raised _) m n next g h = Grows-le a b m (m + n) (omega arith) g

  publish_all-Grows :
      (es : List (Event P)) (a : InMemoryEventBus P H M × W)
      → a.0.raise_on_handler_error ≡ false
      → Grows a (publish_all es a).1 (weight cost es)
  unfolding publish_all publish
  publish_all-Grows [] a k = record { heavier = omega arith; same_subs = refl; tolerant = k }
  publish_all-Grows (e ∷ es) (b, w) k =
      let g = Grows-accepted e b w (run_middleware c.observe b.middleware (stamped e b) w) k in
      then-Grows (b, w) (publish e (b, w)).1 (publish e (b, w)).0 (cost e.type) (weight cost es)
        (publish_all es) g (publish_all-Grows es (publish e (b, w)).1 g.tolerant)

  call-Grows :
      (h : H) (e : Event P) (a : InMemoryEventBus P H M × W)
      → a.0.raise_on_handler_error ≡ false
      → Grows a (call h e a).1 (share h e.type)
  unfolding call
  call-Grows h e (b, w) k =
      let x = c.handle h e w in
      let g = publish_all-Grows x.1 (b, x.2) k in
      let y = publish_all x.1 (b, x.2) in
      Grows-le (b, w) (call h e (b, w)).1 (weight cost x.1 + 0) (share h e.type)
        (omega (arith, bounded h e w))
        (then-Grows (b, w) y.1 y.0 (weight cost x.1) 0 (λ st. (x.0, st))
          (record { heavier = g.heavier; same_subs = g.same_subs; tolerant = g.tolerant })
          (record { heavier = omega arith; same_subs = refl; tolerant = g.tolerant }))

  -- What one subscription adds, when no exception leaves it.
  abbrev Tried :
      InMemoryEventBus P H M × W
      → Subscription H
      → ℕ
      → Option Error × Subscription H × (InMemoryEventBus P H M × W)
      → Type 0
  Tried a s n x = (x.0 ≡ none) × (route x.1 ≡ route s) × Grows a x.2 n

  concluded-Tried :
      (s : Subscription H) (a b : InMemoryEventBus P H M × W) (r : Result (Unit {0})) (n : ℕ)
      → Grows a b n
      → Tried a s n (concluded s (r, b))
  unfolding concluded
  concluded-Tried s a b (ok _) n g =
      (refl, refl, record { heavier = g.heavier; same_subs = g.same_subs; tolerant = g.tolerant })
  concluded-Tried s a b (raised x) n g = (rw g.tolerant refl, refl, g)

  attempt-Tried :
      (e : Event P) (s : Subscription H) (a : InMemoryEventBus P H M × W)
      → a.0.raise_on_handler_error ≡ false
      → Tried a s (shares share e.type (route s ∷ [])) (attempt e s a)
  unfolding attempt
  attempt-Tried e s a k = elim (Bool-cases (wants e s)) [
    | inr other ↦
        rw other (refl, refl, record { heavier = omega arith; same_subs = refl; tolerant = k })
    | inl wanted ↦ rw wanted (
        concluded-Tried s a (call s.handler e a).1 (call s.handler e a).0
          (share s.handler e.type + 0)
          (Grows-le a _ (share s.handler e.type) _ (omega arith) (call-Grows s.handler e a k)))
  ]

  abbrev pub Delivered :
      InMemoryEventBus P H M × W
      → EventType
      → List (Subscription H)
      → Result (Unit {0}) × List (Subscription H) × (InMemoryEventBus P H M × W)
      → Type 0
  Delivered a t ss x =
      (x.0 ≡ ok tt) × (routes x.1 ≡ routes ss) × Grows a x.2 (shares share t (routes ss))

  pub deliver-Delivered :
      (e : Event P) (ss : List (Subscription H)) (a : InMemoryEventBus P H M × W)
      → a.0.raise_on_handler_error ≡ false
      → Delivered a e.type ss (deliver e ss a)
  unfolding deliver
  deliver-Delivered e [] a k =
      (refl, refl, record { heavier = omega arith; same_subs = refl; tolerant = k })
  deliver-Delivered e (s ∷ ss) a k =
      let (through, same, g) = attempt-Tried e s a k in
      let (fine, same', h) = deliver-Delivered e ss (attempt e s a).2 g.tolerant in
      rw (through, deliver)
        (
          fine,
          λ i. same i ∷ same' i,
          subst (Grows a (deliver e ss (attempt e s a).2).2)
              (shares-split share e.type (route s) (routes ss))
              (Grows-then a (attempt e s a).2 (deliver e ss (attempt e s a).2).2 _ _ g h),
        )
