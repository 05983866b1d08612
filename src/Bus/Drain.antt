-- ===== src/Bus/Drain.antt =====
-- `drain` of core/bus/memory.py comes to an end: how many cycles a cascade of events takes.
use octopush.Prelude.{
  ℕ, zero, suc, ◌+◌, ◌≤◌, ◌<◌, ◌≡◌, refl, sym, subst, true, false, Option, List, [], ◌∷◌, inl, inr,
  List-cases, arith,
}
use octopush.Prelude.Action.{Result, ok, ◌>>◌, bind-ok_at}
use octopush.Events.{Event, EventType}
use octopush.Bus.{InMemoryEventBus, Components, dispatch, dispatch_one, drain}
use octopush.Bus.Trace.{routes}
use octopush.Bus.Cascade.{weight, shares, deliver-Delivered}

-- Each event costs a cycle for itself and those that its handlers' publications may cause.
abbrev pub Pays :
    {H : Type 0}
    → (EventType → ℕ)
    → (H → EventType → ℕ)
    → List (Option (List EventType) × H)
    → Type 0
Pays cost share rs = (t : EventType) → shares share t rs < cost t

no_room :
    {P H : Type 0} (cost : EventType → ℕ) (share : H → EventType → ℕ)
    (rs : List (Option (List EventType) × H)) (es : List (Event P))
    → Pays cost share rs
    → weight cost es ≤ 0
    → es ≡ []
no_room cost share rs [] pays h = refl
no_room cost share rs (e ∷ es) pays h = ground (arith, pays e.type)

-- How a drain should end.
abbrev pub Drained : {P H M W : Type 0} → Result (Unit {0}) × (InMemoryEventBus P H M × W) → Type 0
Drained x = (x.0 ≡ ok tt) × (x.1.0.queue ≡ []) × (x.1.0.idle ≡ true)

module _ {P H M W : Type 0} ⦃c : Components P H M W⦄ (cost : EventType → ℕ)
    (share : H → EventType → ℕ)
    (bounded : (h : H) (e : Event P) (w : W)
      → weight cost (c.handle h e w).1 ≤ share h e.type) where
  one_cycle :
      (left : ℕ) (b : InMemoryEventBus P H M) (w : W) (e : Event P) (waiting : List (Event P))
      → b.raise_on_handler_error ≡ false
      → Pays cost share (routes b.subs)
      → cost e.type + weight cost waiting ≤ suc left
      → ((b : InMemoryEventBus P H M) (w : W)
          → b.raise_on_handler_error ≡ false
          → Pays cost share (routes b.subs)
          → weight cost b.queue ≤ left
          → Drained (drain left (b, w)))
      → Drained ((dispatch e waiting >> drain left) (b, w))
  one_cycle left b w e waiting k pays h again =
      let b' = record b { queue = waiting } in
      let (fine, same, g) = deliver-Delivered cost share bounded e b.subs (b', w) k in
      subst Drained (sym (bind-ok_at (dispatch e waiting) (λ _. drain left) (b, w) fine)) (
        again (dispatch e waiting (b, w)).1.0 (dispatch e waiting (b, w)).1.1 g.tolerant
          (subst (Pays cost share) (sym same) pays) (omega (arith, g.heavier, pays e.type)))

  -- When failures of handlers are isolated, and by some bound on what each handler publishes for
  -- an event of a type, every event pays for itself and for what it may cause, then a drain that is
  -- allowed as many cycles as the queued events cost returns, with an empty queue and the bus marked
  -- idle; whatever handlers do to the world, and whether or not they or the middleware raise.
  pub drain-Drained :
      (left : ℕ) (b : InMemoryEventBus P H M) (w : W)
      → b.raise_on_handler_error ≡ false
      → Pays cost share (routes b.subs)
      → weight cost b.queue ≤ left
      → Drained (drain left (b, w))
  unfolding drain dispatch_one
  drain-Drained zero b w k pays h =
      rw (no_room cost share (routes b.subs) b.queue pays h) (refl, refl, refl)
  drain-Drained (suc left) b w k pays h = elim (List-cases b.queue) [
    | inl none_left ↦ rw none_left (refl, refl, refl)
    | inr (e, waiting, q) ↦
        rw q (one_cycle left b w e waiting k pays (rw q at h) (λ b w. drain-Drained left b w))
  ]
