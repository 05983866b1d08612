-- ===== src/Execution/Mirror/Fills.antt =====
-- `_record_fill` of execution/paper/executor.py, over the `apply_fill` of the order manager and of the
-- account.
use octopush.Prelude.{
  ℕ, ◌+◌, ◌≡◌, refl, sym, ap, ◌∙◌, subst, Bool, true, false, inl, inr, arith, if◌then◌else◌, not,
  ◌++◌, ◌∷◌, [],
}
use octopush.Prelude.Float.{Float}
use octopush.Prelude.Action.{
  Action, Result, ok, raised, Result-cases, bind-ok_at, bind-raised, ◌>>◌, pure, modify,
  pure-outcome, returning,
}
use octopush.Order.{FillEvent}
use octopush.Dedupe.{seen, admit}
use octopush.Oms.{OrderManager, on_order, settle, accept_fill, qty_epsilon}
use octopush.Oms
use octopush.Oms.Orders
use octopush.Account.{
  PaperAccount, finish, admitted, booked, fill_position, position_of, roll_day, day_ms,
}
use octopush.Account
use octopush.Position.{PositionState}
use octopush.Events.{paper_order_updated, paper_fill}
use octopush.Execution.Simulator.{Draws}
use octopush.Execution.Venue.{PaperExecutor, on_oms, on_account, publish_order, fill_posted}
use octopush.Execution.Polling.{record_fill}
use octopush.Execution.Mirror.{
  IsMirrored, Keeps, Ends, bind-Ends, publish_order-Keeps, on_order-Still,
}

module _ {F : Type 0} ⦃fl : Float F⦄ where
  -- What a fill that the order manager took has done to it.
  pub record IsTaken (f : FillEvent F) (m m' : OrderManager F) : Type 0 where
    pub new : seen f.fill_id m.window ≡ false
    pub window : m'.window ≡ admit f.fill_id m.window
    pub count : m'.fills_applied ≡ m.fills_applied + 1

  -- The order manager answers True to a fill that it took, and False to a duplicate.
  abbrev Answered : FillEvent F → OrderManager F → Result Bool × OrderManager F → Type 0
  Answered f m out =
      (b : Bool)
      → out.0 ≡ ok b
      → (if b
          then IsTaken f m out.1
          else (out.1.window ≡ m.window) × (out.1.fills_applied ≡ m.fills_applied))

  answered :
      (f : FillEvent F) (m m' : OrderManager F) (r : Result (Unit {0}))
      → IsTaken f m m'
      → Answered f m (returning true r, m')
  answered f m m' (ok u) t true e = t
  answered f m m' (ok u) t false e = cc
  answered f m m' (raised x) t b e = cc

  accept_fill-Answered :
      (f : FillEvent F) (now : ℕ) (m : OrderManager F)
      → seen f.fill_id m.window ≡ false
      → Answered f m (accept_fill f now m)
  unfolding accept_fill
  accept_fill-Answered f now m new =
      let settled = on_order {F = F} f.client_order_id (settle f now) in
      let start = record m {
        window = admit f.fill_id m.window;
        fills_applied = m.fills_applied + 1;
      } in
      let (window, count) = on_order-Still f.client_order_id (settle f now) start in
      subst (Answered f m) (sym (pure-outcome settled true start)) (
        answered f m (settled start).1 (settled start).0
          (record { new = new; window = window; count = count }))

  apply_fill-Answered :
      (f : FillEvent F) (now : ℕ) (m : OrderManager F) → Answered f m (Oms.apply_fill f now m)
  apply_fill-Answered f now m =
      Orders.apply_fill_cases (Answered f m) f now m (λ _. duplicate) (λ _ _ b e. cc)
        (λ _ _ _ _ b e. cc) (λ o new _ _. accept_fill-Answered f now m new)
    where
      duplicate : Answered f m (ok false, record m { duplicate_fills = m.duplicate_fills + 1 })
      duplicate true e = cc
      duplicate false e = (refl, refl)

  -- What a fill that the account took has done to it.
  abbrev IsBooked : FillEvent F → PaperAccount F → PaperAccount F → Type 0
  IsBooked f a a' =
      (a'.window ≡ admit f.fill_id a.window) × (a'.fills_applied ≡ a.fills_applied + 1)

  roll_day_lem :
      (now : ℕ) (a : PaperAccount F)
      → ((roll_day now a).window ≡ a.window) × ((roll_day now a).fills_applied ≡ a.fills_applied)
  unfolding roll_day
  roll_day_lem now a = ground arith

  finish-IsBooked :
      (f : FillEvent F) (a : PaperAccount F) (r : Result F) (p : PositionState F) (b : Bool)
      → (finish f (r, p) (admitted f a)).0 ≡ ok b
      → IsBooked f a (finish f (r, p) (admitted f a)).1
  unfolding finish booked admitted
  finish-IsBooked f a (ok realized) p b e = roll_day_lem f.created_at _
  finish-IsBooked f a (raised x) p b e = cc

  -- An account that takes a new fill and raises nothing books it.
  apply_fill-IsBooked :
      (f : FillEvent F) (a : PaperAccount F) (b : Bool)
      → seen f.fill_id a.window ≡ false
      → (Account.apply_fill f a).0 ≡ ok b
      → IsBooked f a (Account.apply_fill f a).1
  unfolding Account.apply_fill
  apply_fill-IsBooked f a b new e =
      let moved = fill_position f (position_of f a.positions) in
      let same : Account.apply_fill f a ≡ finish f moved (admitted f a) = rw new refl in
      subst (λ r. IsBooked f a r.1) (sym same)
        (finish-IsBooked f a moved.0 moved.1 b (ap (λ r. r.0) (sym same) ∙ e))

module _ {F R : Type 0} ⦃fl : Float F⦄ where
  abbrev post_fill : FillEvent F → Action (PaperExecutor F R) (Unit {0})
  post_fill f =
      modify (λ x. record x { published = x.published ++ (paper_fill, fill_posted f) ∷ [] })

  -- What `_record_fill` does with a fill that the order manager took.
  abbrev book_new : FillEvent F → Action (PaperExecutor F R) (Unit {0})
  book_new f =
      on_account (Account.apply_fill f)
      >> post_fill f
      >> publish_order paper_order_updated f.client_order_id

  book_new-Ends :
      (f : FillEvent F) (x : PaperExecutor F R) (m : OrderManager F)
      → IsMirrored x
      → IsTaken f x.oms m
      → Ends (book_new f (record x { oms = m }))
  book_new-Ends f x m v t =
      bind-Ends (on_account (Account.apply_fill f) >> post_fill f)
        (λ _. publish_order paper_order_updated f.client_order_id) (record x { oms = m })
        (bind-Ends (on_account (Account.apply_fill f)) (λ _. post_fill f) (record x { oms = m })
          both (λ _ y w _ e. record { windows = w.windows; counts = w.counts }))
        (λ _. publish_order-Keeps paper_order_updated f.client_order_id)
    where
      both : Ends (on_account (Account.apply_fill f) (record x { oms = m }))
      both b e =
          let new = ap (seen f.fill_id) (sym v.windows) ∙ t.new in
          let (window, count) = apply_fill-IsBooked f x.account b new e in
          record {
            windows = t.window ∙ ap (admit f.fill_id) v.windows ∙ sym window;
            counts = t.count ∙ ap (λ n. n + 1) v.counts ∙ sym count;
          }

  answered-Ends :
      (f : FillEvent F) (x : PaperExecutor F R) (out : Result Bool × OrderManager F) (fresh : Bool)
      → IsMirrored x
      → out.0 ≡ ok fresh
      → Answered f x.oms out
      → Ends ((if not fresh then pure tt else book_new f) (record x { oms = out.1 }))
  answered-Ends f x out true v fine t a e = book_new-Ends f x out.1 v (t true fine) a e
  answered-Ends f x out false v fine t a e =
      let (window, count) = t false fine in
      record { windows = window ∙ v.windows; counts = count ∙ v.counts }

module _ {F R : Type 0} ⦃fl : Float F⦄ ⦃dr : Draws F R⦄ where
  pub record_fill-Keeps : (f : FillEvent F) (now : ℕ) → Keeps {F = F} {R = R} (record_fill f now)
  unfolding record_fill
  record_fill-Keeps f now x v b e = elim (Result-cases (Oms.apply_fill f now x.oms).0) [
    | inl (fresh, fine) ↦
        let same =
          bind-ok_at (on_oms (Oms.apply_fill f now)) (λ n. if not n then pure tt else book_new f) x
            fine in
        subst (λ r. IsMirrored r.1) (sym same)
          (answered-Ends f x (Oms.apply_fill f now x.oms) fresh v fine
            (apply_fill-Answered f now x.oms) b (ap (λ r. r.0) (sym same) ∙ e))
    | inr (bad, failed) ↦
        let same =
          ap (λ r. r.0)
            (bind-raised (on_oms (Oms.apply_fill f now))
              (λ n. if not n then pure tt else book_new f)
              (λ i. (failed i, (on_oms (Oms.apply_fill f now) x).1))) in
        cc
  ]
