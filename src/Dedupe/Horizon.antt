-- ===== src/Dedupe/Horizon.antt =====
-- What the duplicate window remembers and what it forgets.
use octopush.Prelude.{
  ℕ, zero, suc, ◌+◌, ◌-◌, ◌≤◌, ◌<◌, String, ◌≡◌, refl, sym, ap, ◌∙◌, true, false, ◌||◌, List, [],
  ◌∷◌, ◌++◌, length, length-append, length-drop, drop, contains, eq_iff, eq_refl, arith,
  append_assoc, subst, inl, inr, Bool-cases, if◌then◌else◌,
}
use octopush.Dedupe.{Window, empty, discard_oldest, trim_dedupe, seen, admit}

-- No id is listed twice.
abbrev pub NoRepeats : List String → Type 0
NoRepeats [] = Unit
NoRepeats (id ∷ ids) = (contains id ids ≡ false) × NoRepeats ids

pub contains-append :
    (k : String) (xs ys : List String) → contains k (xs ++ ys) ≡ (contains k xs || contains k ys)
contains-append k [] ys = refl
contains-append k (x ∷ xs) ys = ground (arith, contains-append k xs ys)

pub NoRepeats-snoc :
    (xs : List String) (k : String)
    → NoRepeats xs
    → contains k xs ≡ false
    → NoRepeats (xs ++ k ∷ [])
NoRepeats-snoc [] k d h = (refl, tt)
NoRepeats-snoc (x ∷ xs) k d h = (
  ground (arith, contains-append x xs (k ∷ []), eq_iff x k, eq_iff k x),
  NoRepeats-snoc xs k d.1 (ground arith),
)

pub NoRepeats-drop : (n : ℕ) (xs : List String) → NoRepeats xs → NoRepeats (drop n xs)
NoRepeats-drop zero xs d = d
NoRepeats-drop (suc n) [] d = tt
NoRepeats-drop (suc n) (x ∷ xs) d = NoRepeats-drop n xs d.1

discard_oldest-drop :
    (n : ℕ) (ids : List String) → discard_oldest n ids ids ≡ (drop n ids, drop n ids)
unfolding discard_oldest
discard_oldest-drop zero ids = refl
discard_oldest-drop (suc n) [] = refl
discard_oldest-drop (suc n) (id ∷ ids) = rw (eq_refl id) (discard_oldest-drop n ids)

-- The set holds the ids of the arrival order, each once and at most `retained` of them.
pub record IsWindow (w : Window) : Type 0 where
  pub synced : w.applied ≡ w.dedupe_order
  pub distinct : NoRepeats w.dedupe_order
  pub bounded : length w.dedupe_order ≤ w.retained

-- The newest `n` ids.
unfoldable pub recent : ℕ → List String → List String
recent n ids = drop (length ids - n) ids

abbrev pub window : ℕ → List String → Window
window n ids = record { applied = ids; dedupe_order = ids; retained = n }

pub admit-window :
    (id : String) (n : ℕ) (ids : List String)
    → contains id ids ≡ false
    → admit id (window n ids) ≡ window n (recent n (ids ++ id ∷ []))
unfolding admit trim_dedupe recent
admit-window id n ids new =
    rw new (rw (discard_oldest-drop (length (ids ++ id ∷ []) - n) (ids ++ id ∷ [])) refl)

window-eq : (w : Window) → IsWindow w → w ≡ window w.retained w.dedupe_order
window-eq w v =
    λ i. record { applied = v.synced i; dedupe_order = w.dedupe_order; retained = w.retained }

window-IsWindow : (n : ℕ) (ids : List String) → NoRepeats ids → IsWindow (window n (recent n ids))
unfolding recent
window-IsWindow n ids d = record {
  synced = refl;
  distinct = NoRepeats-drop (length ids - n) ids d;
  bounded = omega (arith, length-drop (length ids - n) ids);
}

-- Admitting a new id keeps set and arrival order in step, free of repetitions and within the
-- window's size; what the window then holds is the newest `retained` ids.
pub admit-IsWindow :
    (id : String) (w : Window)
    → IsWindow w
    → seen id w ≡ false
    → IsWindow (admit id w)
      × (admit id w ≡ window w.retained (recent w.retained (w.dedupe_order ++ id ∷ [])))
unfolding seen
admit-IsWindow id w v new =
    let e = ap (admit id) (window-eq w v) ∙ admit-window id w.retained w.dedupe_order fresh in
    (
      subst IsWindow (sym e) (window-IsWindow w.retained _ (NoRepeats-snoc _ id v.distinct fresh)),
      e,
    )
  where
    fresh : contains id w.dedupe_order ≡ false
    fresh = subst (λ ids. contains id ids ≡ false) v.synced new

-- A fill that is delivered again is offered with an id that may have been seen.
unfoldable pub offer : Window → String → Window
offer w id = if seen id w then w else admit id w

pub offer-IsWindow : (w : Window) (id : String) → IsWindow w → IsWindow (offer w id)
unfolding offer
offer-IsWindow w id v = elim (Bool-cases (seen id w)) [
  | inl old ↦ rw old v
  | inr new ↦ rw new (admit-IsWindow id w v new).0
]

unfoldable pub offers : Window → List String → Window
offers w [] = w
offers w (id ∷ ids) = offers (offer w id) ids

pub drop-append :
    (n : ℕ) (xs ys : List String) → n ≤ length xs → drop n (xs ++ ys) ≡ drop n xs ++ ys
drop-append zero xs ys h = refl
drop-append (suc n) [] ys h = absurd (omega arith)
drop-append (suc n) (x ∷ xs) ys h = drop-append n xs ys (omega arith)

-- `id` is in the window with at most `k` ids behind it.
record Within (id : String) (k : ℕ) (w : Window) : Type 0 where
  older : List String
  newer : List String
  split : w.dedupe_order ≡ older ++ id ∷ newer
  near : length newer ≤ k

Within-seen : (id : String) (k : ℕ) (w : Window) → IsWindow w → Within id k w → seen id w ≡ true
unfolding seen
Within-seen id k w v r =
    rw (v.synced, r.split) (ground (arith, contains-append id r.older (id ∷ r.newer), eq_refl id))

recent-Within :
    (id x : String) (n : ℕ) (older newer : List String)
    → suc (length newer) < n
    → recent n ((older ++ id ∷ newer) ++ x ∷ [])
      ≡ drop (length ((older ++ id ∷ newer) ++ x ∷ []) - n) older ++ id ∷ (newer ++ x ∷ [])
unfolding recent
recent-Within id x n older newer h = rw (append_assoc older (id ∷ newer) (x ∷ [])) (
    drop-append _ older (id ∷ newer ++ x ∷ [])
      (omega (arith, length-append older (id ∷ newer ++ x ∷ []), length-append newer (x ∷ []))))

offer-Within :
    (id x : String) (k : ℕ) (w : Window)
    → IsWindow w
    → Within id k w
    → suc k < w.retained
    → Within id (suc k) (offer w x)
unfolding offer
offer-Within id x k w v r h = elim (Bool-cases (seen x w)) [
  | inl old ↦
      rw old (record { older = r.older; newer = r.newer; split = r.split; near = omega arith })
  | inr new ↦
      rw (new, (admit-IsWindow x w v new).1)
        (record {
          older = drop (length ((r.older ++ id ∷ r.newer) ++ x ∷ []) - w.retained) r.older;
          newer = r.newer ++ x ∷ [];
          split =
              ap (λ l. recent w.retained (l ++ x ∷ [])) r.split
              ∙ recent-Within id x w.retained r.older r.newer (omega (arith, r.near));
          near = omega (arith, length-append r.newer (x ∷ []), r.near);
        })
]

offer-retained : (w : Window) (id : String) → (offer w id).retained ≡ w.retained
unfolding offer admit trim_dedupe
offer-retained w id = ground arith

offers-seen :
    (ids : List String) (id : String) (k : ℕ) (w : Window)
    → IsWindow w
    → Within id k w
    → k + length ids < w.retained
    → seen id (offers w ids) ≡ true
unfolding offers
offers-seen [] id k w v r h = Within-seen id k w v r
offers-seen (x ∷ ids) id k w v r h =
    offers-seen ids id (suc k) (offer w x) (offer-IsWindow w x v)
      (offer-Within id x k w v r (omega arith)) (omega (arith, offer-retained w x))

admit-Within :
    (id : String) (w : Window)
    → IsWindow w
    → seen id w ≡ false
    → 0 < w.retained
    → Within id 0 (admit id w)
unfolding recent
admit-Within id w v new h = record {
  older = drop (length (w.dedupe_order ++ id ∷ []) - w.retained) w.dedupe_order;
  newer = [];
  split =
      ap (λ (u : Window). u.dedupe_order) (admit-IsWindow id w v new).1
      ∙ drop-append _ w.dedupe_order (id ∷ [])
          (omega (arith, length-append w.dedupe_order (id ∷ [])));
  near = omega arith;
}

-- An id that has been admitted is recognised again as long as fewer than `retained` ids, new or
-- repeated, have been offered after it.
pub seen-offers-admit :
    (ids : List String) (id : String) (w : Window)
    → IsWindow w
    → seen id w ≡ false
    → length ids < w.retained
    → seen id (offers (admit id w) ids) ≡ true
seen-offers-admit ids id w v new h =
    offers-seen ids id 0 (admit id w) (admit-IsWindow id w v new).0
      (admit-Within id w v new (omega arith)) (omega (arith, kept))
  where
    kept : (admit id w).retained ≡ w.retained
    kept = ap (λ (u : Window). u.retained) (admit-IsWindow id w v new).1

pub seen-admit :
    (id : String) (w : Window)
    → IsWindow w
    → seen id w ≡ false
    → 0 < w.retained
    → seen id (admit id w) ≡ true
unfolding offers
seen-admit id w v new h = seen-offers-admit [] id w v new h

pub empty-IsWindow : (n : ℕ) → IsWindow (empty n)
empty-IsWindow n = record { synced = refl; distinct = tt; bounded = omega arith }
