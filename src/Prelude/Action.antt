-- ===== src/Prelude/Action.antt =====
-- A method of a mutable object: it ends with a value or an exception, and the state that the object
-- is in then. What was written before an exception stays written.
use octopush.Prelude.{◌≡◌, ◌⊎◌, inl, inr, refl, ap, Bool, Option, none, some, if◌then◌else◌}

-- The exceptions of the modelled code; texts of messages are left out.
pub data Error : Type 0 where
  key_error value_error illegal_transition illegal_strategy_transition validation_error desync_error
        index_error runtime_error :
      Error

pub data Result {ℓ} (A : Type ℓ) : Type ℓ where
  ok : A → Result A
  raised : Error → Result A

abbrev pub Action : Type 0 → Type 0 → Type 0
Action S A = S → Result A × S

module _ {S A : Type 0} where
  abbrev pub pure : A → Action S A
  pure a s = (ok a, s)

  abbrev pub raise : Error → Action S A
  raise e s = (raised e, s)

infixl 5 ◌>>=◌ ◌>>◌
abbrev pub ◌>>=◌ : {S A B : Type 0} → Action S A → (A → Action S B) → Action S B
◌>>=◌ m f s = let (r, s') = m s in elim r [ ok a ↦ f a s' | raised e ↦ (raised e, s') ]

abbrev pub ◌>>◌ : {S A B : Type 0} → Action S A → Action S B → Action S B
m >> k = m >>= λ _. k

abbrev pub gets : {S A : Type 0} → (S → A) → Action S A
gets f s = (ok (f s), s)

abbrev pub modify : {S : Type 0} → (S → S) → Action S (Unit {0})
modify f s = (ok tt, f s)

abbrev pub raise_if : {S : Type 0} → Bool → Error → Action S (Unit {0})
raise_if b e s = (if b then raised e else ok tt, s)

abbrev pub or_raise : {S A : Type 0} → Option A → Error → Action S A
or_raise none e s = (raised e, s)
or_raise (some a) e s = (ok a, s)

then-state :
    {S A B : Type 0} (r : Result A) (s : S) (b : B) → (((λ (t : S). (r, s)) >> pure b) s).1 ≡ s
then-state (ok a) s b = refl
then-state (raised e) s b = refl

-- A value returned at the end leaves the state that was reached.
pub pure-state : {S A B : Type 0} (m : Action S A) (b : B) (s : S) → ((m >> pure b) s).1 ≡ (m s).1
pure-state m b s = then-state (m s).0 (m s).1 b

pub bind-ok :
    {S A B : Type 0} (m : Action S A) (f : A → Action S B) {a : A} {s s' : S}
    → m s ≡ (ok a, s')
    → (m >>= f) s ≡ f a s'
bind-ok {S} {A} {B} m f e =
    ap
      (λ (r : Result A × S).
        let b : Result B × S = elim r.0 [ ok a ↦ f a r.1 | raised x ↦ (raised x, r.1) ] in b)
      e

-- The same, where only the result of the first part is known.
pub bind-ok_at :
    {S A B : Type 0} (m : Action S A) (f : A → Action S B) {a : A} (s : S)
    → (m s).0 ≡ ok a
    → (m >>= f) s ≡ f a (m s).1
bind-ok_at m f s e = bind-ok m f (λ i. (e i, (m s).1))

pub bind-raised :
    {S A B : Type 0} (m : Action S A) (f : A → Action S B) {x : Error} {s s' : S}
    → m s ≡ (raised x, s')
    → (m >>= f) s ≡ (raised x, s')
bind-raised {S} {A} {B} m f e =
    ap
      (λ (r : Result A × S).
        let b : Result B × S = elim r.0 [ ok a ↦ f a r.1 | raised x ↦ (raised x, r.1) ] in b)
      e

pub Result-cases :
    {A : Type 0} (r : Result A) → ((a : A) × (r ≡ ok a)) ⊎ ((e : Error) × (r ≡ raised e))
Result-cases (ok a) = inl (a, refl)
Result-cases (raised e) = inr (e, refl)

-- The result of an action that ends by returning `b`.
abbrev pub returning : {A B : Type 0} → B → Result A → Result B
returning b (ok a) = ok b
returning b (raised e) = raised e

then-outcome :
    {S A B : Type 0} (r : Result A) (s : S) (b : B)
    → ((λ (t : S). (r, s)) >> pure b) s ≡ (returning b r, s)
then-outcome (ok a) s b = refl
then-outcome (raised e) s b = refl

pub pure-outcome :
    {S A B : Type 0} (m : Action S A) (b : B) (s : S)
    → (m >> pure b) s ≡ (returning b (m s).0, (m s).1)
pure-outcome m b s = then-outcome (m s).0 (m s).1 b

-- A chain of computations that may raise, with no state.
abbrev pub and_then : {A B : Type 0} → Result A → (A → Result B) → Result B
and_then (ok a) k = k a
and_then (raised e) k = raised e

pub and_then_assoc :
    {A B C : Type 0} (r : Result A) (k : A → Result C) (h : A → Result B) (g : B → Result C)
    → ((a : A) → k a ≡ and_then (h a) g)
    → and_then r k ≡ and_then (and_then r h) g
and_then_assoc (ok a) k h g e = e a
and_then_assoc (raised x) k h g e = refl

pub and_then-eq-ok :
    {A B : Type 0} (r : Result A) (k : A → Result B) {b : B}
    → and_then r k ≡ ok b
    → (a : A) × (r ≡ ok a) × (k a ≡ ok b)
and_then-eq-ok (ok a) k e = (a, refl, e)
and_then-eq-ok (raised x) k e = cc

pub ok_injective : {A : Type 0} {a b : A} → ok a ≡ ok b → a ≡ b
ok_injective e = cc
