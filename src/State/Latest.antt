-- ===== src/State/Latest.antt =====
-- Opinions arrive in any order (core/state/__init__.py).
use octopush.Prelude.{
  ℕ, ◌≤◌, ◌≡◌, refl, sym, ◌∙◌, subst, true, some, List, [], ◌∷◌, arith, ltb, str_eq, eq_iff,
  eq_refl, inl, inr, Bool-cases, Option-cases, All, if◌then◌else◌,
}
use octopush.Consensus.{AgentOpinion}
use octopush.State.{Key, Opinions, SystemState, key_of, same_key, find, store, put, put_opinion}

module _ {F P : Type 0} where
  -- Opinions put one after the other.
  unfoldable pub put_opinions : List (AgentOpinion F) → SystemState F P → SystemState F P
  put_opinions [] s = s
  put_opinions (o ∷ os) s = put_opinions os (put_opinion o s)

same_key_refl : (k : Key) → same_key k k ≡ true
same_key_refl (a, b) = rw (eq_refl a, eq_refl b) refl

same_key_eq : (k j : Key) → same_key k j ≡ true → k ≡ j
same_key_eq (a, b) (c, d) h = elim (Bool-cases (str_eq a c)) [
  | inl e ↦ λ i. ((eq_iff a c).0 e i, (eq_iff b d).0 (rw e at h) i)
  | inr n ↦ cc (rw n at h)
]

module _ {F : Type 0} where
  find-store :
      (k j : Key) (o : AgentOpinion F) (d : Opinions F)
      → find j (store k o d) ≡ (if same_key k j then some o else find j d)
  find-store k j o [] = refl
  find-store (a, b) (a', b') o (((i, i'), p) ∷ d) = ground (
    arith,
    eq_iff a a',
    eq_iff b b',
    eq_iff i a,
    eq_iff i' b,
    eq_iff i a',
    eq_iff i' b',
    find-store (a, b) (a', b') o d,
  )

  -- An opinion is stored under a key that is no older than a time.
  abbrev pub IsSince : Key → ℕ → Opinions F → Type 0
  IsSince k at d = (p : AgentOpinion F) × (find k d ≡ some p) × (at ≤ p.created_at)

  store-own :
      (o : AgentOpinion F) (d : Opinions F) → IsSince (key_of o) o.created_at (store (key_of o) o d)
  store-own o d =
      (o, find-store (key_of o) (key_of o) o d ∙ rw (same_key_refl (key_of o)) refl, omega arith)

  put-own : (o : AgentOpinion F) (d : Opinions F) → IsSince (key_of o) o.created_at (put o d)
  unfolding put
  put-own o d = elim (Option-cases (find (key_of o) d)) [
    | inl new ↦ rw (new, put) (store-own o d)
    | inr (p, e) ↦ elim (Bool-cases (ltb o.created_at p.created_at)) [
      | inl older ↦ rw (e, put, older) (p, e, grind (arith, older))
      | inr newer ↦ rw (e, put, newer) (store-own o d)
    ]
  ]

  -- Storing an opinion that is no older than what is there under its key.
  store-kept :
      (o : AgentOpinion F) (k : Key) (at : ℕ) (d : Opinions F)
      → ((p : AgentOpinion F) → find (key_of o) d ≡ some p → p.created_at ≤ o.created_at)
      → IsSince k at d
      → IsSince k at (store (key_of o) o d)
  store-kept o k at d fits (p, e, h) = elim (Bool-cases (same_key (key_of o) k)) [
    | inl same ↦
        let found : find (key_of o) d ≡ some p =
          subst (λ j. find j d ≡ some p) (sym (same_key_eq _ _ same)) e in
        (o, find-store (key_of o) k o d ∙ rw same refl, omega (arith, h, fits p found))
    | inr other ↦ (p, find-store (key_of o) k o d ∙ rw other e, h)
  ]

  put-kept :
      (o : AgentOpinion F) (k : Key) (at : ℕ) (d : Opinions F)
      → IsSince k at d
      → IsSince k at (put o d)
  unfolding put
  put-kept o k at d since = elim (Option-cases (find (key_of o) d)) [
    | inl new ↦ rw (new, put) (store-kept o k at d (λ p e. cc) since)
    | inr (q, e) ↦ elim (Bool-cases (ltb o.created_at q.created_at)) [
      | inl older ↦ rw (e, put, older) since
      | inr newer ↦
          rw (e, put, newer)
            (store-kept o k at d
              (λ p found.
                let same : q ≡ p = cc in
                subst (λ r. r.created_at ≤ o.created_at) same (grind (arith, newer)))
              since)
    ]
  ]

module _ {F P : Type 0} where
  put_opinions-kept :
      (os : List (AgentOpinion F)) (s : SystemState F P) (k : Key) (at : ℕ)
      → IsSince k at s.opinions
      → IsSince k at (put_opinions os s).opinions
  unfolding put_opinions put_opinion
  put_opinions-kept [] s k at h = h
  put_opinions-kept (o ∷ os) s k at h =
      put_opinions-kept os (put_opinion o s) k at (put-kept o k at s.opinions h)

  -- In whatever order opinions arrive, the older ones last or not: afterwards there is an opinion
  -- under each one's subject and agent that is no older than it.
  pub put_opinions-IsSince :
      (os : List (AgentOpinion F)) (s : SystemState F P)
      → All (λ o. IsSince (key_of o) o.created_at (put_opinions os s).opinions) os
  unfolding put_opinions put_opinion
  put_opinions-IsSince [] s = tt
  put_opinions-IsSince (o ∷ os) s = (
    put_opinions-kept os (put_opinion o s) (key_of o) o.created_at (put-own o s.opinions),
    put_opinions-IsSince os (put_opinion o s),
  )
