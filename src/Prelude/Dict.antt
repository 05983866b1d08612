-- ===== src/Prelude/Dict.antt =====
-- A Python dict with text keys: an association list in insertion order.
use mathlib.Core.Path.{subst₂}
use octopush.Prelude.{
  subst, sym, String, ◌≡◌, refl, Bool, true, false, Option, none, some, List, [], ◌∷◌, arith,
  str_eq, eq_iff, eq_refl, All, inl, inr, Bool-cases, Option-cases, if◌then◌else◌, map,
}

abbrev pub Dict {ℓ} : Type ℓ → Type ℓ
Dict V = List (String × V)

module _ {ℓ} {V : Type ℓ} where
  -- `d.get(k)`
  abbrev pub lookup : String → Dict V → Option V
  lookup k [] = none
  lookup k ((j, v) ∷ d) = if str_eq j k then some v else lookup k d

  -- `d[k] = v`
  abbrev pub insert : String → V → Dict V → Dict V
  insert k v [] = (k, v) ∷ []
  insert k v ((j, w) ∷ d) = if str_eq j k then (j, v) ∷ d else (j, w) ∷ insert k v d

  -- `d.pop(k, None)`
  abbrev pub erase : String → Dict V → Dict V
  erase k [] = []
  erase k ((j, w) ∷ d) = if str_eq j k then d else (j, w) ∷ erase k d

  -- `d.get(k, default)`
  abbrev pub get_or : String → V → Dict V → V
  get_or k v d = elim (lookup k d) [ none ↦ v | some w ↦ w ]

  -- `k in d`
  abbrev pub has : String → Dict V → Bool
  has k d = elim (lookup k d) [ none ↦ false | some _ ↦ true ]

  abbrev pub values : Dict V → List V
  values = map (λ e. e.1)

  -- No key is stored twice.
  abbrev pub IsDict : Dict V → Type ℓ
  IsDict [] = Unit
  IsDict ((k, v) ∷ d) = (lookup k d ≡ none) × IsDict d

  pub lookup-insert :
      (k j : String) (v : V) (d : Dict V)
      → lookup j (insert k v d) ≡ (if str_eq k j then some v else lookup j d)
  lookup-insert k j v [] = refl
  lookup-insert k j v ((i, w) ∷ d) =
      ground (arith, eq_iff k j, eq_iff i k, eq_iff i j, lookup-insert k j v d)

  pub lookup-insert_self : (k : String) (v : V) (d : Dict V) → lookup k (insert k v d) ≡ some v
  lookup-insert_self k v d = simp (lookup-insert, eq_refl)

  pub get_or-insert_self : (k : String) (v w : V) (d : Dict V) → get_or k w (insert k v d) ≡ v
  get_or-insert_self k v w d = rw (lookup-insert_self k v d, get_or) refl

  pub insert-IsDict : (k : String) (v : V) (d : Dict V) → IsDict d → IsDict (insert k v d)
  insert-IsDict k v [] h = (refl, tt)
  insert-IsDict k v ((i, w) ∷ d) h =
      ground (arith, eq_iff k i, eq_iff i k, insert-IsDict k v d h.1, lookup-insert k i v d)

  pub All-lookup {κ} :
      (P : String × V → Type κ) (k : String) (d : Dict V) {v : V}
      → All P d
      → lookup k d ≡ some v
      → P (k, v)
  All-lookup P k [] a h = cc
  All-lookup P k ((j, w) ∷ d) {v} a h = elim (Bool-cases (str_eq j k)) [
    | inl here ↦
        let same : w ≡ v = cc (rw here at h) in
        subst₂ (λ i u. P (i, u)) ((eq_iff j k).0 here) same a.0
    | inr there ↦ All-lookup P k d a.1 (rw there at h)
  ]

  pub All-insert {κ} :
      (P : String × V → Type κ) (k : String) (v : V) (d : Dict V)
      → All P d
      → P (k, v)
      → All P (insert k v d)
  All-insert P k v [] a e = (e, tt)
  All-insert P k v ((j, w) ∷ d) a e = elim (Bool-cases (str_eq j k)) [
    | inl here ↦ rw here (subst (λ i. P (i, v)) (sym ((eq_iff j k).0 here)) e, a.1)
    | inr there ↦ rw there (a.0, All-insert P k v d a.1 e)
  ]

  pub lookup-erase :
      (k j : String) (d : Dict V)
      → IsDict d
      → lookup j (erase k d) ≡ (if str_eq k j then none else lookup j d)
  lookup-erase k j [] h = ground arith
  lookup-erase k j ((i, w) ∷ d) h =
      ground (arith, eq_iff k j, eq_iff i k, eq_iff i j, lookup-erase k j d h.1)

  pub erase-IsDict : (k : String) (d : Dict V) → IsDict d → IsDict (erase k d)
  erase-IsDict k [] h = tt
  erase-IsDict k ((i, w) ∷ d) h = ground (arith, erase-IsDict k d h.1, lookup-erase k i d h.1)

  pub All-erase {κ} :
      (P : String × V → Type κ) (k : String) (d : Dict V) → All P d → All P (erase k d)
  All-erase P k [] a = tt
  All-erase P k ((j, w) ∷ d) a = elim (Bool-cases (str_eq j k)) [
    | inl here ↦ rw here a.1
    | inr there ↦ rw there (a.0, All-erase P k d a.1)
  ]

  pub get_or-All {κ} :
      (P : V → Type κ) (k : String) (v : V) (d : Dict V)
      → P v
      → All (λ e. P e.1) d
      → P (get_or k v d)
  get_or-All P k v d h a = elim (Option-cases (lookup k d)) [
    | inl missing ↦ rw (missing, get_or) h
    | inr (w, e) ↦ rw (e, get_or) (All-lookup (λ u. P u.1) k d a e)
  ]

  pub lookup-erase_ne :
      (k j : String) (d : Dict V) → str_eq k j ≡ false → lookup j (erase k d) ≡ lookup j d
  lookup-erase_ne k j [] h = refl
  lookup-erase_ne k j ((i, w) ∷ d) h =
      ground (arith, eq_iff k j, eq_iff i k, eq_iff i j, lookup-erase_ne k j d h)
