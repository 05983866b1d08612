-- ===== src/Dedupe/Stream.antt =====
-- What the duplicate window holds after a stream of distinct ids.
use octopush.Prelude.{
  ℕ, zero, suc, ◌+◌, ◌-◌, ◌≤◌, String, ◌≡◌, refl, sym, ap, ◌∙◌, false, List, [], ◌∷◌, ◌++◌, length,
  length-append, length-drop, drop, contains, eq_iff, arith, append_assoc, append-nil, subst,
}
use Prim.Native.Nat.add
use octopush.Dedupe.{empty, seen}
use octopush.Dedupe.Horizon.{
  NoRepeats, contains-append, NoRepeats-drop, drop-append, admit-window, window, recent, offers,
  offer,
}

drop-nil : (n : ℕ) → drop {A = String} n [] ≡ []
drop-nil zero = refl
drop-nil (suc n) = refl

drop-drop : (m n : ℕ) (xs : List String) → drop m (drop n xs) ≡ drop (n + m) xs
drop-drop m zero xs = rw add.zero
drop-drop m (suc n) [] = rw (drop-nil m, drop-nil (suc n + m))
drop-drop m (suc n) (x ∷ xs) = rw add.suc (drop-drop m n xs)

recent-short : (n : ℕ) (xs : List String) → length xs ≤ n → recent n xs ≡ xs
unfolding recent
recent-short n xs h = ap (λ k. drop k xs) none_over
  where
    none_over : length xs - n ≡ 0
    none_over = omega arith

fresh-in-tail :
    (ids xs : List String) (x : String) → NoRepeats (ids ++ x ∷ xs) → contains x ids ≡ false
fresh-in-tail [] xs x d = refl
fresh-in-tail (j ∷ ids) xs x d =
    ground
      (arith, contains-append j ids (x ∷ xs), eq_iff x j, eq_iff j x, fresh-in-tail ids xs x d.1)

recent-recent-append :
    (n : ℕ) (ids xs : List String) → recent n (recent n ids ++ xs) ≡ recent n (ids ++ xs)
unfolding recent
recent-recent-append n ids xs =
    ap (drop _) (sym (drop-append over ids xs (omega arith)))
    ∙ drop-drop _ over (ids ++ xs)
    ∙ ap (λ k. drop k (ids ++ xs)) same_start
  where
    over : ℕ
    over = length ids - n

    same_start : over + (length (drop over ids ++ xs) - n) ≡ length (ids ++ xs) - n
    same_start =
        omega (arith, length-append (drop over ids) xs, length-append ids xs, length-drop over ids)

NoRepeats-recent :
    (n : ℕ) (ids xs : List String) → NoRepeats (ids ++ xs) → NoRepeats (recent n ids ++ xs)
unfolding recent
NoRepeats-recent n ids xs d =
    subst NoRepeats (drop-append (length ids - n) ids xs (omega arith)) (NoRepeats-drop _ _ d)

length-recent : (n : ℕ) (ids : List String) → length (recent n ids) ≤ n
unfolding recent
length-recent n ids = omega (arith, length-drop (length ids - n) ids)

offers-window :
    (xs ids : List String) (n : ℕ)
    → length ids ≤ n
    → NoRepeats (ids ++ xs)
    → offers (window n ids) xs ≡ window n (recent n (ids ++ xs))
unfolding offers offer seen
offers-window [] ids n h d = rw (append-nil ids) (ap (window n) (sym (recent-short n ids h)))
offers-window (x ∷ xs) ids n h d =
    rw (fresh-in-tail ids xs x d, admit-window x n ids (fresh-in-tail ids xs x d))
      (offers-window xs (recent n (ids ++ x ∷ [])) n (length-recent n (ids ++ x ∷ []))
          (NoRepeats-recent n (ids ++ x ∷ []) xs (subst NoRepeats (sym regrouped) d))
        ∙ ap (window n) (recent-recent-append n (ids ++ x ∷ []) xs ∙ ap (recent n) regrouped))
  where
    regrouped : (ids ++ x ∷ []) ++ xs ≡ ids ++ x ∷ xs
    regrouped = append_assoc ids (x ∷ []) xs

-- After any sequence of distinct ids the window holds exactly the newest `n` of them, and no other
-- id is recognised.
pub offers-empty :
    (n : ℕ) (xs : List String) → NoRepeats xs → offers (empty n) xs ≡ window n (recent n xs)
offers-empty n xs d = offers-window xs [] n (omega arith) d
