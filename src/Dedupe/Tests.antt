-- ===== src/Dedupe/Tests.antt =====
-- Runs of the duplicate window, and its theorems at concrete windows.
use octopush.Prelude.{◌≡◌, refl, true, [], ◌∷◌, arith}
use octopush.Dedupe.{empty, seen, admit, trim_dedupe, discard_oldest}
use octopush.Dedupe.Horizon.{offers, offer, recent, window, empty-IsWindow, seen-offers-admit}
use octopush.Dedupe.Stream.{offers-empty}

-- Of four ids a window of three keeps the newest three; "a" is forgotten.
four_offered :
    (offers (empty 3) ("a" ∷ "b" ∷ "b" ∷ "c" ∷ "d" ∷ [])).dedupe_order ≡ "b" ∷ "c" ∷ "d" ∷ []
unfolding offers offer seen admit trim_dedupe discard_oldest
four_offered = refl

seen-offers-admit_example : seen "a" (offers (admit "a" (empty 3)) ("b" ∷ "b" ∷ [])) ≡ true
unfolding seen
seen-offers-admit_example =
    seen-offers-admit ("b" ∷ "b" ∷ []) "a" (empty 3) (empty-IsWindow 3) refl (omega arith)

offers-empty_example :
    offers (empty 2) ("a" ∷ "b" ∷ "c" ∷ []) ≡ window 2 (recent 2 ("a" ∷ "b" ∷ "c" ∷ []))
offers-empty_example = offers-empty 2 ("a" ∷ "b" ∷ "c" ∷ []) (refl, (refl, (refl, tt)))
