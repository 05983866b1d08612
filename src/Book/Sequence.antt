-- ===== src/Book/Sequence.antt =====
-- Sequence numbers of a local order book (agents/tidal/book.py, `apply_delta`): gaps, duplicates and
-- the order of updates.
use octopush.Prelude.{
  ℕ, ◌+◌, ◌≤◌, ◌<◌, ◌≡◌, refl, true, false, Option, none, some, List, [], ◌∷◌, ◌==◌, arith, All,
}
use octopush.Prelude.Float.{Float}
use octopush.Prelude.Action.{Result, ok, raised, desync_error}
use octopush.Book.{
  BookDelta, LocalOrderBook, trim, stale, gap, fits, judge, updated, apply_delta, newer,
}
use octopush.Book.Feed.{
  broken, apply_delta-unsynced, apply_delta-gap, apply_delta-stale, apply_delta_cases,
}

abbrev pub AllDesynced : List (Result (Unit {0})) → Type 0
AllDesynced = All (λ r. r ≡ raised desync_error)

judge_same : (n : ℕ) (p : Option ℕ) → judge (some n) (some n) p ≡ stale
unfolding judge
judge_same n p = ground arith

judge-fits :
    (s p : Option ℕ) (held : ℕ)
    → judge s (some held) p ≡ fits
    → (n : ℕ) × (newer s (some held) ≡ some n) × (held ≤ n)
unfolding judge
judge-fits none p held j = (held, refl, omega arith)
judge-fits (some n) p held j = (n, refl, ground arith)

module _ {F : Type 0} ⦃fl : Float F⦄ where
  -- Deltas one after another, with what each returns or raises.
  unfoldable pub apply_deltas :
      List (BookDelta F) → LocalOrderBook F → List (Result (Unit {0})) × LocalOrderBook F
  apply_deltas [] b = ([], b)
  apply_deltas (d ∷ ds) b =
      let (r, b') = apply_delta d b in let (rs, b'') = apply_deltas ds b' in (r ∷ rs, b'')

  apply_deltas-unsynced :
      (ds : List (BookDelta F)) (b : LocalOrderBook F)
      → b.synced ≡ false
      → AllDesynced (apply_deltas ds b).0 × ((apply_deltas ds b).1 ≡ b)
  unfolding apply_deltas
  apply_deltas-unsynced [] b h = (tt, refl)
  apply_deltas-unsynced (d ∷ ds) b h =
      rw (apply_delta-unsynced d b h)
        (let (all_, same) = apply_deltas-unsynced ds b h in ((refl, all_), same))

  -- A delta that is newer than a synchronised book, and expects another number than the book's, is a
  -- gap: it and all deltas after it raise, whatever they hold, and leave the book as it was but for
  -- one more counted gap and the marks that it is out of step and needs a snapshot.
  pub apply_deltas-gap :
      (d : BookDelta F) (ds : List (BookDelta F)) (b : LocalOrderBook F) (n held expected : ℕ)
      → b.synced ≡ true
      → d.sequence ≡ some n
      → b.sequence ≡ some held
      → d.prev_sequence ≡ some expected
      → held < n
      → (expected == held) ≡ false
      → AllDesynced (apply_deltas (d ∷ ds) b).0
        × ((apply_deltas (d ∷ ds) b).1
            ≡ record b { sequence_gaps = b.sequence_gaps + 1; synced = false; needs_resync = true })
  unfolding apply_deltas judge
  apply_deltas-gap d ds b n held expected s e f g newer other =
      rw (apply_delta-gap d b s judged)
        (let (all_, same) = apply_deltas-unsynced ds (broken d b) refl in ((refl, all_), same))
    where
      judged : judge d.sequence b.sequence d.prev_sequence ≡ gap
      judged = rw (e, f, g) (ground arith)

  -- A delta with a sequence number that was applied, or dropped as old, changes nothing when it is
  -- delivered once more.
  pub apply_delta-twice :
      (d : BookDelta F) (b : LocalOrderBook F) (n : ℕ)
      → d.sequence ≡ some n
      → (apply_delta d b).0 ≡ ok tt
      → apply_delta d (apply_delta d b).1 ≡ (ok tt, (apply_delta d b).1)
  unfolding updated trim
  apply_delta-twice d b n e =
      apply_delta_cases d b (λ r. r.0 ≡ ok tt → apply_delta d r.1 ≡ (ok tt, r.1)) (λ _ r. cc)
        (λ s j _. apply_delta-stale d b s j) (λ r. cc)
        (λ s _ _. apply_delta-stale d (updated d b) s (rw e (judge_same n d.prev_sequence)))
