-- ===== src/Marin/Sealing.antt =====
-- `_seal_boundary` and `compact` of agents/marin/agent.py: what leaves the account's log.
use octopush.Prelude.{
  ℕ, zero, suc, ◌-◌, ◌≤◌, String, ◌≡◌, refl, sym, ap, ◌⊎◌, ◌∙◌, subst, true, some, List, [], ◌∷◌,
  map, take, drop, length, All, arith, inl, inr, Bool-cases, Option-cases, leb,
}
use Prim.Native.Nat.{min}
use octopush.Prelude.Dict.{lookup}
use octopush.Prelude.Float.{Float}
use octopush.Prelude.Action.{Result, Result-cases, bind-ok_at, bind-raised}
use octopush.Order.{FillEvent, PaperOrder, is_terminal}
use octopush.Oms.{OrderManager}
use octopush.Oms
use octopush.Account.{PaperAccount, seal, replay, sealed_ledger, seal_limit}
use octopush.Marin.{
  Marin, settled_fills, pull_back, seal_boundary, order_of, compact, compact_excess, seal_some,
  archive, ids,
}

module _ {F : Type 0} where
  -- The order of a fill is resident and terminal.
  abbrev pub IsSettled : OrderManager F → FillEvent F → Type 0
  IsSettled o f =
      (order : PaperOrder F) × (lookup f.client_order_id o.orders ≡ some order)
      × (is_terminal order ≡ true)

  pull_back-le :
      (straddling : List String) (log : List (FillEvent F)) (n : ℕ) → pull_back straddling log n ≤ n
  unfolding pull_back
  pull_back-le straddling log zero = omega arith
  pull_back-le straddling log (suc n) = ground (arith, pull_back-le straddling log n)

  settled_fills-IsSettled :
      (o : OrderManager F) (log : List (FillEvent F))
      → All (IsSettled o) (take (settled_fills o log) log)
  unfolding settled_fills
  settled_fills-IsSettled o [] = tt
  settled_fills-IsSettled o (f ∷ log) = elim (Option-cases (lookup f.client_order_id o.orders)) [
    | inl missing ↦ rw (missing, settled_fills) tt
    | inr (order, e) ↦ elim (Bool-cases (is_terminal order)) [
      | inl done ↦ rw (e, settled_fills, done) ((order, e, done), settled_fills-IsSettled o log)
      | inr live ↦ rw (e, settled_fills, live) tt
    ]
  ]

  All-take :
      (P : FillEvent F → Type 0) (m n : ℕ) (log : List (FillEvent F))
      → m ≤ n
      → All P (take n log)
      → All P (take m log)
  All-take P zero n log h a = tt
  All-take P (suc m) n [] h a = tt
  All-take P (suc m) zero (f ∷ log) h a = ground (arith, h)
  All-take P (suc m) (suc n) (f ∷ log) h a = (a.0, All-take P m n log (omega arith) a.1)

  seal_boundary-IsSettled :
      (o : OrderManager F) (log : List (FillEvent F)) (n : ℕ)
      → n ≤ seal_boundary o log
      → All (IsSettled o) (take n log)
  unfolding seal_boundary
  seal_boundary-IsSettled o log n h =
      All-take (IsSettled o) n (settled_fills o log) log
        (omega (
          arith,
          pull_back-le (map order_of (drop (settled_fills o log) log)) log (settled_fills o log),
        ))
        (settled_fills-IsSettled o log)

  -- What is left of a log of which a settled prefix was sealed.
  abbrev pub LeftOf : OrderManager F → List (FillEvent F) → ℕ → List (FillEvent F) → Type 0
  LeftOf o log excess rest =
      (n : ℕ) × (rest ≡ drop n log) × (n ≤ excess) × All (IsSettled o) (take n log)

module _ {F : Type 0} ⦃fl : Float F⦄ where
  -- A seal drops as many fills as were asked for, or none.
  seal-drops :
      (count now : ℕ) (a : PaperAccount F)
      → (n : ℕ) × ((seal (some count) now a).1.fill_log ≡ drop n a.fill_log) × (n ≤ count)
  unfolding seal
  seal-drops count now a =
      let limit = seal_limit (some count) (length a.fill_log) in
      elim (Bool-cases (leb limit 0)) [
        | inl none_due ↦ rw none_due (0, refl, omega arith)
        | inr due ↦ rw due (elim (Result-cases (replay (take limit a.fill_log) (sealed_ledger a))) [
          | inl (l, e) ↦ rw e (limit, refl, omega arith)
          | inr (x, e) ↦ rw e (0, refl, omega arith)
        ])
      ]

  -- The account that `compact_excess` seals.
  abbrev pub sealed_account : {B : Type 0} → ℕ → ℕ → Marin F B → PaperAccount F
  sealed_account excess now m = (seal_some excess now m).1.account

  -- After `compact_excess` the account is the sealed one, and unless the seal raised the order manager
  -- has compacted against what is left of the log.
  abbrev pub Parts : {B : Type 0} → ℕ → ℕ → Marin F B → Result (ℕ × ℕ) × Marin F B → Type 0
  Parts excess now m (_, after) =
      let sealed = sealed_account excess now m in
      (after.account ≡ sealed)
      × ((after.oms ≡ (Oms.compact (ids sealed.fill_log) m.oms).1) ⊎ (after.oms ≡ m.oms))

  pub compact_excess-Parts :
      {B : Type 0} (excess now : ℕ) (m : Marin F B)
      → Parts excess now m (compact_excess excess now m)
  unfolding Oms.compact
  compact_excess-Parts excess now m = elim (Result-cases (seal_some excess now m).0) [
    | inl (sealed, e) ↦
        subst (Parts excess now m) (sym (bind-ok_at (seal_some excess now) archive m e))
          (refl, inl refl)
    | inr (x, e) ↦
        subst (Parts excess now m)
          (sym
            (bind-raised (seal_some excess now) archive (λ i. (e i, (seal_some excess now m).1))))
          (refl, inr refl)
  ]

  -- Compaction seals nothing, or a prefix of the log no longer than what exceeds the number of fills
  -- to retain, so that as many as these stay; and every fill that it seals belongs to an order that
  -- is resident and terminal when compaction begins.
  pub compact-left :
      {B : Type 0} (now : ℕ) (m : Marin F B)
      → LeftOf m.oms m.account.fill_log
          (length m.account.fill_log - m.account.window.retained)
          (compact now m).1.account.fill_log
  unfolding compact
  compact-left now m =
      let excess = length m.account.fill_log - m.account.window.retained in
      let limit = min (seal_boundary m.oms m.account.fill_log) excess in
      let (n, same, few) = seal-drops limit now m.account in
      let (sealed, _) = compact_excess-Parts excess now m in
      elim (Bool-cases (leb excess 0)) [
        | inl fits ↦ rw fits (0, refl, omega arith, tt)
        | inr over ↦ rw over (
          n,
          ap (λ (a : PaperAccount F). a.fill_log) sealed ∙ same,
          omega (arith, few),
          seal_boundary-IsSettled m.oms m.account.fill_log n (omega (arith, few)),
        )
      ]
