-- ===== src/Marin/Straddling.antt =====
-- What `compact` of agents/marin/agent.py does to an order whose fills it seals in part.
use octopush.Prelude.{
  ℕ, ◌-◌, String, ◌≡◌, refl, sym, ap, ◌∙◌, subst, Bool, true, false, not, ◌&&◌, ◌||◌, Option, none,
  some, List, [], ◌∷◌, ◌++◌, map, any, length, contains, str_eq, eq_iff, arith, inl, inr,
  Bool-cases, leb,
}
use octopush.Prelude.Dict.{Dict, lookup, has, insert, lookup-insert}
use octopush.Prelude.Float.{Float}
use octopush.Prelude.Action.{ok}
use octopush.Order.{FillEvent, PaperOrder}
use octopush.Oms.{OrderManager, is_doomed, all_fills}
use octopush.Oms
use octopush.Oms.Orders.{IsValid}
use octopush.Oms.Compaction.{compact_lem, spare}
use octopush.Account.{PaperAccount}
use octopush.Marin.{Marin, ReconciliationResult, by_id, compact, compact_excess, ids, reconcile}
use octopush.Marin.Agreement.{reconcile-IsAgreed}
use octopush.Marin.Sealing.{compact_excess-Parts}

has-insert :
    {V : Type 0} (k j : String) (v : V) (d : Dict V)
    → has k (insert j v d) ≡ (str_eq j k || has k d)
has-insert k j v d = elim (Bool-cases (str_eq j k)) [
  | inl same ↦ rw (lookup-insert j k v d, same, has) refl
  | inr other ↦ rw (lookup-insert j k v d, other, has) refl
]

module _ {F : Type 0} where
  ids-append :
      (xs ys : List (FillEvent F)) (k : String)
      → contains k (ids (xs ++ ys)) ≡ (contains k (ids xs) || contains k (ids ys))
  ids-append [] ys k = refl
  ids-append (x ∷ xs) ys k = ground (arith, ids-append xs ys k)

  -- A dict of fills by id has the ids of the fills.
  has-by_id :
      (fills : List (FillEvent F)) (k : String) → has k (by_id fills) ≡ contains k (ids fills)
  unfolding by_id
  has-by_id fills k = from fills []
    where
      from :
          (fs : List (FillEvent F)) (d : Dict (FillEvent F))
          → has k (octopush.Prelude.foldl (λ d f. insert f.fill_id f d) d fs)
            ≡ (has k d || contains k (ids fs))
      from [] d = ground arith
      from (f ∷ fs) d =
          from fs (insert f.fill_id f d) ∙ rw (has-insert k f.fill_id f d) (ground arith)

  all_fills-of :
      (key id : String) (orders : Dict (PaperOrder F)) (o : PaperOrder F)
      → lookup key orders ≡ some o
      → contains id (ids o.fills) ≡ true
      → contains id (ids (all_fills orders)) ≡ true
  unfolding all_fills
  all_fills-of key id [] o e h = cc
  all_fills-of key id ((j, q) ∷ orders) o e h = elim (Bool-cases (str_eq j key)) [
    | inl here ↦
        let same : q ≡ o = cc (rw here at e) in
        ids-append q.fills (all_fills orders) id
        ∙ rw (ap (λ (p : PaperOrder F). contains id (ids p.fills)) same ∙ h) refl
    | inr there ↦
        ids-append q.fills (all_fills orders) id
        ∙ rw (all_fills-of key id orders o (rw there at e) h) (ground arith)
  ]

  -- An order with an unsealed fill is not archived.
  spared :
      (unsealed : List String) (id : String) (fills : List (FillEvent F))
      → contains id unsealed ≡ true
      → contains id (ids fills) ≡ true
      → any (λ f. contains f.fill_id unsealed) fills ≡ true
  spared unsealed id [] h m = cc
  spared unsealed id (f ∷ fills) h m = elim (Bool-cases (str_eq f.fill_id id)) [
    | inl here ↦
        rw (subst (λ i. contains i unsealed ≡ true) (sym ((eq_iff f.fill_id id).0 here)) h) refl
    | inr there ↦ rw (spared unsealed id fills h (rw there at m)) (ground arith)
  ]

  lookup-spare :
      (p : PaperOrder F → Bool) (key : String) (d : Dict (PaperOrder F)) (o : PaperOrder F)
      → p o ≡ false
      → lookup key d ≡ some o
      → lookup key (spare p d) ≡ some o
  lookup-spare p key [] o stays e = cc
  lookup-spare p key ((j, q) ∷ d) o stays e = elim (Bool-cases (str_eq j key)) [
    | inl here ↦ let same : q ≡ o = cc (rw here at e) in rw (ap p same ∙ stays, here) (ap some same)
    | inr there ↦ elim (Bool-cases (p q)) [
      | inl out ↦ rw out (lookup-spare p key d o stays (rw there at e))
      | inr kept ↦ rw (kept, there) (lookup-spare p key d o stays (rw there at e))
    ]
  ]

module _ {F : Type 0} ⦃fl : Float F⦄ where
  lookup-Oms_compact :
      (key id : String) (o : PaperOrder F) (unsealed : List String) (m : OrderManager F)
      → IsValid m
      → lookup key m.orders ≡ some o
      → contains id (ids o.fills) ≡ true
      → contains id unsealed ≡ true
      → lookup key (Oms.compact unsealed m).1.orders ≡ some o
  unfolding is_doomed
  lookup-Oms_compact key id o unsealed m v e held h =
      ap (lookup key) (compact_lem unsealed m v).0
      ∙ lookup-spare (is_doomed unsealed) key m.orders o stays e
    where
      stays : is_doomed unsealed o ≡ false
      stays = rw (spared unsealed id o.fills h held) (ground arith)

module _ {F B : Type 0} ⦃fl : Float F⦄ where
  lookup-compact_excess :
      (key id : String) (o : PaperOrder F) (excess now : ℕ) (m : Marin F B)
      → IsValid m.oms
      → lookup key m.oms.orders ≡ some o
      → contains id (ids o.fills) ≡ true
      → contains id (ids (compact_excess excess now m).1.account.fill_log) ≡ true
      → lookup key (compact_excess excess now m).1.oms.orders ≡ some o
  lookup-compact_excess key id o excess now m v e held unsealed =
      let (sealed, archived) = compact_excess-Parts excess now m in
      let left =
        sym (ap (λ (a : PaperAccount F). contains id (ids a.fill_log)) sealed) ∙ unsealed in
      elim archived [
        | inl same ↦
            ap (λ (n : OrderManager F). lookup key n.orders) same
            ∙ lookup-Oms_compact key id o _ m.oms v e held left
        | inr same ↦ ap (λ (n : OrderManager F). lookup key n.orders) same ∙ e
      ]

  lookup-compact :
      (key id : String) (o : PaperOrder F) (now : ℕ) (m : Marin F B)
      → IsValid m.oms
      → lookup key m.oms.orders ≡ some o
      → contains id (ids o.fills) ≡ true
      → contains id (ids (compact now m).1.account.fill_log) ≡ true
      → lookup key (compact now m).1.oms.orders ≡ some o
  unfolding compact
  lookup-compact key id o now m v e held unsealed =
      let excess = length m.account.fill_log - m.account.window.retained in
      elim (Bool-cases (leb excess 0)) [
        | inl fits ↦ rw fits e
        | inr over ↦
            rw over (lookup-compact_excess key id o excess now m v e held (rw over at unsealed))
      ]

  -- Two fills of an order that an order manager in order holds: when compaction leaves one of them in
  -- the account's log and not the other, the order manager still has the order, as it was and so with
  -- both fills, and the result of the next reconciliation, if the rebuild raises nothing, is not ok,
  -- whatever was found before.
  pub reconcile-compact_straddling :
      (key id sealed_id : String) (o : PaperOrder F) (now later : ℕ) (m : Marin F B)
      (r : ReconciliationResult F)
      → IsValid m.oms
      → lookup key m.oms.orders ≡ some o
      → contains id (ids o.fills) ≡ true
      → contains sealed_id (ids o.fills) ≡ true
      → contains id (ids (compact now m).1.account.fill_log) ≡ true
      → contains sealed_id (ids (compact now m).1.account.fill_log) ≡ false
      → (reconcile later (compact now m).1).0 ≡ ok r
      → (lookup key (compact now m).1.oms.orders ≡ some o) × (r.is_ok ≡ false)
  reconcile-compact_straddling key id sealed_id o now later m r v e held cut stays gone h =
      let kept = lookup-compact key id o now m v e held stays in
      elim (Bool-cases r.is_ok) [
        | inr critical_one ↦ (kept, critical_one)
        | inl passes ↦
            let m' = (compact now m).1 in
            let (l, _, agreed) = reconcile-IsAgreed later m' r h passes in
            let resident = all_fills-of key sealed_id m'.oms.orders o kept cut in
            let bad : true ≡ false =
              sym resident
              ∙ sym (has-by_id (all_fills m'.oms.orders) sealed_id)
              ∙ agreed.fills sealed_id
              ∙ has-by_id m'.account.fill_log sealed_id
              ∙ gone in
            cc
      ]
