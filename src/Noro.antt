-- ===== src/Noro.antt =====
-- agents/noro/fair_value.py: the fair value of a symbol across its venues. How `:g` prints the liquidity
-- window, the key of a depth, is an argument.
use octopush.Prelude.{
  String, not, Option, none, some, List, [], ◌∷◌, map, str_eq, is_nil, if◌then◌else◌,
}
use octopush.Prelude.Int.{pos}
use octopush.Prelude.Dict.{lookup}
use octopush.Prelude.Float.{Float, ◌⊕◌, ◌⊖◌, ◌⊗◌, ◌⊘◌, ◌⋖◌, ◌⩽◌, zero_float, min_float, max_float}
use octopush.Consensus.{is_usable}
use octopush.Market.{VenueMarketState}
use octopush.Tidal.Windows.{Reals}
use octopush.Tidal.{safe_bps}

pub record VenueValuation (F : Type 0) : Type 0 where
  pub venue : String
  pub price : F
  pub liquidity : F
  pub weight : F
  pub deviation_bps : F

pub record FairValue (F : Type 0) : Type 0 where
  pub symbol : String
  pub fair_value : F
  pub total_liquidity : F
  pub venues : List (VenueValuation F)

abbrev pub deviation_in : {F : Type 0} → String → List (VenueValuation F) → Option F
deviation_in venue [] = none
deviation_in venue (v ∷ vs) =
    if str_eq v.venue venue then some v.deviation_bps else deviation_in venue vs

-- `deviation`
abbrev pub deviation : {F : Type 0} → String → FairValue F → Option F
deviation venue v = deviation_in venue v.venues

module _ {F : Type 0} ⦃fl : Float F⦄ where
  abbrev pub widest_from : F → List (VenueValuation F) → F
  widest_from widest [] = widest
  widest_from widest (v ∷ vs) = widest_from (max_float widest (fl.absolute v.deviation_bps)) vs

  abbrev pub widest_deviation_bps : FairValue F → F
  widest_deviation_bps v = elim v.venues [
    | [] ↦ zero_float
    | u ∷ us ↦ widest_from (fl.absolute u.deviation_bps) us
  ]

  -- The first of the least deviations.
  abbrev pub cheaper : VenueValuation F → List (VenueValuation F) → VenueValuation F
  cheaper v [] = v
  cheaper v (u ∷ us) = cheaper (if u.deviation_bps ⋖ v.deviation_bps then u else v) us

  -- The first of the greatest.
  abbrev pub richer : VenueValuation F → List (VenueValuation F) → VenueValuation F
  richer v [] = v
  richer v (u ∷ us) = richer (if v.deviation_bps ⋖ u.deviation_bps then u else v) us

  abbrev pub cheapest : FairValue F → Option (VenueValuation F)
  cheapest v = elim v.venues [ [] ↦ none | u ∷ us ↦ some (cheaper u us) ]

  abbrev pub richest : FairValue F → Option (VenueValuation F)
  richest v = elim v.venues [ [] ↦ none | u ∷ us ↦ some (richer u us) ]

  abbrev pub blend : F → F → F → F
  blend weight mid micro =
      let one = fl.of_int (pos 1) in
      let w = min_float one (max_float zero_float weight) in mid ⊗ (one ⊖ w) ⊕ micro ⊗ w

  -- `venue_price`
  abbrev pub venue_price : VenueMarketState F → F → Option F
  venue_price s weight = elim s.metrics.mid [
    | none ↦ none
    | some mid ↦ elim s.metrics.microprice [
      | none ↦ some mid
      | some micro ↦ some (blend weight mid micro)
    ]
  ]

  -- `usable_liquidity`: the whole depth where one side has none measured at that distance.
  abbrev pub usable_liquidity : String → VenueMarketState F → F
  usable_liquidity key s =
      let whole = min_float s.metrics.bid_depth_notional s.metrics.ask_depth_notional in
      elim (lookup key s.metrics.bid_depth_by_bps) [
        | none ↦ whole
        | some bid ↦ elim (lookup key s.metrics.ask_depth_by_bps) [
          | none ↦ whole
          | some ask ↦ min_float bid ask
        ]
      ]

  -- The usable venues with a price and with liquidity.
  unfoldable pub priced : String → F → List (VenueMarketState F) → List (VenueMarketState F × F × F)
  priced key weight [] = []
  priced key weight (s ∷ ss) =
      let rest = priced key weight ss in
      elim (venue_price s weight) [
        | none ↦ rest
        | some price ↦
            if not (is_usable s.quality)
            then rest
            else if usable_liquidity key s ⩽ zero_float
            then rest
            else (s, price, usable_liquidity key s) ∷ rest
      ]

module _ {F : Type 0} ⦃fl : Float F⦄ ⦃re : Reals F⦄ where
  abbrev pub deviation_or_zero : F → F → F
  deviation_or_zero price fair = elim (safe_bps (price ⊖ fair) fair) [
    | none ↦ zero_float
    | some d ↦ d
  ]

  abbrev pub valued : String → List (VenueMarketState F × F × F) → FairValue F
  valued symbol ps =
      let total = fl.sum (map (λ p. p.2) ps) in
      let fair = fl.sum (map (λ p. p.1 ⊗ p.2) ps) ⊘ total in
      record {
        symbol = symbol;
        fair_value = fair;
        total_liquidity = total;
        venues =
            map
              (λ p. record {
                venue = p.0.venue;
                price = p.1;
                liquidity = p.2;
                weight = p.2 ⊘ total;
                deviation_bps = deviation_or_zero p.1 fair;
              })
              ps;
      }

  -- `compute_fair_value`
  unfoldable pub compute_fair_value :
      String → List (VenueMarketState F) → F → String → Option (FairValue F)
  compute_fair_value symbol states weight key =
      let ps = priced key weight states in if is_nil ps then none else some (valued symbol ps)
