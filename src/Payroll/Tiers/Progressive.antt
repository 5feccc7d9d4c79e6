-- ===== src/Payroll/Tiers/Progressive.antt =====
-- The tier bonus is progressive (backend/src/payroll/payroll.service.ts, `computeTierBonus`).
use vfw.Prelude.{◌||◌, List, [], ◌∷◌, arith, if◌then◌else◌}
use vfw.Decimal.{Decimals, zero_amount, lte}
use vfw.Decimal.Order.{IsOrdered, ◌⊑◌}
use vfw.Store.Staff.{CommissionTier}
use vfw.Payroll.Tiers.{bracket_top, share, walk, compute_tier_bonus}

module _ ⦃d : Decimals⦄ (order : IsOrdered) where
  open d use {Decimal, plus, minus, gt, to_places}
  open order use {
    IsShort, zero-IsShort, plus-IsShort, ⊑_refl, ⊑_trans, gt_⊑, plus_grows, plus_mono, minus_mono,
    share_mono, share_nonneg, places_mono,
  }

  -- A bracket does not end lower for a higher revenue.
  top_mono :
      (r s : Decimal) (rest : List (CommissionTier Decimal))
      → r ⊑ s
      → bracket_top r rest ⊑ bracket_top s rest
  top_mono r s [] h = h
  top_mono r s (next ∷ rest) h =
      let n = next.threshold_revenue in ground (arith, ⊑_refl n, ⊑_trans n r s, gt_⊑ r n)

  -- One turn of the loop, where the revenue is above the threshold.
  abbrev step : Decimal → Decimal → CommissionTier Decimal → List (CommissionTier Decimal) → Decimal
  step revenue bonus tier rest =
      let portion = minus (bracket_top revenue rest) tier.threshold_revenue in
      if lte portion zero_amount || lte tier.bonus_pct zero_amount
      then bonus
      else plus bonus (share portion tier.bonus_pct)

  module _ (tier : CommissionTier Decimal) (rest : List (CommissionTier Decimal)) where
    step_short : (s c : Decimal) → IsShort c → IsShort (step s c tier rest)
    step_short s c short =
        let x = share (minus (bracket_top s rest) tier.threshold_revenue) tier.bonus_pct in
        ground (arith, short, plus-IsShort c x)

    step_grows : (s c : Decimal) → IsShort c → c ⊑ step s c tier rest
    step_grows s c short =
        let portion = minus (bracket_top s rest) tier.threshold_revenue in
        let pct = tier.bonus_pct in
        ground (
          arith,
          ⊑_refl c,
          gt_⊑ portion zero_amount,
          gt_⊑ pct zero_amount,
          share_nonneg portion pct,
          plus_grows c (share portion pct) short,
        )

    step_mono :
        (r s b c : Decimal) → IsShort c → r ⊑ s → b ⊑ c → step r b tier rest ⊑ step s c tier rest
    step_mono r s b c short h less =
        let p = minus (bracket_top r rest) tier.threshold_revenue in
        let q = minus (bracket_top s rest) tier.threshold_revenue in
        let pct = tier.bonus_pct in
        let wider : p ⊑ q = minus_mono _ _ _ (top_mono r s rest h) in
        ground (
          arith,
          less,
          wider,
          ⊑_trans p q zero_amount,
          gt_⊑ q zero_amount,
          gt_⊑ pct zero_amount,
          share_nonneg q pct,
          share_mono p q pct,
          plus_mono b c (share p pct) (share q pct) less,
          plus_grows c (share q pct) short,
          ⊑_trans b c (plus c (share q pct)) less,
        )

  walk_grows :
      (s c : Decimal) (tiers : List (CommissionTier Decimal)) → IsShort c → c ⊑ walk s c tiers
  unfolding walk
  walk_grows s c [] short = ⊑_refl c
  walk_grows s c (tier ∷ rest) short =
      let next = step s c tier rest in
      let grown = step_grows tier rest s c short in
      let after = walk_grows s next rest (step_short tier rest s c short) in
      ground (arith, ⊑_refl c, ⊑_trans c next (walk s next rest) grown after)

  walk_mono :
      (r s b c : Decimal) (tiers : List (CommissionTier Decimal))
      → IsShort c
      → r ⊑ s
      → b ⊑ c
      → walk r b tiers ⊑ walk s c tiers
  unfolding walk
  walk_mono r s b c [] short h less = less
  walk_mono r s b c (tier ∷ rest) short h less =
      let t = tier.threshold_revenue in
      let all_of = walk_grows s c (tier ∷ rest) short in
      let after =
        walk_mono r s (step r b tier rest) (step s c tier rest) rest
          (step_short tier rest s c short) h (step_mono tier rest r s b c short h less) in
      ground (arith, less, after, ⊑_trans r s t h, ⊑_trans b c (walk s c (tier ∷ rest)) less all_of)

  -- Over any table of tiers, a higher revenue never earns a smaller bonus: no threshold that is crossed
  -- is a pay cut.
  pub compute_tier_bonus_mono :
      (tiers : List (CommissionTier Decimal)) (r s : Decimal)
      → r ⊑ s
      → (compute_tier_bonus r tiers).0 ⊑ (compute_tier_bonus s tiers).0
  unfolding compute_tier_bonus
  compute_tier_bonus_mono tiers r s h =
      places_mono _ _
        (walk_mono r s zero_amount zero_amount tiers zero-IsShort h (⊑_refl zero_amount))
