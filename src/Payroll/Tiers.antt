-- ===== src/Payroll/Tiers.antt =====
-- backend/src/payroll/payroll.service.ts: `computeTierBonus`, and the table that it walks.
pub mod Progressive
use vfw.Prelude.{◌||◌, List, [], ◌∷◌, if◌then◌else◌}
use vfw.Decimal.{Decimals, zero_amount, hundred, lte}
use vfw.Store.Staff.{CommissionTier}

-- `TierBonusBreakdownEntry`
pub record BreakdownEntry (D : Type 0) : Type 0 where
  pub threshold_revenue : D
  pub bonus_pct : D
  pub portion : D
  pub amount : D

module _ ⦃d : Decimals⦄ where
  open d use {Decimal, plus, minus, times, divided_by, gt, to_places}

  -- Where the bracket of a tier ends: at the next threshold, if the revenue is above it.
  abbrev pub bracket_top : Decimal → List (CommissionTier Decimal) → Decimal
  bracket_top revenue [] = revenue
  bracket_top revenue (next ∷ _) =
      if gt revenue next.threshold_revenue then next.threshold_revenue else revenue

  abbrev pub share : Decimal → Decimal → Decimal
  share portion bonus_pct = divided_by (times portion bonus_pct) hundred

  -- The `bonus` of the loop of `computeTierBonus`, from the tier that it stands at.
  unfoldable pub walk : Decimal → Decimal → List (CommissionTier Decimal) → Decimal
  walk revenue bonus [] = bonus
  walk revenue bonus (tier ∷ rest) =
      let portion = minus (bracket_top revenue rest) tier.threshold_revenue in
      let skip = lte portion zero_amount || lte tier.bonus_pct zero_amount in
      let next = if skip then bonus else plus bonus (share portion tier.bonus_pct) in
      let after = walk revenue next rest in
      if lte revenue tier.threshold_revenue then bonus else after

  -- The `breakdown` of the same loop.
  unfoldable pub breakdown : Decimal → List (CommissionTier Decimal) → List (BreakdownEntry Decimal)
  breakdown revenue [] = []
  breakdown revenue (tier ∷ rest) =
      let portion = minus (bracket_top revenue rest) tier.threshold_revenue in
      let skip = lte portion zero_amount || lte tier.bonus_pct zero_amount in
      let after = breakdown revenue rest in
      let entry : BreakdownEntry Decimal = record {
        threshold_revenue = to_places 2 tier.threshold_revenue;
        bonus_pct = to_places 2 tier.bonus_pct;
        portion = to_places 2 portion;
        amount = to_places 2 (to_places 2 (share portion tier.bonus_pct));
      } in
      if lte revenue tier.threshold_revenue then [] else if skip then after else entry ∷ after

  -- `computeTierBonus`
  unfoldable pub compute_tier_bonus :
      Decimal → List (CommissionTier Decimal) → Decimal × List (BreakdownEntry Decimal)
  unfolding walk breakdown
  compute_tier_bonus revenue tiers =
      (to_places 2 (walk revenue zero_amount tiers), breakdown revenue tiers)

  -- A row put where its threshold belongs.
  unfoldable pub put_tier :
      CommissionTier Decimal → List (CommissionTier Decimal) → List (CommissionTier Decimal)
  put_tier t [] = t ∷ []
  put_tier t (u ∷ rest) =
      if gt t.threshold_revenue u.threshold_revenue then u ∷ put_tier t rest else t ∷ u ∷ rest

  -- `tierTable`: the rows, ascending by threshold.
  unfoldable pub tier_table : List (CommissionTier Decimal) → List (CommissionTier Decimal)
  unfolding put_tier
  tier_table [] = []
  tier_table (t ∷ rest) = put_tier t (tier_table rest)
