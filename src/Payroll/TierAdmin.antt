-- ===== src/Payroll/TierAdmin.antt =====
-- backend/src/payroll/payroll.service.ts: `createTier`, `updateTier`, `deleteTier`.
use vfw.Prelude.{ℕ, Bool, true, false, not, Option, none, some, List, [], ◌∷◌, ◌++◌, ◌==◌, ◌||◌}
use vfw.Decimal.{Decimals, hundred}
use vfw.Acl.{AuthUser}
use vfw.Store.{Db, Env, tier_created, tier_updated, tier_deleted}
use vfw.Store.Staff.{CommissionTier}
use vfw.Store.Table.{find, modify, filter, find_where}
use vfw.Store.Audit.{log_action}
use vfw.Store.Call.{
  Call, bad_request, not_found, pure, get, put, guard, or_throw, transaction, ◌>>=◌, ◌>>◌,
}
use vfw.Payroll.{decimal}

-- `UpdateCommissionTierDto`: a figure that was not sent is none, and a text that is no finite number is
-- `some none`. `CreateCommissionTierDto` has both figures.
pub record TierDto (D : Type 0) : Type 0 where
  pub threshold_revenue : Option D
  pub bonus_pct : Option D

pub record TierChangeDto (D : Type 0) : Type 0 where
  pub threshold_revenue : Option (Option D)
  pub bonus_pct : Option (Option D)

abbrev is_some : {A : Type 0} → Option A → Bool
is_some none = false
is_some (some _) = true

module _ {D : Type 0} where
  abbrev pub tier_id : CommissionTier D → ℕ
  tier_id t = t.id

  abbrev pub with_tiers : List (CommissionTier D) → Db D → Db D
  with_tiers rows db = record db { staff = record db.staff { tiers = rows } }

  -- `deleteTier`
  unfoldable pub delete_tier : ℕ → AuthUser → Call D (Unit {0})
  unfolding find filter log_action
  delete_tier id actor = do
    db ← get
    tier ← or_throw not_found (find tier_id id db.staff.tiers)
    transaction do
      put (with_tiers (filter (λ t. not (t.id == id)) db.staff.tiers) db)
      log_action none actor.id tier_deleted

  abbrev pub is_clash : Option (CommissionTier D) → ℕ → Bool
  is_clash none id = false
  is_clash (some t) id = not (t.id == id)

module _ ⦃d : Decimals⦄ where
  open d use {Decimal, gt, equals, to_places}

  -- `commissionTier.findUnique({ where: { thresholdRevenue } })`
  unfoldable pub tier_at : Decimal → List (CommissionTier Decimal) → Option (CommissionTier Decimal)
  unfolding find_where
  tier_at threshold = find_where (λ t. equals t.threshold_revenue threshold)

  -- `createTier`
  unfoldable pub create_tier :
      Env → TierDto Decimal → AuthUser → Call Decimal (CommissionTier Decimal)
  unfolding decimal tier_at log_action
  create_tier env dto actor = do
    threshold ← decimal dto.threshold_revenue
    bonus ← decimal dto.bonus_pct
    guard (not (gt bonus hundred)) bad_request
    db ← get
    guard (not (is_some (tier_at (to_places 2 threshold) db.staff.tiers))) bad_request
    let created : CommissionTier Decimal = record {
      id = env.new_id;
      threshold_revenue = to_places 2 threshold;
      bonus_pct = to_places 2 bonus;
    }
    transaction do
      put (with_tiers (db.staff.tiers ++ (created ∷ [])) db)
      log_action none actor.id tier_created
      pure created

  -- `data.thresholdRevenue` of `updateTier`: none where nothing is to change.
  unfoldable pub new_threshold :
      ℕ → CommissionTier Decimal → Option (Option Decimal) → Call Decimal (Option Decimal)
  unfolding decimal tier_at
  new_threshold id tier none = pure none
  new_threshold id tier (some raw) = do
    next ← decimal raw
    db ← get
    elim (equals (to_places 2 next) (to_places 2 tier.threshold_revenue)) [
      | true ↦ pure none
      | false ↦
          guard (not (is_clash (tier_at (to_places 2 next) db.staff.tiers) id)) bad_request
          >> pure (some (to_places 2 next))
    ]

  -- `data.bonusPct`
  unfoldable pub new_bonus :
      CommissionTier Decimal → Option (Option Decimal) → Call Decimal (Option Decimal)
  unfolding decimal
  new_bonus tier none = pure none
  new_bonus tier (some raw) = do
    next ← decimal raw
    guard (not (gt next hundred)) bad_request
    elim (equals (to_places 2 next) (to_places 2 tier.bonus_pct)) [
      | true ↦ pure none
      | false ↦ pure (some (to_places 2 next))
    ]

  abbrev pub changed_or : Option Decimal → Decimal → Decimal
  changed_or none stored = stored
  changed_or (some v) stored = v

  abbrev pub changed :
      Option Decimal → Option Decimal → CommissionTier Decimal → CommissionTier Decimal
  changed threshold bonus t = record t {
    threshold_revenue = changed_or threshold t.threshold_revenue;
    bonus_pct = changed_or bonus t.bonus_pct;
  }

  -- `updateTier`
  unfoldable pub update_tier :
      ℕ → TierChangeDto Decimal → AuthUser → Call Decimal (CommissionTier Decimal)
  unfolding find modify new_threshold new_bonus log_action
  update_tier id dto actor = do
    db ← get
    tier ← or_throw not_found (find tier_id id db.staff.tiers)
    threshold ← new_threshold id tier dto.threshold_revenue
    bonus ← new_bonus tier dto.bonus_pct
    guard (is_some threshold || is_some bonus) bad_request
    transaction do
      put (with_tiers (modify tier_id id (changed threshold bonus) db.staff.tiers) db)
      log_action none actor.id tier_updated
      pure (changed threshold bonus tier)
