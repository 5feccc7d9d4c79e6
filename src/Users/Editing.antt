-- ===== src/Users/Editing.antt =====
-- backend/src/admin/admin.service.ts: editing an account (`updateUser`).
use Prim.Native.String.{String}
use text.Mathlib.Text.{◌==◌ as str_eq}
use vfw.Prelude.{
  ℕ, ◌+◌, Bool, true, false, not, ◌&&◌, ◌||◌, ◌==◌, Option, none, some, if◌then◌else◌,
}
use vfw.Prelude.Words.{same_text, trim}
use vfw.Decimal.{Decimals, hundred, r2}
use vfw.Acl.{AuthUser, role_key}
use vfw.Store.{Text, user_updated}
use vfw.Store.Access.{UserStatus, active, disabled}
use vfw.Store.Staff.{Account, PayType, commission_only, salary, hourly}
use vfw.Store.Table.{find, find_where, modify}
use vfw.Store.Audit.{log_action}
use vfw.Store.Call.{branch, Call, bad_request, pure, get, guard, or_throw, transaction, ◌>>=◌, ◌>>◌}
use vfw.Roles.{admin_role, given_or}
use vfw.Auth.{change_account}
use vfw.Users.{live_account, other_active_admins, assert_role}

-- The statuses that an edit may give.
pub data Standing : Type 0 where
  enabled suspended : Standing

-- `UpdateUserDto`: of a number, whether it was given, and then what it says if it is one.
pub record UpdateUserDto (D : Type 0) : Type 0 where
  pub name : Option Text
  pub phone : Option (Option String)
  pub role : Option Text
  pub status : Option Standing
  pub commission_pct : Option (Option D)
  pub target : Option (Option D)
  pub department : Option (Option String)
  pub pay_type : Option PayType
  pub base_rate : Option (Option D)
  pub earns_commission : Option Bool

abbrev pub status_of : Standing → UserStatus
status_of enabled = active
status_of suspended = disabled

-- `status !== user.status`, for a status that an edit may give.
abbrev pub leaves : Standing → UserStatus → Bool
leaves enabled active = false
leaves suspended disabled = false
leaves _ _ = true

abbrev pub is_settled : UserStatus → Bool
is_settled active = true
is_settled disabled = true
is_settled _ = false

abbrev pub is_commission_only : PayType → Bool
is_commission_only commission_only = true
is_commission_only _ = false

abbrev pub same_pay_type : PayType → PayType → Bool
same_pay_type commission_only commission_only = true
same_pay_type salary salary = true
same_pay_type hourly hourly = true
same_pay_type _ _ = false

abbrev pub same_flag : Bool → Bool → Bool
same_flag true b = b
same_flag false b = not b

abbrev pub same_string? : Option String → Option String → Bool
same_string? none none = true
same_string? (some a) (some b) = str_eq a b
same_string? _ _ = false

-- `next !== undefined && next !== stored`
abbrev pub differs {ℓ} : {A : Type ℓ} → (A → A → Bool) → Option A → A → Bool
differs same none stored = false
differs same (some next) stored = not (same next stored)

-- `next !== undefined && next !== stored`, of a status.
abbrev pub moves : Option Standing → UserStatus → Bool
moves none stored = false
moves (some next) stored = leaves next stored

abbrev pub trimmed : Option Text → Option Text
trimmed none = none
trimmed (some name) = some (trim name)

abbrev pub suspends : Option Standing → Bool
suspends (some suspended) = true
suspends _ = false

abbrev pub standing_or : Option Standing → UserStatus → UserStatus
standing_or none stored = stored
standing_or (some next) stored = status_of next

module _ {D : Type 0} where
  -- Of the role that an edit gives, if it is another one.
  abbrev pub assert_new_role : Option Text → Account D → Call D (Unit {0})
  assert_new_role none user = pure tt
  assert_new_role (some key) user = branch (same_text key user.role) (pure tt) (assert_role key)

module _ ⦃d : Decimals⦄ where
  open d use {Decimal, is_negative, gt, equals, to_places}

  -- `decimal`
  abbrev pub positive : Option Decimal → Call Decimal Decimal
  positive raw = do
    value ← or_throw bad_request raw
    guard (not (is_negative value)) bad_request
    pure value

  -- A number with two places, if one is given.
  abbrev pub two_places : Option (Option Decimal) → Call Decimal (Option Decimal)
  two_places none = pure none
  two_places (some raw) = positive raw >>= λ value. pure (some (r2 value))

  abbrev pub percentage : Option (Option Decimal) → Call Decimal (Option Decimal)
  percentage none = pure none
  percentage (some raw) =
      positive raw >>= λ pct. guard (not (gt pct hundred)) bad_request >> pure (some (r2 pct))

  -- `next !== stored.toFixed(2)`
  abbrev pub same_amount : Decimal → Decimal → Bool
  same_amount next stored = equals next (r2 stored)

  abbrev pub replaced : Option Decimal → Decimal → Decimal
  replaced none stored = stored
  replaced (some next) stored = if same_amount next stored then stored else next

  -- The numbers of an edit, once they are checked.
  pub record Amounts : Type 0 where
    pub commission_pct : Option Decimal
    pub target : Option Decimal
    pub base_rate : Option Decimal

  -- Whether `data` has a key.
  unfoldable pub has_change : UpdateUserDto Decimal → Amounts → Account Decimal → Bool
  unfolding trim same_text
  has_change dto amounts user =
      differs same_text (trimmed dto.name) user.name
      || differs same_string? dto.phone user.phone
      || differs same_text dto.role user.role
      || differs same_string? dto.department user.department
      || differs same_amount amounts.commission_pct user.commission_pct
      || differs same_amount amounts.target user.target
      || differs same_pay_type dto.pay_type user.pay_type
      || differs same_flag dto.earns_commission user.earns_commission
      || differs same_amount amounts.base_rate user.base_rate
      || moves dto.status user.status

  -- The write of `updateUser`.
  unfoldable pub edited : UpdateUserDto Decimal → Amounts → Account Decimal → Account Decimal
  unfolding trim
  edited dto amounts a = record a {
    name = given_or (trimmed dto.name) a.name;
    phone = given_or dto.phone a.phone;
    role = given_or dto.role a.role;
    department = given_or dto.department a.department;
    status = standing_or dto.status a.status;
    credentials = record a.credentials {
      token_version =
          if moves dto.status a.status && suspends dto.status
          then a.credentials.token_version + 1
          else a.credentials.token_version;
    };
    pay_type = given_or dto.pay_type a.pay_type;
    base_rate = replaced amounts.base_rate a.base_rate;
    earns_commission = given_or dto.earns_commission a.earns_commission;
    commission_pct = replaced amounts.commission_pct a.commission_pct;
    target = replaced amounts.target a.target;
  }

  -- `demoting || suspending`
  abbrev pub steps_down : UpdateUserDto Decimal → Account Decimal → Bool
  steps_down dto user =
      (differs same_text dto.role user.role && same_text user.role admin_role)
      || (suspends dto.status && moves dto.status user.status)

  -- What `updateUser` refuses, before it looks at the fields.
  unfoldable pub assert_allowed :
      UpdateUserDto Decimal → Account Decimal → AuthUser → Call Decimal (Unit {0})
  unfolding same_text role_key other_active_admins
  assert_allowed dto user actor = do
    guard (not (user.id == actor.id && differs same_text dto.role user.role)) bad_request
    guard (not (user.id == actor.id && moves dto.status user.status)) bad_request
    guard (not (moves dto.status user.status && not (is_settled user.status))) bad_request
    db ← get
    guard (not (steps_down dto user && other_active_admins user.id db.staff.accounts == 0))
        bad_request

  -- The checks of the fields, in the order of the source.
  unfoldable pub checked_amounts : UpdateUserDto Decimal → Account Decimal → Call Decimal Amounts
  unfolding same_text find_where
  checked_amounts dto user = do
    assert_new_role dto.role user
    pct ← percentage dto.commission_pct
    target ← two_places dto.target
    guard
        (not (
          is_commission_only (given_or dto.pay_type user.pay_type)
          && not (given_or dto.earns_commission user.earns_commission)))
        bad_request
    rate ← two_places dto.base_rate
    pure (record { commission_pct = pct; target = target; base_rate = rate })

  -- The end of `updateUser`: an edit that changes nothing writes nothing.
  unfoldable pub write_edit :
      ℕ
      → UpdateUserDto Decimal
      → Amounts
      → Account Decimal
      → AuthUser
      → Call Decimal (Account Decimal)
  unfolding modify has_change edited log_action
  write_edit id dto amounts user actor = branch (not (has_change dto amounts user)) (pure user) do
    transaction do
      change_account id (edited dto amounts)
      log_action none actor.id user_updated
      pure (edited dto amounts user)

  -- `updateUser`
  unfoldable pub update_user : ℕ → UpdateUserDto Decimal → AuthUser → Call Decimal (Account Decimal)
  unfolding find assert_allowed checked_amounts write_edit
  update_user id dto actor = do
    user ← live_account id
    assert_allowed dto user actor
    amounts ← checked_amounts dto user
    write_edit id dto amounts user actor
