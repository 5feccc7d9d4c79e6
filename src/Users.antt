-- ===== src/Users.antt =====
-- backend/src/admin/admin.service.ts: deciding on accounts and deleting them. The audit payloads are
-- left out.
pub mod Editing
pub mod Invitations
use Prim.Native.String.{String}
use text.Mathlib.Text.{◌==◌ as str_eq}
use vfw.Prelude.{
  ℕ, ◌+◌, Bool, true, false, not, ◌&&◌, ◌||◌, ◌==◌, Option, none, some, List, [], ◌∷◌, length, ltb,
  if◌then◌else◌,
}
use vfw.Prelude.Words.{same_text, trim}
use vfw.Decimal.{Decimals, hundred, r2}
use vfw.Acl.{AuthUser, role_key}
use vfw.Store.{Text, Db, Env, user_updated, user_deleted, user_approved, user_rejected}
use vfw.Store.Access.{UserStatus, pending, active, rejected, disabled, is_active, is_pending}
use vfw.Store.Staff.{Account, PayType, commission_only, salary, hourly}
use vfw.Store.Table.{find, find_where, filter, modify}
use vfw.Store.Audit.{log_action}
use vfw.Store.Call.{
  Call, bad_request, not_found, pure, get, guard, or_throw, transaction, ◌>>=◌, ◌>>◌,
}
use vfw.Roles.{admin_role, has_role_key, nothing?, given_or}
use vfw.Auth.{account_id, change_account}
use vfw.Auth.Otp.{activated}

module _ {D : Type 0} where
  -- `findFirst({ where: { id, deletedAt: null } })`
  abbrev pub live_account : ℕ → Call D (Account D)
  live_account id = do
    db ← get
    user ← or_throw not_found (find account_id id db.staff.accounts)
    guard (not user.deleted) not_found
    pure user

  -- Who can administer the system.
  unfoldable pub is_admin : Account D → Bool
  unfolding same_text role_key
  is_admin a = same_text a.role admin_role && is_active a.status && not a.deleted

  -- `otherActiveAdmins`
  unfoldable pub other_active_admins : ℕ → List (Account D) → ℕ
  unfolding filter is_admin
  other_active_admins id accounts = length (filter (λ a. not (a.id == id) && is_admin a) accounts)

  -- `assertRole`
  abbrev pub assert_role : Text → Call D (Unit {0})
  assert_role key = get >>= λ db.
      guard (not (nothing? (find_where (has_role_key key) db.staff.roles))) bad_request

  abbrev pub retired : Account D → Account D
  retired a = record a {
    deleted = true;
    credentials = record a.credentials { token_version = a.credentials.token_version + 1 };
  }

  abbrev pub turned_down : Account D → Account D
  turned_down a = record a { status = rejected }

  -- `deleteUser`
  unfoldable pub delete_user : ℕ → AuthUser → Call D (Unit {0})
  unfolding find modify same_text role_key other_active_admins log_action
  delete_user id actor = do
    user ← live_account id
    guard (not (user.id == actor.id)) bad_request
    db ← get
    guard
        (not (same_text user.role admin_role && other_active_admins user.id db.staff.accounts == 0))
        bad_request
    transaction do change_account id retired; log_action none actor.id user_deleted

  -- `approveUser`
  unfoldable pub approve_user : ℕ → AuthUser → Call D (Account D)
  unfolding find modify log_action
  approve_user id actor = do
    user ← live_account id
    guard (is_pending user.status) bad_request
    transaction do
      change_account id activated
      log_action none actor.id user_approved
      pure (activated user)

  -- `rejectUser`
  unfoldable pub reject_user : ℕ → AuthUser → Call D (Account D)
  unfolding find modify log_action
  reject_user id actor = do
    user ← live_account id
    guard (is_pending user.status) bad_request
    transaction do
      change_account id turned_down
      log_action none actor.id user_rejected
      pure (turned_down user)

  -- What `listUsers` shows, in the order of the table.
  unfoldable pub list_users : Call D (List (Account D))
  unfolding filter
  list_users = do db ← get; pure (filter (λ a. not a.hidden && not a.deleted) db.staff.accounts)

  -- What `pendingUsers` shows.
  unfoldable pub pending_users : Call D (List (Account D))
  unfolding filter
  pending_users = do
    db ← get
    pure (filter (λ a. is_pending a.status && not a.hidden && not a.deleted) db.staff.accounts)
