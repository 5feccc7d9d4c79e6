-- ===== src/Roles.antt =====
-- backend/src/roles/roles.controller.ts: the roles that an administrator makes, and
-- `effectivePermissions` of backend/src/common/auth.guard.ts. Changing the case of letters and comparing
-- without it is JavaScript's and the database's, and is a parameter.
pub mod Naming
pub mod Keys
pub mod Removal
use vfw.Roles.Naming.{Casing, free_key}
use vfw.Prelude.{
  ℕ, ◌+◌, Bool, true, false, not, ◌&&◌, Option, none, some, List, [], ◌∷◌, ◌++◌, map, length, ltb,
  if◌then◌else◌,
}
use vfw.Prelude.Words.{same_text, trim}
use vfw.Acl.{
  AuthUser, Permission, all_permissions, role_key, intern, admin, includes, index, admin_manage,
}
use vfw.Store.{Text, Db, Env, role_created, role_updated, role_deleted}
use vfw.Store.Staff.{RoleDef, Account, Invitation}
use vfw.Store.Table.{filter, find_where, modify_where}
use vfw.Store.Audit.{log_action}
use vfw.Store.Call.{
  Call, Result, ok, err, bad_request, not_found, server_error, pure, get, put, guard, or_throw,
  lift, transaction, ◌>>◌, ◌>>=◌,
}

-- A permission that is not one of the known ones is none.
pub record CreateRoleDto : Type 0 where
  pub label : Text
  pub permissions : List (Option Permission)

pub record UpdateRoleDto : Type 0 where
  pub label : Option Text
  pub permissions : Option (List (Option Permission))

-- A role as the screens show it.
pub record RoleRow : Type 0 where
  pub key : Text
  pub label : Text
  pub built_in : Bool
  pub locked : Bool
  pub permissions : List Permission
  pub users : ℕ

-- `ADMIN_ROLE` and `FALLBACK_ROLE`
abbrev pub admin_role : Text
admin_role = role_key admin

abbrev pub fallback_role : Text
fallback_role = role_key intern

-- `effectivePermissions`
unfoldable pub effective_permissions : Text → List Permission → List Permission
unfolding same_text role_key
effective_permissions role stored = if same_text role admin_role then all_permissions else stored

-- `validPermissions`
unfoldable pub valid_permissions : List (Option Permission) → Result (List Permission)
valid_permissions [] = ok []
valid_permissions (none ∷ rest) = err bad_request
valid_permissions (some p ∷ rest) = elim (valid_permissions rest) [
  | ok ps ↦ ok (p ∷ ps)
  | err e ↦ err e
]

abbrev pub has_role_key : Text → RoleDef → Bool
has_role_key key r = same_text r.key key

abbrev pub nothing? : {A : Type 0} → Option A → Bool
nothing? none = true
nothing? (some _) = false

abbrev pub given_or {ℓ} : {A : Type ℓ} → Option A → A → A
given_or none stored = stored
given_or (some v) stored = v

abbrev pub updated_role : Option Text → Option (List Permission) → RoleDef → RoleDef
updated_role label permissions r = record r {
  label = given_or label r.label;
  permissions = given_or permissions r.permissions;
}

abbrev pub clashes : Casing → Text → Option Text → RoleDef → Bool
clashes casing label none r = casing.same_label r.label label
clashes casing label (some key) r = casing.same_label r.label label && not (same_text r.key key)

-- Whether an invitation is used, revoked or deleted.
abbrev pub is_closed : Invitation → Bool
is_closed i = not (nothing? i.used_at && nothing? i.revoked_at && nothing? i.deleted_at)

abbrev pub moved_invitation : Text → Invitation → Invitation
moved_invitation key i = if same_text i.role key then record i { role = fallback_role } else i

abbrev pub no_rows : {A : Type 0} → List A → Bool
no_rows [] = true
no_rows (_ ∷ _) = false

module _ {D : Type 0} where
  abbrev pub with_roles : List RoleDef → Db D → Db D
  with_roles rows db = record db { staff = record db.staff { roles = rows } }

  -- `assertLabelFree`
  unfoldable pub assert_label_free : Casing → Text → Option Text → Call D (Unit {0})
  unfolding find_where same_text
  assert_label_free casing label except = do
    db ← get
    guard (nothing? (find_where (clashes casing label except) db.staff.roles)) bad_request

  -- `create`
  unfoldable pub create_role : Casing → CreateRoleDto → AuthUser → Call D RoleDef
  unfolding trim assert_label_free valid_permissions free_key log_action
  create_role casing dto actor = do
    let label = trim dto.label
    assert_label_free casing label none
    permissions ← lift (valid_permissions dto.permissions)
    db ← get
    key ← or_throw server_error (free_key casing label db.staff.roles)
    let created : RoleDef = record {
      key = key;
      label = label;
      built_in = false;
      permissions = permissions;
    }
    transaction do
      put (with_roles (db.staff.roles ++ (created ∷ [])) db)
      log_action none actor.id role_created
      pure created

  -- The label part of `update`.
  unfoldable pub check_label : Casing → Text → RoleDef → Option Text → Call D (Option Text)
  unfolding trim same_text assert_label_free
  check_label casing key role none = pure none
  check_label casing key role (some raw) =
      elim (same_text (casing.to_lower (trim raw)) (casing.to_lower role.label)) [
        | true ↦ pure (some (trim raw))
        | false ↦ assert_label_free casing (trim raw) (some key) >> pure (some (trim raw))
      ]

  -- The permissions part of `update`.
  unfoldable pub check_permissions :
      Text → AuthUser → Option (List (Option Permission)) → Call D (Option (List Permission))
  unfolding same_text role_key valid_permissions index
  check_permissions key actor none = pure none
  check_permissions key actor (some list) = do
    permissions ←
        lift (if same_text key admin_role then ok all_permissions else valid_permissions list)
    guard (not (same_text key actor.role && not (includes index permissions admin_manage)))
        bad_request
    pure (some permissions)

  -- `update`
  unfoldable pub update_role : Casing → Text → UpdateRoleDto → AuthUser → Call D RoleDef
  unfolding find_where modify_where same_text check_label check_permissions log_action
  update_role casing key dto actor = do
    db ← get
    role ← or_throw not_found (find_where (has_role_key key) db.staff.roles)
    label ← check_label casing key role dto.label
    permissions ← check_permissions key actor dto.permissions
    transaction do
      put (
          with_roles
            (modify_where (has_role_key key) (updated_role label permissions) db.staff.roles) db)
      log_action none actor.id role_updated
      pure (updated_role label permissions role)

  abbrev pub moved : Text → Account D → Account D
  moved key a = if same_text a.role key then record a { role = fallback_role } else a

  -- `remove`
  unfoldable pub remove_role : Env → Text → AuthUser → Call D (Unit {0})
  unfolding find_where filter same_text role_key log_action
  remove_role env key actor = do
    db ← get
    role ← or_throw not_found (find_where (has_role_key key) db.staff.roles)
    guard (not role.built_in) bad_request
    let live_users = filter (λ a. same_text a.role key && not a.deleted) db.staff.accounts
    let open_invitations =
        filter (λ i. same_text i.role key && not (is_closed i) && ltb env.now i.expires_at)
          db.staff.invitations
    guard (no_rows live_users && no_rows open_invitations) bad_request
    transaction do
      put (record db {
        staff = record db.staff {
          accounts = map (moved key) db.staff.accounts;
          invitations = map (moved_invitation key) db.staff.invitations;
          roles = filter (λ r. not (same_text r.key key)) db.staff.roles;
        };
      })
      log_action none actor.id role_deleted

  -- `held.get(key) ?? 0`
  abbrev pub held : Text → List (Account D) → ℕ
  held key accounts = length (filter (λ a. same_text a.role key && not a.deleted) accounts)

  abbrev pub shown : List (Account D) → RoleDef → RoleRow
  shown accounts r = record {
    key = r.key;
    label = r.label;
    built_in = r.built_in;
    locked = same_text r.key admin_role;
    permissions = effective_permissions r.key r.permissions;
    users = held r.key accounts;
  }

  -- The `roles` of `list`, in the order of the table.
  unfoldable pub list : Call D (List RoleRow)
  unfolding same_text role_key effective_permissions filter
  list = do db ← get; pure (map (shown db.staff.accounts) db.staff.roles)
