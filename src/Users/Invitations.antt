-- ===== src/Users/Invitations.antt =====
-- backend/src/admin/admin.service.ts: invitations. Whether the mail of a new one was sent changes nothing
-- but the reply, and is left out of it.
use Prim.Native.String.{String}
use text.Mathlib.Text.{◌==◌ as str_eq}
use vfw.Prelude.{
  ℕ, ◌+◌, ◌*◌, Bool, true, false, not, ◌||◌, Option, none, some, List, [], ◌∷◌, ◌++◌, map, get_or,
  leb, if◌then◌else◌,
}
use vfw.Prelude.Words.{same_text, trim}
use vfw.Acl.{AuthUser}
use vfw.Store.{Text, Env, invite_created, invite_updated, invite_deleted, invite_revoked}
use vfw.Store.Staff.{Invitation}
use vfw.Store.Table.{filter, find, find_where, modify}
use vfw.Store.Audit.{log_action}
use vfw.Store.Call.{
  branch, Call, bad_request, not_found, pure, get, guard, or_throw, transaction, ◌>>=◌, ◌>>◌,
}
use vfw.Roles.{has_role_key, nothing?, given_or}
use vfw.Auth.{Platform, address, write, has_email}
use vfw.Auth.Signup.{has_code, invitation_id, with_invitations, change_invitation}

-- `InvitationStatus`
pub data InvitationStatus : Type 0 where
  live spent withdrawn lapsed : InvitationStatus

pub record CreateInvitationDto : Type 0 where
  pub role : Text
  pub department : Option String
  pub email : Option Text
  pub expires_in_days : Option ℕ

-- An address of none inside takes the address away.
pub record UpdateInvitationDto : Type 0 where
  pub role : Option Text
  pub department : Option String
  pub email : Option (Option Text)

-- `invitationStatus`
unfoldable pub invitation_status : ℕ → Invitation → InvitationStatus
invitation_status now i =
    if not (nothing? i.revoked_at)
    then withdrawn
    else if not (nothing? i.used_at)
    then spent
    else if leb i.expires_at now
    then lapsed
    else live

-- `CODE_ALPHABET`, `DEFAULT_EXPIRY_DAYS` and the milliseconds of a day
abbrev pub code_alphabet : Text
code_alphabet =
    b'A' ∷ b'B' ∷ b'C' ∷ b'D' ∷ b'E' ∷ b'F' ∷ b'G' ∷ b'H' ∷ b'J' ∷ b'K' ∷ b'L' ∷ b'M' ∷ b'N' ∷ b'P'
    ∷ b'Q' ∷ b'R' ∷ b'S' ∷ b'T' ∷ b'U' ∷ b'V' ∷ b'W' ∷ b'X' ∷ b'Y' ∷ b'Z' ∷ b'2' ∷ b'3' ∷ b'4'
    ∷ b'5' ∷ b'6' ∷ b'7' ∷ b'8' ∷ b'9' ∷ []

abbrev pub default_expiry_days : ℕ
default_expiry_days = 14

abbrev pub day_ms : ℕ
day_ms = 86_400_000

-- `VFW-` and the letters that were drawn.
abbrev pub code_of : List ℕ → Text
code_of drawn = b'V' ∷ b'F' ∷ b'W' ∷ b'-' ∷ map (λ n. get_or code_alphabet n b'A') drawn

-- `uniqueCode`, given the draws of its rounds: ten of six letters.
unfoldable pub unique_code : List (List ℕ) → List Invitation → Option Text
unfolding find_where same_text
unique_code [] rows = none
unique_code (drawn ∷ rest) rows =
    let next = unique_code rest rows in
    if nothing? (find_where (has_code (code_of drawn)) rows) then some (code_of drawn) else next

abbrev pub normal_email : Platform → Option Text → Option Text
normal_email platform none = none
normal_email platform (some raw) = some (address platform raw)

-- `email && …`: an address that is empty counts as none.
abbrev pub filled : Option Text → Option Text
filled none = none
filled (some []) = none
filled (some (c ∷ cs)) = some (c ∷ cs)

abbrev pub same_text? : Option Text → Option Text → Bool
same_text? none none = true
same_text? (some a) (some b) = same_text a b
same_text? _ _ = false

abbrev pub same_department : Option String → Option String → Bool
same_department none none = true
same_department (some a) (some b) = str_eq a b
same_department _ _ = false

-- `next !== undefined && next !== stored`, where none is undefined.
abbrev pub gives_role : Option Text → Text → Bool
gives_role none stored = false
gives_role (some next) stored = not (same_text next stored)

abbrev pub gives_department : Option String → Option String → Bool
gives_department none stored = false
gives_department (some next) stored = not (same_department (some next) stored)

abbrev pub gives_email : Option (Option Text) → Option Text → Bool
gives_email none stored = false
gives_email (some next) stored = not (same_text? next stored)

abbrev pub or_department : Option String → Option String → Option String
or_department none stored = stored
or_department (some next) stored = some next

abbrev pub normal_email? : Platform → Option (Option Text) → Option (Option Text)
normal_email? platform none = none
normal_email? platform (some email) = some (normal_email platform email)

-- The write of `updateInvitation`.
abbrev pub rewritten : Option Text → Option String → Option (Option Text) → Invitation → Invitation
rewritten role department email i = record i {
  role = given_or role i.role;
  department = or_department department i.department;
  email = given_or email i.email;
}

abbrev pub binned : ℕ → Invitation → Invitation
binned now i = record i { deleted_at = some now }

abbrev pub revoked : ℕ → Invitation → Invitation
revoked now i = record i { revoked_at = some now }

abbrev pub issued : Env → CreateInvitationDto → Option Text → Text → AuthUser → Invitation
issued env dto email code user = record {
  id = env.new_id;
  code = code;
  role = dto.role;
  department = dto.department;
  email = email;
  expires_at = env.now + given_or dto.expires_in_days default_expiry_days * day_ms;
  used_at = none;
  used_by = none;
  revoked_at = none;
  deleted_at = none;
  created_by = user.id;
}

module _ {D : Type 0} where
  -- No account has the address.
  abbrev pub assert_free : Option Text → Call D (Unit {0})
  assert_free none = pure tt
  assert_free (some email) =
      get >>= λ db. guard (nothing? (find_where (has_email email) db.staff.accounts)) bad_request

  abbrev pub assert_known_role : Text → Call D (Unit {0})
  assert_known_role key = get >>= λ db.
      guard (not (nothing? (find_where (has_role_key key) db.staff.roles))) bad_request

  -- `createInvitation`
  unfoldable pub create_invitation :
      Platform → Env → List (List ℕ) → CreateInvitationDto → AuthUser → Call D Invitation
  unfolding trim find_where same_text unique_code log_action
  create_invitation platform env drawn dto user = do
    let email = normal_email platform dto.email
    assert_free (filled email)
    assert_known_role dto.role
    db ← get
    code ← or_throw bad_request (unique_code drawn db.staff.invitations)
    transaction do
      write λ db'.
          with_invitations (db'.staff.invitations ++ (issued env dto email code user ∷ [])) db'
      log_action none user.id invite_created
      pure (issued env dto email code user)

  -- `findFirst({ where: { id, deletedAt: null } })`
  abbrev pub live_invitation : ℕ → Call D Invitation
  live_invitation id = do
    db ← get
    i ← or_throw not_found (find invitation_id id db.staff.invitations)
    guard (nothing? i.deleted_at) not_found
    pure i

  -- The checks of `updateInvitation` on the fields.
  abbrev pub assert_new_email : Option (Option Text) → Invitation → Call D (Unit {0})
  assert_new_email none i = pure tt
  assert_new_email (some email) i =
      branch (same_text? email i.email) (pure tt) (assert_free (filled email))

  abbrev pub assert_given_role : Option Text → Invitation → Call D (Unit {0})
  assert_given_role none i = pure tt
  assert_given_role (some key) i = branch (same_text key i.role) (pure tt) (assert_known_role key)

  -- `updateInvitation`
  unfoldable pub update_invitation :
      Platform → ℕ → UpdateInvitationDto → AuthUser → Call D Invitation
  unfolding find modify trim find_where same_text log_action
  update_invitation platform id dto actor = do
    i ← live_invitation id
    guard (nothing? i.used_at) bad_request
    let email = normal_email? platform dto.email
    assert_new_email email i
    assert_given_role dto.role i
    let has_change =
        gives_role dto.role i.role
        || gives_department dto.department i.department
        || gives_email email i.email
    branch (not has_change) (pure i) do
      transaction do
        change_invitation id (rewritten dto.role dto.department email)
        log_action none actor.id invite_updated
        pure (rewritten dto.role dto.department email i)

  -- `deleteInvitation`
  unfoldable pub delete_invitation : Env → ℕ → AuthUser → Call D (Unit {0})
  unfolding find modify log_action
  delete_invitation env id actor = do
    i ← live_invitation id
    transaction do change_invitation id (binned env.now); log_action none actor.id invite_deleted

  -- `revokeInvitation`
  unfoldable pub revoke_invitation : Env → ℕ → AuthUser → Call D Invitation
  unfolding find modify log_action
  revoke_invitation env id user = do
    db ← get
    i ← or_throw not_found (find invitation_id id db.staff.invitations)
    guard (nothing? i.used_at) bad_request
    guard (nothing? i.revoked_at) bad_request
    transaction do
      change_invitation id (revoked env.now)
      log_action none user.id invite_revoked
      pure (revoked env.now i)

  -- The rows and the statuses that `listInvitations` shows, in the order of the table.
  unfoldable pub list_invitations : Env → Call D (List (Invitation × InvitationStatus))
  unfolding filter invitation_status
  list_invitations env = do
    db ← get
    pure (
        map (λ i. (i, invitation_status env.now i))
          (filter (λ i. nothing? i.deleted_at) db.staff.invitations))
