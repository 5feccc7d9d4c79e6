-- ===== src/Auth/Signup.antt =====
-- backend/src/auth/auth.service.ts: redeeming an invitation (`signup`).
use Prim.Native.String.{String}
use vfw.Prelude.{
  ℕ, Bool, true, false, not, ◌&&◌, ◌||◌, Option, none, some, List, [], ◌∷◌, ◌++◌, ltb,
  if◌then◌else◌,
}
use vfw.Prelude.Words.{same_text, trim}
use vfw.Decimal.{Decimals, zero_amount, of_int}
use vfw.Acl.{role_key, sales}
use vfw.Store.{Text, Db, Env, signup_action}
use vfw.Store.Access.{pending}
use vfw.Store.Staff.{Account, Invitation, commission_only}
use vfw.Store.Table.{find, find_where, modify}
use vfw.Store.Audit.{log_action}
use vfw.Store.Call.{
  Call, bad_request, unavailable, pure, get, guard, or_throw, transaction, ◌>>=◌, ◌>>◌,
}
use vfw.Roles.{is_closed, nothing?}
use vfw.Auth.{Platform, Draws, address, dev_echo, write, with_accounts, has_email}
use vfw.Auth.Otp.{issue_otp, deliver}

-- `SignupDto`, less the role, which is not read.
pub record SignupDto : Type 0 where
  pub code : Text
  pub name : Text
  pub email : Text
  pub password : Text
  pub phone : Option String
  pub department : Option String

pub record SignupReply : Type 0 where
  pub email : Text
  pub dev_otp : Option Text

abbrev pub has_code : Text → Invitation → Bool
has_code code i = same_text i.code code

abbrev pub invitation_id : Invitation → ℕ
invitation_id i = i.id

-- The filter of the update that claims an invitation.
abbrev pub is_claimable : ℕ → Option Invitation → Bool
is_claimable now none = false
is_claimable now (some i) = not (is_closed i) && ltb now i.expires_at

abbrev pub claimed : ℕ → Invitation → Invitation
claimed now i = record i { used_at = some now }

abbrev pub redeemed_by : ℕ → Invitation → Invitation
redeemed_by user_id i = record i { used_by = some user_id }

-- `invitation.email && invitation.email.toLowerCase() !== email`, negated.
abbrev pub is_addressed : Platform → Text → Option Text → Bool
is_addressed platform email none = true
is_addressed platform email (some []) = true
is_addressed platform email (some (c ∷ cs)) = same_text (platform.to_lower (c ∷ cs)) email

-- `a ?? b`
abbrev pub else_use : Option String → Option String → Option String
else_use none b = b
else_use (some a) b = some a

module _ {D : Type 0} where
  abbrev pub with_invitations : List Invitation → Db D → Db D
  with_invitations rows db = record db { staff = record db.staff { invitations = rows } }

  abbrev pub change_invitation : ℕ → (Invitation → Invitation) → Call D (Unit {0})
  change_invitation id f =
      write λ db. with_invitations (modify invitation_id id f db.staff.invitations) db

  abbrev pub add_account : Account D → Call D (Unit {0})
  add_account a = write λ db. with_accounts (db.staff.accounts ++ (a ∷ [])) db

module _ ⦃d : Decimals⦄ where
  open d use {Decimal}

  -- The row that `signup` creates; the columns it does not name have their defaults.
  abbrev pub new_account : Platform → Env → Draws → SignupDto → Invitation → Account Decimal
  new_account platform env draws dto invitation = record {
    id = env.new_id;
    email = address platform dto.email;
    name = trim dto.name;
    phone = dto.phone;
    role = invitation.role;
    department = else_use invitation.department dto.department;
    status = pending;
    credentials = record {
      password_hash = some (platform.hash draws.salt dto.password);
      token_version = 0;
      google_id = none;
      totp_enabled = false;
      totp_secret = none;
    };
    hidden = false;
    deleted = false;
    pay_type = commission_only;
    base_rate = zero_amount;
    earns_commission = true;
    commission_pct = if same_text invitation.role (role_key sales) then of_int 8 else zero_amount;
    target = if same_text invitation.role (role_key sales) then of_int 60_000 else zero_amount;
  }

  -- The transaction of `signup`.
  unfoldable pub redeem : Platform → Env → Draws → SignupDto → Invitation → Call Decimal (Unit {0})
  unfolding find modify log_action same_text role_key trim
  redeem platform env draws dto invitation = transaction do
    db ← get
    guard (is_claimable env.now (find invitation_id invitation.id db.staff.invitations)) bad_request
    change_invitation invitation.id (claimed env.now)
    add_account (new_account platform env draws dto invitation)
    change_invitation invitation.id (redeemed_by env.new_id)
    log_action none env.new_id signup_action

  -- `signup`
  unfoldable pub signup : Platform → Env → Draws → SignupDto → Call Decimal SignupReply
  unfolding trim find_where same_text redeem issue_otp
  signup platform env draws dto = do
    guard (platform.email_configured || dev_echo platform) unavailable
    db ← get
    guard (nothing? (find_where (has_email (address platform dto.email)) db.staff.accounts))
        bad_request
    invitation ←
        or_throw bad_request
          (find_where (has_code (platform.to_upper (trim dto.code))) db.staff.invitations)
    guard (not (is_closed invitation)) bad_request
    guard (ltb env.now invitation.expires_at) bad_request
    guard (is_addressed platform (address platform dto.email) invitation.email) bad_request
    redeem platform env draws dto invitation
    code ← issue_otp platform env draws env.new_id
    echoed ← deliver platform draws code
    pure (record { email = address platform dto.email; dev_otp = echoed })
