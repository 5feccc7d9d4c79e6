-- ===== src/Auth.antt =====
-- backend/src/auth/auth.service.ts: signing in with a password, with Google and with a second factor.
-- Hashing, tokens, one-time passwords and the case of letters belong to libraries, and are the fields of
-- `Platform`; the telemetry line of a sign-in is left out. This file holds what the handlers share.
pub mod Login
pub mod Otp
pub mod Signup
pub mod Recovery
pub mod Session
pub mod Tries
pub mod Lockout
pub mod Return
pub mod Replies
pub mod Guarded
use Prim.Native.String.{String}
use vfw.Prelude.{
  ℕ, ◌+◌, ◌*◌, Bool, true, false, not, ◌&&◌, ◌==◌, Option, none, some, List, [], ◌∷◌, map, length,
  ltb, leb, if◌then◌else◌,
}
use vfw.Prelude.Words.{same_text, trim}
use vfw.Acl.{AuthUser, Permission}
use vfw.Store.{Text, Db, Env, google_sso_linked}
use vfw.Store.Access.{LoginAttempt, Credentials, is_active}
use vfw.Store.Staff.{Account, RoleDef}
use vfw.Store.Table.{modify, find, find_where, filter, modify}
use vfw.Store.Audit.{log_action}
use vfw.Store.Call.{
  Call, Result, unauthorized, server_error, pure, throw, get, guard, or_throw, lift, ◌>>=◌, ◌>>◌,
}
use vfw.Roles.{has_role_key, effective_permissions}

-- What a signed token says: `SessionClaims`, less the address and the name; the challenge that
-- `signTotpChallenge` signs; or anything else.
pub record SessionClaims : Type 0 where
  pub id : ℕ
  pub role : Text
  pub tv : ℕ

pub data Claims : Type 0 where
  session : SessionClaims → Claims
  totp_challenge : ℕ → Claims
  other_claims : Claims

-- The libraries and the settings of the process.
pub record Platform : Type 0 where
  pub to_lower : Text → Text
  pub to_upper : Text → Text
  -- `argon2.hash`, with its salt, and `argon2.verify`, which answers false where it fails.
  pub hash : String → Text → String
  pub verify : String → Text → Bool
  -- `jwt.signAsync` and `jwt.verifyAsync` at a time.
  pub sign_token : ℕ → Claims → Text
  pub read_token : ℕ → Text → Option Claims
  -- `decryptSecret`, and `verify` of otplib at a time.
  pub decrypt : String → Option String
  pub totp_valid : ℕ → String → Text → Bool
  pub email_configured : Bool
  pub production : Bool
  pub echo_links : Bool

-- What chance and the mail server give to one call.
pub record Draws : Type 0 where
  pub salt : String
  pub reset_token : Text
  pub otp : ℕ
  pub otp_id : ℕ
  pub email_sent : Bool

pub data LoginResult : Type 0 where
  signed_in : AuthUser → Text → LoginResult
  totp_required : Text → LoginResult

-- `GoogleUserInfo`, its address taken to be there.
pub record GoogleUserInfo : Type 0 where
  pub sub : Text
  pub email : Text

-- `MAX_ATTEMPTS` and `LOCKOUT_MS`
abbrev pub max_attempts : ℕ
max_attempts = 5

abbrev pub lockout_ms : ℕ
lockout_ms = 15 * 60 * 1_000

-- `devEcho`
abbrev pub dev_echo : Platform → Bool
dev_echo platform = not platform.production && platform.echo_links

abbrev pub address : Platform → Text → Text
address platform raw = platform.to_lower (trim raw)

-- A write to the database.
abbrev pub write : {D : Type 0} → (Db D → Db D) → Call D (Unit {0})
write f db = (Result.ok tt, f db)

abbrev pub is_for : Text → LoginAttempt → Bool
is_for email a = same_text a.email email

-- `loginAttempt.upsert`
unfoldable pub put_attempt : LoginAttempt → List LoginAttempt → List LoginAttempt
unfolding same_text
put_attempt row [] = row ∷ []
put_attempt row (a ∷ rest) = if is_for row.email a then row ∷ rest else a ∷ put_attempt row rest

-- `prev?.count ?? 0`
abbrev pub failures : Option LoginAttempt → ℕ
failures none = 0
failures (some a) = a.count

-- Whether a lock, if there is one, ends after a time.
abbrev pub ends_after : Option ℕ → ℕ → Bool
ends_after none now = false
ends_after (some end) now = ltb now end

abbrev pub is_locked : ℕ → Option LoginAttempt → Bool
is_locked now none = false
is_locked now (some a) = ends_after a.lock_until now

abbrev pub failed_again : ℕ → Text → Option LoginAttempt → LoginAttempt
failed_again now email prev = record {
  email = email;
  count = failures prev + 1;
  lock_until = if leb max_attempts (failures prev + 1) then some (now + lockout_ms) else none;
}

-- `argon2.verify`, for an account whose password nobody has.
abbrev pub vouches : Platform → Option String → Text → Bool
vouches platform none password = false
vouches platform (some hash) password = platform.verify hash password

-- `sign`
abbrev pub sign_session : Platform → Env → AuthUser → ℕ → Text
sign_session platform env user token_version =
    platform.sign_token env.now
      (session (record { id = user.id; role = user.role; tv = token_version }))

-- `roleDef?.permissions ?? []`
abbrev pub stored_permissions : Option RoleDef → List Permission
stored_permissions none = []
stored_permissions (some r) = r.permissions

module _ {D : Type 0} where
  abbrev pub with_accounts : List (Account D) → Db D → Db D
  with_accounts rows db = record db { staff = record db.staff { accounts = rows } }

  abbrev pub with_attempts : List LoginAttempt → Db D → Db D
  with_attempts rows db = record db {
    staff = record db.staff { access = record db.staff.access { attempts = rows } };
  }

  abbrev pub account_id : Account D → ℕ
  account_id a = a.id

  abbrev pub change_account : ℕ → (Account D → Account D) → Call D (Unit {0})
  change_account id f = write λ db. with_accounts (modify account_id id f db.staff.accounts) db

  abbrev pub has_email : Text → Account D → Bool
  has_email email a = same_text a.email email

  abbrev pub has_google_id : Text → Account D → Bool
  has_google_id sub a = elim a.credentials.google_id [ none ↦ false | some g ↦ same_text g sub ]

  abbrev pub attempt_at : Text → Db D → Option LoginAttempt
  attempt_at email db = find_where (is_for email) db.staff.access.attempts

  -- `recordFailure`
  unfoldable pub record_failure : Env → Text → Call D (Unit {0})
  unfolding find_where same_text put_attempt
  record_failure env email = write λ db.
      with_attempts
        (put_attempt (failed_again env.now email (attempt_at email db)) db.staff.access.attempts) db

  -- `loginAttempt.deleteMany({ where: { email } })`
  abbrev pub clear_attempts : Text → Call D (Unit {0})
  clear_attempts email =
      write λ db. with_attempts (filter (λ a. not (is_for email a)) db.staff.access.attempts) db

  -- `sessionUser`
  abbrev pub session_user : Account D → Db D → AuthUser
  session_user user db = record {
    id = user.id;
    role = user.role;
    permissions =
        effective_permissions user.role
          (stored_permissions (find_where (has_role_key user.role) db.staff.roles));
  }

  -- What both first factors ask of the account.
  abbrev pub assert_let_in : Account D → Call D (Unit {0})
  assert_let_in user =
      guard (not user.deleted) unauthorized >> guard (is_active user.status) unauthorized
