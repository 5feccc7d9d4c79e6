-- ===== src/Auth/Login.antt =====
-- backend/src/auth/auth.service.ts: the handlers that sign a user in, and `verifyTotpCode` of
-- backend/src/auth/totp.ts.
use Prim.Native.String.{String}
use vfw.Prelude.{
  ℕ, Bool, true, not, ◌&&◌, ◌==◌, Option, none, some, [], ◌∷◌, length, leb, if◌then◌else◌,
}
use vfw.Prelude.Words.{same_text, trim}
use vfw.Acl.{AuthUser}
use vfw.Store.{Text, Env, google_sso_linked}
use vfw.Store.Staff.{Account}
use vfw.Store.Table.{find, find_where, filter, modify}
use vfw.Store.Audit.{log_action}
use vfw.Store.Call.{
  branch, found, Call, Result, unauthorized, server_error, pure, throw, get, guard, or_throw, lift,
  ◌>>=◌, ◌>>◌,
}
use vfw.Roles.{effective_permissions}
use vfw.Auth.{
  change_account, Claims, totp_challenge, Platform, LoginResult, signed_in, totp_required,
  GoogleUserInfo, address, assert_let_in, is_locked, vouches, account_id, has_email, has_google_id,
  attempt_at, record_failure, clear_attempts, sign_session, session_user,
}

-- `isTotpCodeShape`
abbrev pub is_digit : ℕ → Bool
is_digit c = leb b'0' c && leb c b'9'

abbrev pub all_digits : Text → Bool
all_digits [] = true
all_digits (c ∷ cs) = is_digit c && all_digits cs

-- `verifyTotpCode`
abbrev pub verify_totp_code : Platform → Env → String → Text → Bool
verify_totp_code platform env secret code =
    all_digits code && length code == 6 && platform.totp_valid env.now secret code

-- The user that a challenge names.
abbrev pub challenged : Option Claims → Option ℕ
challenged (some (totp_challenge uid)) = some uid
challenged _ = none

module _ {D : Type 0} where
  -- `completeFirstFactor`
  unfoldable pub complete_first_factor : Platform → Env → Account D → Call D LoginResult
  unfolding effective_permissions find_where same_text
  complete_first_factor platform env user =
      branch user.credentials.totp_enabled
        (pure (totp_required (platform.sign_token env.now (totp_challenge user.id))))
        do
          db ← get
          let who = session_user user db
          pure (signed_in who (sign_session platform env who user.credentials.token_version))

  -- The account that the password is right for. Where there is none, the password is compared with a
  -- hash made for that, and the outcome is not used.
  abbrev pub proved : Platform → Text → Option (Account D) → Option (Account D)
  proved platform password none = none
  proved platform password (some user) =
      if vouches platform user.credentials.password_hash password then some user else none

  -- `login`
  unfoldable pub login : Platform → Env → Text → Text → Call D LoginResult
  unfolding trim find_where same_text record_failure complete_first_factor filter
  login platform env raw_email password = do
    let email = address platform raw_email
    db ← get
    guard (not (is_locked env.now (attempt_at email db))) unauthorized
    found (proved platform password (find_where (has_email email) db.staff.accounts))
        (record_failure env email >> throw unauthorized)
        λ user.
          assert_let_in user >> clear_attempts email >> complete_first_factor platform env user

  abbrev pub linked : Text → Account D → Account D
  linked sub a = record a { credentials = record a.credentials { google_id = some sub } }

  -- The lookup of `loginWithGoogle`: by the Google id, or by the address, which links the account.
  unfoldable pub google_account : Platform → GoogleUserInfo → Call D (Account D)
  unfolding trim find_where same_text log_action modify
  google_account platform info = do
    db ← get
    let by_email = find_where (has_email (address platform info.email)) db.staff.accounts
    found (find_where (has_google_id info.sub) db.staff.accounts)
        (or_throw unauthorized by_email >>= λ user.
          change_account user.id (linked info.sub)
          >> log_action none user.id google_sso_linked
          >> pure (linked info.sub user))
        pure

  -- `loginWithGoogle`, given what `resolveCallback` answers.
  unfoldable pub login_with_google : Platform → Env → Result GoogleUserInfo → Call D LoginResult
  unfolding google_account filter same_text complete_first_factor
  login_with_google platform env callback = do
    info ← lift callback
    user ← google_account platform info
    assert_let_in user
    clear_attempts user.email
    complete_first_factor platform env user

  -- `completeTotpLogin`
  unfoldable pub complete_totp_login : Platform → Env → Text → Text → Call D (AuthUser × Text)
  unfolding trim find find_where same_text filter effective_permissions
  complete_totp_login platform env challenge code = do
    uid ← or_throw unauthorized (challenged (platform.read_token env.now challenge))
    db ← get
    user ← or_throw unauthorized (find account_id uid db.staff.accounts)
    assert_let_in user
    guard user.credentials.totp_enabled unauthorized
    stored ← or_throw unauthorized user.credentials.totp_secret
    secret ← or_throw server_error (platform.decrypt stored)
    guard (verify_totp_code platform env secret (trim code)) unauthorized
    clear_attempts user.email
    db' ← get
    let who = session_user user db'
    pure (who, sign_session platform env who user.credentials.token_version)
