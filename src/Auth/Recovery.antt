-- ===== src/Auth/Recovery.antt =====
-- backend/src/auth/auth.service.ts: a forgotten password (`forgot`, `reset`).
use Prim.Native.String.{String}
use vfw.Prelude.{
  ℕ, ◌+◌, ◌*◌, Bool, true, false, ◌&&◌, ◌||◌, ◌==◌, Option, none, some, List, [], ◌∷◌, ◌++◌, map,
  ltb, if◌then◌else◌,
}
use vfw.Prelude.Words.{same_text, trim}
use vfw.Store.{Text, Db, Env, password_reset_requested, password_reset}
use vfw.Store.Access.{PasswordReset, UserStatus, rejected}
use vfw.Store.Staff.{Account}
use vfw.Store.Table.{find, find_where, filter, modify, modify_where}
use vfw.Store.Audit.{log_action}
use vfw.Store.Call.{
  branch, found, Call, bad_request, server_error, unavailable, pure, get, guard, or_throw,
  transaction, ◌>>=◌, ◌>>◌,
}
use vfw.Roles.{nothing?}
use vfw.Auth.{
  change_account, Platform, Draws, address, dev_echo, write, account_id, has_email, clear_attempts,
}
use vfw.Auth.Otp.{deliver}

-- `RESET_TTL_MINUTES` in milliseconds
abbrev pub reset_ttl : ℕ
reset_ttl = 30 * 60_000

abbrev pub is_rejected : UserStatus → Bool
is_rejected rejected = true
is_rejected _ = false

abbrev pub has_token : Text → PasswordReset → Bool
has_token token r = same_text r.token token

-- The filter of the update that claims a reset link.
abbrev pub is_usable : ℕ → Option PasswordReset → Bool
is_usable now none = false
is_usable now (some r) = nothing? r.used_at && ltb now r.expires_at

abbrev pub used : ℕ → PasswordReset → PasswordReset
used now r = record r { used_at = some now }

-- The other links of the account, where they are unused.
abbrev pub spoil : ℕ → ℕ → PasswordReset → PasswordReset
spoil now user_id r = if r.user_id == user_id && nothing? r.used_at then used now r else r

abbrev pub fresh_reset : Env → Draws → ℕ → PasswordReset
fresh_reset env draws user_id = record {
  token = draws.reset_token;
  user_id = user_id;
  expires_at = env.now + reset_ttl;
  used_at = none;
}

module _ {D : Type 0} where
  abbrev pub with_resets : List PasswordReset → Db D → Db D
  with_resets rows db = record db {
    staff = record db.staff { access = record db.staff.access { resets = rows } };
  }

  abbrev pub reset_at : Text → Db D → Option PasswordReset
  reset_at token db = find_where (has_token token) db.staff.access.resets

  -- The transaction of `forgot`. The token is the key of its table.
  unfoldable pub issue_reset : Env → Draws → ℕ → Call D (Unit {0})
  unfolding find_where same_text log_action
  issue_reset env draws user_id = transaction do
    db ← get
    guard (nothing? (reset_at draws.reset_token db)) server_error
    write λ db'. with_resets (db'.staff.access.resets ++ (fresh_reset env draws user_id ∷ [])) db'
    log_action none user_id password_reset_requested

  -- `forgot`: the token that is echoed.
  unfoldable pub forgot : Platform → Env → Draws → Text → Call D (Option Text)
  unfolding trim find_where same_text issue_reset
  forgot platform env draws email = do
    guard (platform.email_configured || dev_echo platform) unavailable
    db ← get
    found (find_where (has_email (address platform email)) db.staff.accounts) (pure none) λ user.
        branch (is_rejected user.status) (pure none)
          (issue_reset env draws user.id >> deliver platform draws draws.reset_token)

  -- The new password, and the end of every session.
  abbrev pub rekeyed : String → Account D → Account D
  rekeyed hash a = record a {
    credentials = record a.credentials {
      password_hash = some hash;
      token_version = a.credentials.token_version + 1;
    };
  }

  -- `reset`; the notice that it mails may fail.
  unfoldable pub reset : Platform → Env → Draws → Text → Text → Call D (Unit {0})
  unfolding find find_where modify modify_where filter same_text log_action
  reset platform env draws token password = transaction do
    db ← get
    guard (is_usable env.now (reset_at token db)) bad_request
    write λ db'.
        with_resets (modify_where (has_token token) (used env.now) db'.staff.access.resets) db'
    claimed ← or_throw server_error (reset_at token db)
    user ← or_throw server_error (find account_id claimed.user_id db.staff.accounts)
    change_account user.id (rekeyed (platform.hash draws.salt password))
    write λ db'. with_resets (map (spoil env.now user.id) db'.staff.access.resets) db'
    clear_attempts user.email
    log_action none user.id password_reset
