-- ===== src/Auth/Otp.antt =====
-- backend/src/auth/auth.service.ts: the code that proves the address of a new account (`issueOtp`,
-- `verifyOtp`, `resendOtp`).
use vfw.Prelude.{
  ℕ, ◌+◌, ◌-◌, ◌*◌, Bool, ◌&&◌, ◌||◌, ◌==◌, Option, none, some, List, ◌∷◌, ◌++◌, map, length,
  replicate, ltb, leb, if◌then◌else◌,
}
use vfw.Prelude.Words.{same_text, trim, decimal}
use vfw.Acl.{AuthUser}
use vfw.Store.{Text, Db, Env, email_verified}
use vfw.Store.Access.{EmailOtp, is_pending, active}
use vfw.Store.Staff.{Account}
use vfw.Store.Table.{find_where, filter, modify}
use vfw.Store.Audit.{log_action}
use vfw.Store.Call.{
  branch, found, Call, bad_request, unavailable, pure, throw, get, guard, or_throw, transaction,
  ◌>>=◌, ◌>>◌,
}
use vfw.Roles.{nothing?, effective_permissions}
use vfw.Auth.{
  Platform, Draws, address, dev_echo, write, change_account, has_email, clear_attempts,
  sign_session, session_user,
}

-- `OTP_TTL_MINUTES` in milliseconds, and `MAX_OTP_ATTEMPTS`
abbrev pub otp_ttl : ℕ
otp_ttl = 10 * 60_000

abbrev pub max_otp_attempts : ℕ
max_otp_attempts = 5

-- `String(n).padStart(6, '0')`
unfoldable pub otp_text : ℕ → Text
unfolding decimal
otp_text n = replicate (6 - length (decimal n)) b'0' ++ decimal n

abbrev pub otp_id : EmailOtp → ℕ
otp_id o = o.id

abbrev pub consumed : ℕ → EmailOtp → EmailOtp
consumed now o = record o { consumed_at = some now }

abbrev pub missed : EmailOtp → EmailOtp
missed o = record o { attempts = o.attempts + 1 }

abbrev pub is_live_otp : ℕ → EmailOtp → Bool
is_live_otp user_id o = o.user_id == user_id && nothing? o.consumed_at

-- `updateMany` on the codes of one user.
abbrev pub retire : ℕ → ℕ → EmailOtp → EmailOtp
retire now user_id o = if is_live_otp user_id o then consumed now o else o

abbrev pub fresh_otp : Platform → Env → Draws → ℕ → EmailOtp
fresh_otp platform env draws user_id = record {
  id = draws.otp_id;
  user_id = user_id;
  code_hash = platform.hash draws.salt (otp_text draws.otp);
  expires_at = env.now + otp_ttl;
  attempts = 0;
  consumed_at = none;
}

module _ {D : Type 0} where
  abbrev pub with_otps : List EmailOtp → Db D → Db D
  with_otps rows db = record db {
    staff = record db.staff { access = record db.staff.access { otps = rows } };
  }

  abbrev pub change_otp : ℕ → (EmailOtp → EmailOtp) → Call D (Unit {0})
  change_otp id f = write λ db. with_otps (modify otp_id id f db.staff.access.otps) db

  -- `issueOtp`
  unfoldable pub issue_otp : Platform → Env → Draws → ℕ → Call D Text
  unfolding otp_text
  issue_otp platform env draws user_id = do
    transaction do
      write λ db. with_otps (map (retire env.now user_id) db.staff.access.otps) db
      write λ db. with_otps (fresh_otp platform env draws user_id ∷ db.staff.access.otps) db
    pure (otp_text draws.otp)

  -- `email.send`, or the echo of what it would have sent.
  abbrev pub deliver : Platform → Draws → Text → Call D (Option Text)
  deliver platform draws text =
      branch platform.email_configured (guard draws.email_sent unavailable >> pure none)
        (pure (some text))

  -- `resendOtp`: the code that is echoed.
  unfoldable pub resend_otp : Platform → Env → Draws → Text → Call D (Option Text)
  unfolding trim find_where same_text issue_otp
  resend_otp platform env draws email = do
    guard (platform.email_configured || dev_echo platform) unavailable
    db ← get
    found (find_where (has_email (address platform email)) db.staff.accounts) (pure none) λ user.
        branch (is_pending user.status)
          (issue_otp platform env draws user.id >>= λ code. deliver platform draws code) (pure none)

  abbrev pub activated : Account D → Account D
  activated a = record a { status = active }

  -- The transaction of `verifyOtp`.
  abbrev pub activate : Env → Account D → EmailOtp → Call D (Unit {0})
  activate env user otp = transaction do
    change_otp otp.id (consumed env.now)
    change_account user.id activated
    clear_attempts user.email
    log_action none user.id email_verified

  -- The account that has proved its address is signed in.
  abbrev pub admit : Platform → Env → Account D → EmailOtp → Call D (AuthUser × Text)
  admit platform env user otp = do
    activate env user otp
    db ← get
    let who = session_user user db
    pure (who, sign_session platform env who user.credentials.token_version)

  -- `verifyOtp`
  unfoldable pub verify_otp : Platform → Env → Text → Text → Call D (AuthUser × Text)
  unfolding trim find_where modify filter same_text log_action effective_permissions
  verify_otp platform env email code = do
    db ← get
    user ← or_throw bad_request (find_where (has_email (address platform email)) db.staff.accounts)
    guard (is_pending user.status) bad_request
    otp ← or_throw bad_request (find_where (is_live_otp user.id) db.staff.access.otps)
    guard (ltb env.now otp.expires_at) bad_request
    branch (leb max_otp_attempts otp.attempts)
        (change_otp otp.id (consumed env.now) >> throw bad_request)
        (branch (platform.verify otp.code_hash (trim code)) (admit platform env user otp)
          (change_otp otp.id missed >> throw bad_request))
