-- ===== src/Store/Access.antt =====
-- The rows of backend/prisma/schema.prisma about signing in: what an account is let in by, failed
-- attempts, e-mailed codes and reset links.
use Prim.Native.String.{String}
use vfw.Prelude.{ℕ, Bool, true, false, Option, List}

-- `enum UserStatus`
pub data UserStatus : Type 0 where
  pending active rejected disabled : UserStatus

abbrev pub is_active : UserStatus → Bool
is_active active = true
is_active _ = false

abbrev pub is_pending : UserStatus → Bool
is_pending pending = true
is_pending _ = false

-- The columns of `model User` that a sign-in reads. A password hash of none is one of a random text
-- that was thrown away.
pub record Credentials : Type 0 where
  pub password_hash : Option String
  pub token_version : ℕ
  pub google_id : Option (List ℕ)
  pub totp_enabled : Bool
  pub totp_secret : Option String

-- `model LoginAttempt`
pub record LoginAttempt : Type 0 where
  pub email : List ℕ
  pub count : ℕ
  pub lock_until : Option ℕ

-- `model EmailOtp`; the table holds the newest first.
pub record EmailOtp : Type 0 where
  pub id : ℕ
  pub user_id : ℕ
  pub code_hash : String
  pub expires_at : ℕ
  pub attempts : ℕ
  pub consumed_at : Option ℕ

-- `model PasswordReset`
pub record PasswordReset : Type 0 where
  pub token : List ℕ
  pub user_id : ℕ
  pub expires_at : ℕ
  pub used_at : Option ℕ

pub record AccessTables : Type 0 where
  pub attempts : List LoginAttempt
  pub otps : List EmailOtp
  pub resets : List PasswordReset
