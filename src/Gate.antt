-- ===== src/Gate.antt =====
-- The requests that change who may sign in, of backend/src/auth/auth.controller.ts and
-- backend/src/admin/admin.controller.ts, served one after another.
pub mod Lasting
pub mod Reading
pub mod Kept
pub mod Served
pub mod Sessions
pub mod Once
pub mod Administrators
pub mod Invited
use vfw.Prelude.{ℕ, Option, List, [], ◌∷◌}
use vfw.Decimal.{Decimals}
use vfw.Acl.{AuthUser}
use vfw.Store.{Text, Db, Env}
use vfw.Store.Call.{Call, Result, ◌>>=◌, pure}
use vfw.Auth.{Platform, Draws, GoogleUserInfo}
use vfw.Auth.Login.{login, login_with_google, complete_totp_login}
use vfw.Auth.Otp.{verify_otp, resend_otp}
use vfw.Auth.Signup.{SignupDto, signup}
use vfw.Auth.Recovery.{forgot, reset}
use vfw.Users.{delete_user, approve_user, reject_user}
use vfw.Users.Editing.{UpdateUserDto, update_user}
use vfw.Users.Invitations.{
  CreateInvitationDto, UpdateInvitationDto, create_invitation, update_invitation, delete_invitation,
  revoke_invitation,
}

pub data Request (D : Type 0) : Type 0 where
  log_in : Text → Text → Request D
  log_in_with_google : Result GoogleUserInfo → Request D
  give_totp : Text → Text → Request D
  sign_up : SignupDto → Request D
  give_otp : Text → Text → Request D
  ask_otp : Text → Request D
  ask_reset : Text → Request D
  use_reset : Text → Text → Request D
  edit_user : ℕ → UpdateUserDto D → AuthUser → Request D
  remove_user : ℕ → AuthUser → Request D
  admit_user : ℕ → AuthUser → Request D
  refuse_user : ℕ → AuthUser → Request D
  invite : List (List ℕ) → CreateInvitationDto → AuthUser → Request D
  edit_invitation : ℕ → UpdateInvitationDto → AuthUser → Request D
  remove_invitation : ℕ → AuthUser → Request D
  withdraw_invitation : ℕ → AuthUser → Request D

-- A request with its time, the id of what it creates, and what chance gives to it.
pub record Incoming (D : Type 0) : Type 0 where
  pub env : Env
  pub draws : Draws
  pub request : Request D

-- A call whose answer is not looked at.
abbrev pub done : {D A : Type 0} → Call D A → Db D → Db D
done m db = (m db).1

module _ ⦃d : Decimals⦄ (platform : Platform) where
  open d use {Decimal}

  unfoldable pub serve : Env → Draws → Request Decimal → Db Decimal → Db Decimal
  serve env draws (log_in email password) = done (login platform env email password)
  serve env draws (log_in_with_google callback) = done (login_with_google platform env callback)
  serve env draws (give_totp challenge code) =
      done (complete_totp_login platform env challenge code)
  serve env draws (sign_up dto) = done (signup platform env draws dto)
  serve env draws (give_otp email code) = done (verify_otp platform env email code)
  serve env draws (ask_otp email) = done (resend_otp platform env draws email)
  serve env draws (ask_reset email) = done (forgot platform env draws email)
  serve env draws (use_reset token password) = done (reset platform env draws token password)
  serve env draws (edit_user id dto actor) = done (update_user id dto actor)
  serve env draws (remove_user id actor) = done (delete_user id actor)
  serve env draws (admit_user id actor) = done (approve_user id actor)
  serve env draws (refuse_user id actor) = done (reject_user id actor)
  serve env draws (invite drawn dto actor) = done (create_invitation platform env drawn dto actor)
  serve env draws (edit_invitation id dto actor) = done (update_invitation platform id dto actor)
  serve env draws (remove_invitation id actor) = done (delete_invitation env id actor)
  serve env draws (withdraw_invitation id actor) = done (revoke_invitation env id actor)

  unfoldable pub serve_all : List (Incoming Decimal) → Db Decimal → Db Decimal
  unfolding serve
  serve_all [] db = db
  serve_all (e ∷ es) db = serve_all es (serve e.env e.draws e.request db)
