-- ===== src/Gate/Served.antt =====
-- What the handlers keep, over any sequence of requests.
use vfw.Prelude.{ℕ, List, [], ◌∷◌, arith, refl}
use vfw.Decimal.{Decimals}
use vfw.Acl.{AuthUser}
use vfw.Store.{Db, Env}
use vfw.Store.Staff.{Account}
use vfw.Store.Keeps.{Keeps, keeps_rules}
use vfw.Auth.{Platform, Draws, change_account}
use vfw.Users.{delete_user, reject_user}
use vfw.Users.Editing.{UpdateUserDto, update_user, write_edit, edited, Amounts}
use vfw.Gate.Lasting.{
  Ledger, Holds, IsSteady, IsLasting, IsFirm, retired-IsSteady, turned_down-IsSteady,
}
use vfw.Gate.Kept.{
  login-Keeps, login_with_google-Keeps, complete_totp_login-Keeps, signup-Keeps, verify_otp-Keeps,
  resend_otp-Keeps, forgot-Keeps, reset-Keeps, approve_user-Keeps, create_invitation-Keeps,
  update_invitation-Keeps, delete_invitation-Keeps, revoke_invitation-Keeps, log_action-Keeps,
}
use vfw.Gate.Reading.{live_account-Keeps, assert_allowed-Keeps, checked_amounts-Keeps}
use vfw.Gate.{
  Request, log_in, log_in_with_google, give_totp, sign_up, give_otp, ask_otp, ask_reset, use_reset,
  edit_user, remove_user, admit_user, refuse_user, invite, edit_invitation, remove_invitation,
  withdraw_invitation, Incoming, serve, serve_all,
}

-- The three handlers that can take an administrator away.
pub record IsGuarded ⦃d : Decimals⦄ (P : Ledger d.Decimal) : Type 0 where
  pub edit :
      (id : ℕ) (dto : UpdateUserDto d.Decimal) (actor : AuthUser)
      → Keeps (Holds P) (update_user id dto actor)
  pub removal : (id : ℕ) (actor : AuthUser) → Keeps (Holds P) (delete_user id actor)
  pub refusal : (id : ℕ) (actor : AuthUser) → Keeps (Holds P) (reject_user id actor)

module _ ⦃d : Decimals⦄ {P : Ledger d.Decimal} (platform : Platform) (l : IsLasting P)
    (g : IsGuarded P) where
  open d use {Decimal}

  serve-Holds :
      (env : Env) (draws : Draws) (r : Request Decimal) (db : Db Decimal)
      → Holds P db
      → Holds P (serve platform env draws r db)
  unfolding serve
  serve-Holds env draws (log_in email password) = (login-Keeps l platform env email password).at
  serve-Holds env draws (log_in_with_google callback) =
      (login_with_google-Keeps l platform env callback).at
  serve-Holds env draws (give_totp challenge code) =
      (complete_totp_login-Keeps l platform env challenge code).at
  serve-Holds env draws (sign_up dto) = (signup-Keeps l platform env draws dto).at
  serve-Holds env draws (give_otp email code) = (verify_otp-Keeps l platform env email code).at
  serve-Holds env draws (ask_otp email) = (resend_otp-Keeps l platform env draws email).at
  serve-Holds env draws (ask_reset email) = (forgot-Keeps l platform env draws email).at
  serve-Holds env draws (use_reset token password) =
      (reset-Keeps l platform env draws token password).at
  serve-Holds env draws (edit_user id dto actor) = (g.edit id dto actor).at
  serve-Holds env draws (remove_user id actor) = (g.removal id actor).at
  serve-Holds env draws (admit_user id actor) = (approve_user-Keeps l id actor).at
  serve-Holds env draws (refuse_user id actor) = (g.refusal id actor).at
  serve-Holds env draws (invite drawn dto actor) =
      (create_invitation-Keeps l platform env drawn dto actor).at
  serve-Holds env draws (edit_invitation id dto actor) =
      (update_invitation-Keeps l platform id dto actor).at
  serve-Holds env draws (remove_invitation id actor) = (delete_invitation-Keeps l env id actor).at
  serve-Holds env draws (withdraw_invitation id actor) = (revoke_invitation-Keeps l env id actor).at

  pub serve_all-Holds :
      (events : List (Incoming Decimal)) (db : Db Decimal)
      → Holds P db
      → Holds P (serve_all platform events db)
  unfolding serve_all
  serve_all-Holds [] db h = h
  serve_all-Holds (e ∷ es) db h = serve_all-Holds es _ (serve-Holds e.env e.draws e.request db h)

module _ ⦃d : Decimals⦄ {P : Ledger d.Decimal} (firm : IsFirm P) where
  open d use {Decimal}

  steady-Keeps :
      (id : ℕ) (f : Account Decimal → Account Decimal)
      → IsSteady f
      → Keeps (Holds P) (change_account id f)
  steady-Keeps id f steady = record { at = λ db h. firm.steady_write id f _ _ _ steady h }

  edited-IsSteady :
      (dto : UpdateUserDto Decimal) (amounts : Amounts) → IsSteady (edited dto amounts)
  unfolding edited
  edited-IsSteady dto amounts = record { itself = λ a. refl; onward = λ a. ground arith }

  pub firm-IsGuarded : IsGuarded P
  unfolding update_user write_edit delete_user reject_user
  firm-IsGuarded =
      let l = firm.lasting in
      record {
        edit = λ id dto actor.
            search
              (
                keeps_rules,
                log_action-Keeps l,
                live_account-Keeps,
                assert_allowed-Keeps,
                checked_amounts-Keeps,
                steady-Keeps,
                edited-IsSteady,
              )
              depth 16;
        removal = λ id actor.
            search
              (keeps_rules, log_action-Keeps l, live_account-Keeps, steady-Keeps, retired-IsSteady)
              depth 16;
        refusal = λ id actor.
            search
              (
                keeps_rules,
                log_action-Keeps l,
                live_account-Keeps,
                steady-Keeps,
                turned_down-IsSteady,
              )
              depth 16;
      }
