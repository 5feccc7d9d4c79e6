-- ===== src/Gate/Kept.antt =====
-- Every handler of backend/src/auth/auth.service.ts and backend/src/admin/admin.service.ts, gone through
-- once for all properties of the accounts, the invitations and the reset links that their writes keep.
use vfw.Prelude.{ℕ, Option, none, some, List, [], ◌∷◌, ◌++◌, map}
use vfw.Decimal.{Decimals}
use vfw.Acl.{AuthUser}
use vfw.Store.{Text, Env, AuditAction}
use vfw.Store.Access.{PasswordReset, EmailOtp}
use vfw.Store.Staff.{Account, Invitation}
use vfw.Store.Table.{modify_where}
use vfw.Store.Audit.{log_action}
use vfw.Store.Call.{Result}
use vfw.Store.Keeps.{Keeps, keeps_rules}
use vfw.Auth.{
  Platform, Draws, write, change_account, clear_attempts, record_failure, GoogleUserInfo,
  assert_let_in,
}
use vfw.Auth.Login.{
  complete_first_factor, login, google_account, login_with_google, complete_totp_login,
}
use vfw.Auth.Otp.{change_otp, with_otps, issue_otp, deliver, resend_otp, verify_otp, activate}
use vfw.Auth.Signup.{with_invitations, change_invitation, add_account, SignupDto, redeem, signup}
use vfw.Auth.Recovery.{has_token, with_resets, forgot, issue_reset, reset, used, spoil}
use vfw.Users.{approve_user}
use vfw.Users.Invitations.{
  CreateInvitationDto, UpdateInvitationDto, create_invitation, update_invitation, delete_invitation,
  revoke_invitation, assert_free, live_invitation, assert_new_email, assert_given_role,
}
use vfw.Gate.Reading.{live_account-Keeps}
use vfw.Gate.Lasting.{Ledger, Holds, IsMild, IsInvitationWrite, IsLasting, mild_rules}

module _ {D : Type 0} {P : Ledger D} (l : IsLasting P) where
  pub change_account-Keeps :
      (id : ℕ) (f : Account D → Account D) → IsMild f → Keeps (Holds P) (change_account id f)
  change_account-Keeps id f mild = record { at = λ db h. l.account_write id f _ _ _ mild h }

  pub add_account-Keeps : (a : Account D) → Keeps (Holds P) (add_account a)
  add_account-Keeps a = record { at = λ db h. l.account_added a _ _ _ h }

  pub change_invitation-Keeps :
      (id : ℕ) (f : Invitation → Invitation)
      → IsInvitationWrite f
      → Keeps (Holds P) (change_invitation id f)
  change_invitation-Keeps id f w = record { at = λ db h. l.invitation_write id f _ _ _ w h }

  pub change_otp-Keeps : (id : ℕ) (f : EmailOtp → EmailOtp) → Keeps (Holds P) (change_otp id f)
  change_otp-Keeps id f = record { at = λ db h. h }

  pub log_action-Keeps :
      (s : Option ℕ) (actor : ℕ) (action : AuditAction)
      → Keeps (Holds P) (log_action s actor action)
  unfolding log_action
  log_action-Keeps s actor action = record { at = λ db h. h }

  pub clear_attempts-Keeps : (email : Text) → Keeps (Holds P) (clear_attempts email)
  clear_attempts-Keeps email = record { at = λ db h. h }

  pub record_failure-Keeps : (env : Env) (email : Text) → Keeps (Holds P) (record_failure env email)
  unfolding record_failure
  record_failure-Keeps env email = record { at = λ db h. h }

  pub assert_let_in-Keeps : (user : Account D) → Keeps (Holds P) (assert_let_in user)
  assert_let_in-Keeps user = search keeps_rules

  pub complete_first_factor-Keeps :
      (platform : Platform) (env : Env) (user : Account D)
      → Keeps (Holds P) (complete_first_factor platform env user)
  unfolding complete_first_factor
  complete_first_factor-Keeps platform env user = search keeps_rules

  ruleset entry_rules = (
    keeps_rules, log_action-Keeps, clear_attempts-Keeps, record_failure-Keeps, assert_let_in-Keeps,
    complete_first_factor-Keeps,
  )

  pub login-Keeps :
      (platform : Platform) (env : Env) (email password : Text)
      → Keeps (Holds P) (login platform env email password)
  unfolding login
  login-Keeps platform env email password = search entry_rules depth 12

  pub google_account-Keeps :
      (platform : Platform) (info : GoogleUserInfo) → Keeps (Holds P) (google_account platform info)
  unfolding google_account
  google_account-Keeps platform info =
      search (entry_rules, change_account-Keeps, mild_rules) depth 12

  pub login_with_google-Keeps :
      (platform : Platform) (env : Env) (callback : Result GoogleUserInfo)
      → Keeps (Holds P) (login_with_google platform env callback)
  unfolding login_with_google
  login_with_google-Keeps platform env callback =
      search (entry_rules, google_account-Keeps) depth 12

  pub complete_totp_login-Keeps :
      (platform : Platform) (env : Env) (challenge code : Text)
      → Keeps (Holds P) (complete_totp_login platform env challenge code)
  unfolding complete_totp_login
  complete_totp_login-Keeps platform env challenge code = search entry_rules depth 20

  pub update_otps-Keeps :
      (f : List EmailOtp → List EmailOtp)
      → Keeps (Holds P) (write λ db. with_otps (f db.staff.access.otps) db)
  update_otps-Keeps f = record { at = λ db h. h }

  pub issue_otp-Keeps :
      (platform : Platform) (env : Env) (draws : Draws) (user_id : ℕ)
      → Keeps (Holds P) (issue_otp platform env draws user_id)
  unfolding issue_otp
  issue_otp-Keeps platform env draws user_id = record { at = λ db h. h }

  pub deliver-Keeps :
      (platform : Platform) (draws : Draws) (text : Text)
      → Keeps (Holds P) (deliver platform draws text)
  deliver-Keeps platform draws text = search keeps_rules depth 8

  pub resend_otp-Keeps :
      (platform : Platform) (env : Env) (draws : Draws) (email : Text)
      → Keeps (Holds P) (resend_otp platform env draws email)
  unfolding resend_otp
  resend_otp-Keeps platform env draws email =
      search (keeps_rules, issue_otp-Keeps, deliver-Keeps) depth 12

  pub activate-Keeps :
      (env : Env) (user : Account D) (otp : EmailOtp) → Keeps (Holds P) (activate env user otp)
  activate-Keeps env user otp =
      search (entry_rules, change_account-Keeps, change_otp-Keeps, mild_rules) depth 12

  pub verify_otp-Keeps :
      (platform : Platform) (env : Env) (email code : Text)
      → Keeps (Holds P) (verify_otp platform env email code)
  unfolding verify_otp
  verify_otp-Keeps platform env email code =
      search (keeps_rules, change_otp-Keeps, activate-Keeps) depth 20

  pub change_reset-Keeps :
      (now : ℕ) (token : Text)
      → Keeps (Holds P) (
          write
            λ db. with_resets (modify_where (has_token token) (used now) db.staff.access.resets) db)
  change_reset-Keeps now token = record {
    at = λ db h. l.reset_write token (used now) _ _ _ (search mild_rules) h;
  }

  pub spoil_resets-Keeps :
      (now user_id : ℕ)
      → Keeps
          (Holds P)
          (write λ db. with_resets (map (spoil now user_id) db.staff.access.resets) db)
  spoil_resets-Keeps now user_id = record {
    at = λ db h. l.resets_write (spoil now user_id) _ _ _ (search mild_rules) h;
  }

  pub add_reset-Keeps :
      (r : PasswordReset)
      → Keeps (Holds P) (write λ db. with_resets (db.staff.access.resets ++ (r ∷ [])) db)
  add_reset-Keeps r = record { at = λ db h. l.reset_added r _ _ _ h }

  pub forgot-Keeps :
      (platform : Platform) (env : Env) (draws : Draws) (email : Text)
      → Keeps (Holds P) (forgot platform env draws email)
  unfolding forgot issue_reset
  forgot-Keeps platform env draws email =
      search (entry_rules, add_reset-Keeps, deliver-Keeps) depth 20

  pub reset-Keeps :
      (platform : Platform) (env : Env) (draws : Draws) (token password : Text)
      → Keeps (Holds P) (reset platform env draws token password)
  unfolding reset
  reset-Keeps platform env draws token password =
      search (entry_rules, change_reset-Keeps, spoil_resets-Keeps, change_account-Keeps, mild_rules)
        depth 20

  pub approve_user-Keeps : (id : ℕ) (actor : AuthUser) → Keeps (Holds P) (approve_user id actor)
  unfolding approve_user
  approve_user-Keeps id actor =
      search (entry_rules, live_account-Keeps, change_account-Keeps, mild_rules) depth 12

  pub add_invitation-Keeps :
      (i : Invitation)
      → Keeps (Holds P) (write λ db. with_invitations (db.staff.invitations ++ (i ∷ [])) db)
  add_invitation-Keeps i = record { at = λ db h. l.invitation_added i _ _ _ h }

  pub assert_free-Keeps : (email : Option Text) → Keeps (Holds P) (assert_free email)
  assert_free-Keeps none = search keeps_rules
  assert_free-Keeps (some email) = search keeps_rules depth 8

  pub create_invitation-Keeps :
      (platform : Platform) (env : Env) (drawn : List (List ℕ)) (dto : CreateInvitationDto)
      (user : AuthUser)
      → Keeps (Holds P) (create_invitation platform env drawn dto user)
  unfolding create_invitation
  create_invitation-Keeps platform env drawn dto user =
      search (entry_rules, assert_free-Keeps, add_invitation-Keeps) depth 16

  pub live_invitation-Keeps : (id : ℕ) → Keeps (Holds P) (live_invitation id)
  live_invitation-Keeps id = search keeps_rules depth 8

  pub assert_new_email-Keeps :
      (email : Option (Option Text)) (i : Invitation) → Keeps (Holds P) (assert_new_email email i)
  assert_new_email-Keeps none i = search keeps_rules
  assert_new_email-Keeps (some email) i = search (keeps_rules, assert_free-Keeps)

  pub assert_given_role-Keeps :
      (role : Option Text) (i : Invitation) → Keeps (Holds P) (assert_given_role role i)
  assert_given_role-Keeps none i = search keeps_rules
  assert_given_role-Keeps (some key) i = search keeps_rules depth 8

  pub update_invitation-Keeps :
      (platform : Platform) (id : ℕ) (dto : UpdateInvitationDto) (actor : AuthUser)
      → Keeps (Holds P) (update_invitation platform id dto actor)
  unfolding update_invitation
  update_invitation-Keeps platform id dto actor =
      search
        (
          entry_rules, live_invitation-Keeps, assert_new_email-Keeps, assert_given_role-Keeps,
          change_invitation-Keeps, mild_rules,
        )
        depth 16

  pub delete_invitation-Keeps :
      (env : Env) (id : ℕ) (actor : AuthUser) → Keeps (Holds P) (delete_invitation env id actor)
  unfolding delete_invitation
  delete_invitation-Keeps env id actor =
      search (entry_rules, live_invitation-Keeps, change_invitation-Keeps, mild_rules) depth 12

  pub revoke_invitation-Keeps :
      (env : Env) (id : ℕ) (actor : AuthUser) → Keeps (Holds P) (revoke_invitation env id actor)
  unfolding revoke_invitation
  revoke_invitation-Keeps env id actor =
      search (entry_rules, change_invitation-Keeps, mild_rules) depth 12

module _ ⦃d : Decimals⦄ {P : Ledger d.Decimal} (l : IsLasting P) where
  pub redeem-Keeps :
      (platform : Platform) (env : Env) (draws : Draws) (dto : SignupDto) (i : Invitation)
      → Keeps (Holds P) (redeem platform env draws dto i)
  unfolding redeem
  redeem-Keeps platform env draws dto i =
      search
        (
          keeps_rules,
          log_action-Keeps l,
          change_invitation-Keeps l,
          add_account-Keeps l,
          mild_rules,
        )
        depth 16

  pub signup-Keeps :
      (platform : Platform) (env : Env) (draws : Draws) (dto : SignupDto)
      → Keeps (Holds P) (signup platform env draws dto)
  unfolding signup
  signup-Keeps platform env draws dto =
      search (keeps_rules, redeem-Keeps, issue_otp-Keeps l, deliver-Keeps l) depth 20
