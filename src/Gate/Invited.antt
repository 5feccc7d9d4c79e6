-- ===== src/Gate/Invited.antt =====
-- What an invitation gives, and that it gives it once (backend/src/auth/auth.service.ts, `signup`).
use vfw.Prelude.{ℕ, ◌≡◌, refl, true, none, some, List, [], ◌∷◌, ◌++◌, arith}
use vfw.Prelude.Words.{same_text, trim}
use vfw.Decimal.{Decimals}
use vfw.Store.{Text, Db, Env}
use vfw.Store.Access.{is_pending}
use vfw.Store.Staff.{Account, Invitation}
use vfw.Store.Table.{find, find_where, modify}
use vfw.Store.Call.{ok, err, bad_request}
use vfw.Auth.{dev_echo, Platform, Draws, address, has_email}
use vfw.Auth.Signup.{SignupDto, SignupReply, signup, has_code, invitation_id, redeem}
use vfw.Gate.Lasting.{redeemed_by-IsInvitationWrite}
use vfw.Gate.Served.{serve_all-Holds, firm-IsGuarded}
use vfw.Gate.{Incoming, serve_all}
use vfw.Gate.Once.{is_redeemed, redeemed-modify, IsRedeemed, IsRedeemed-IsFirm}
use vfw.Auth.Signup.{redeemed_by, claimed, new_account}
use vfw.Store.Table.{map_some}
use vfw.Auth.Otp.{issue_otp}
use vfw.Prelude.{◌||◌}
use vfw.Prelude.Digits.{same_text_refl}

-- The row with a code has the code.
coded :
    (code : Text) (rows : List Invitation) (i : Invitation)
    → find_where (has_code code) rows ≡ some i
    → same_text i.code code ≡ true
unfolding find_where
coded code [] i h = cc
coded code (x ∷ rest) i h = ground (arith, coded code rest i)

-- The update by id that claims an invitation reaches the one that its code found.
claim_reaches :
    (now : ℕ) (code : Text) (rows : List Invitation) (i : Invitation)
    → find_where (has_code code) rows ≡ some i
    → find invitation_id i.id rows ≡ some i
    → is_redeemed (find_where (has_code code) (modify invitation_id i.id (claimed now) rows)) ≡ true
unfolding find_where find modify
claim_reaches now code [] i by_code by_id = cc
claim_reaches now code (x ∷ rest) i by_code by_id =
    ground (arith, coded code (x ∷ rest) i by_code, claim_reaches now code rest i)

module _ {D : Type 0} where
  added_last :
      (email : Text) (a : Account D) (accounts : List (Account D))
      → find_where (has_email email) accounts ≡ none
      → same_text a.email email ≡ true
      → find_where (has_email email) (accounts ++ (a ∷ [])) ≡ some a
  unfolding find_where
  added_last email a [] h same = ground arith
  added_last email a (x ∷ rest) h same = ground (arith, added_last email a rest)

module _ ⦃d : Decimals⦄ (platform : Platform) where
  open d use {Decimal}

  -- What `redeem` leaves, where it does not throw.
  redeem_spends :
      (env : Env) (draws : Draws) (dto : SignupDto) (code : Text) (i : Invitation) (db : Db Decimal)
      → find_where (has_code code) db.staff.invitations ≡ some i
      → find invitation_id i.id db.staff.invitations ≡ some i
      → (redeem platform env draws dto i db).0 ≡ ok tt
      → IsRedeemed {D = Decimal} code [] (redeem platform env draws dto i db).1.staff.invitations []
  unfolding redeem
  redeem_spends env draws dto code i db by_code by_id done =
      let rows = modify invitation_id i.id (claimed env.now) db.staff.invitations in
      let reached = claim_reaches env.now code db.staff.invitations i by_code by_id in
      let w = redeemed_by-IsInvitationWrite env.new_id in
      let kept = redeemed-modify code i.id (redeemed_by env.new_id) w rows reached in ground arith

  redeem_adds :
      (env : Env) (draws : Draws) (dto : SignupDto) (i : Invitation) (db : Db Decimal)
      → (redeem platform env draws dto i db).0 ≡ ok tt
      → (redeem platform env draws dto i db).1.staff.accounts
        ≡ db.staff.accounts ++ (new_account platform env draws dto i ∷ [])
  unfolding redeem
  redeem_adds env draws dto i db done = ground arith

  -- What a successful `signup` went through.
  signup_took :
      (env : Env) (draws : Draws) (dto : SignupDto) (i : Invitation) (db : Db Decimal)
      (reply : SignupReply)
      → find_where (has_code (platform.to_upper (trim dto.code))) db.staff.invitations ≡ some i
      → (signup platform env draws dto db).0 ≡ ok reply
      → ((redeem platform env draws dto i db).0 ≡ ok tt)
        × (find_where (has_email (address platform dto.email)) db.staff.accounts ≡ none)
        × ((platform.email_configured || dev_echo platform) ≡ true)
  unfolding signup
  signup_took env draws dto i db reply there done = ground arith

  signup_leaves :
      (env : Env) (draws : Draws) (dto : SignupDto) (i : Invitation) (db : Db Decimal)
      (reply : SignupReply)
      → find_where (has_code (platform.to_upper (trim dto.code))) db.staff.invitations ≡ some i
      → (signup platform env draws dto db).0 ≡ ok reply
      → ((signup platform env draws dto db).1.staff.accounts
          ≡ (redeem platform env draws dto i db).1.staff.accounts)
        × ((signup platform env draws dto db).1.staff.invitations
            ≡ (redeem platform env draws dto i db).1.staff.invitations)
  unfolding signup issue_otp
  signup_leaves env draws dto i db reply there done = ground arith

  redeemed-refused :
      (env : Env) (draws : Draws) (dto : SignupDto) (db : Db Decimal)
      → (platform.email_configured || dev_echo platform) ≡ true
      → is_redeemed (find_where (has_code (platform.to_upper (trim dto.code))) db.staff.invitations)
        ≡ true
      → (signup platform env draws dto db).0 ≡ err bad_request
  unfolding signup
  redeemed-refused env draws dto db available spent = ground arith

  signup_redeems :
      (env : Env) (draws : Draws) (dto : SignupDto) (i : Invitation) (db : Db Decimal)
      (reply : SignupReply)
      → find_where (has_code (platform.to_upper (trim dto.code))) db.staff.invitations ≡ some i
      → find invitation_id i.id db.staff.invitations ≡ some i
      → (signup platform env draws dto db).0 ≡ ok reply
      → is_redeemed (
          find_where
            (has_code (platform.to_upper (trim dto.code)))
            (signup platform env draws dto db).1.staff.invitations)
        ≡ true
  signup_redeems env draws dto i db reply by_code by_id done =
      let took = signup_took env draws dto i db reply by_code done in
      rw (signup_leaves env draws dto i db reply by_code done).1
        (redeem_spends env draws dto (platform.to_upper (trim dto.code)) i db by_code by_id took.0)

  account_made :
      (env : Env) (draws : Draws) (dto : SignupDto) (i : Invitation) (db : Db Decimal)
      (reply : SignupReply)
      → find_where (has_code (platform.to_upper (trim dto.code))) db.staff.invitations ≡ some i
      → (signup platform env draws dto db).0 ≡ ok reply
      → find_where
          (has_email (address platform dto.email))
          (signup platform env draws dto db).1.staff.accounts
        ≡ some (new_account platform env draws dto i)
  account_made env draws dto i db reply by_code done =
      let took = signup_took env draws dto i db reply by_code done in
      rw
        (
          (signup_leaves env draws dto i db reply by_code done).0,
          redeem_adds env draws dto i db took.0,
        )
        (added_last (address platform dto.email) (new_account platform env draws dto i)
          db.staff.accounts took.1 (same_text_refl (address platform dto.email)))

  -- An invitation is redeemed once: after a successful `signup` with its code, `signup` with the same code
  -- is refused ever after, whatever requests are served in between. The account that it made has the
  -- role of the invitation, whatever was posted, and waits for its address to be proved. An invitation is
  -- taken to be the row with its id.
  pub invitation_once :
      (env : Env) (draws : Draws) (dto : SignupDto) (i : Invitation) (db : Db Decimal)
      (reply : SignupReply) (events : List (Incoming Decimal)) (later : Env) (draws' : Draws)
      (dto' : SignupDto)
      → find_where (has_code (platform.to_upper (trim dto.code))) db.staff.invitations ≡ some i
      → find invitation_id i.id db.staff.invitations ≡ some i
      → (signup platform env draws dto db).0 ≡ ok reply
      → platform.to_upper (trim dto'.code) ≡ platform.to_upper (trim dto.code)
      → let db' = (signup platform env draws dto db).1 in
        let made = find_where (has_email (address platform dto.email)) db'.staff.accounts in
        (map_some (λ a. a.role) made ≡ some i.role)
        × (map_some (λ a. is_pending a.status) made ≡ some true)
        × ((signup platform later draws' dto' (serve_all platform events db')).0 ≡ err bad_request)
  invitation_once env draws dto i db reply events later draws' dto' by_code by_id done same =
      let made = account_made env draws dto i db reply by_code done in
      let code = platform.to_upper (trim dto.code) in
      let firm = IsRedeemed-IsFirm code in
      let db' = (signup platform env draws dto db).1 in
      let kept =
        serve_all-Holds platform firm.lasting (firm-IsGuarded firm) events db'
          (signup_redeems env draws dto i db reply by_code by_id done) in
      (
        rw made refl,
        rw made refl,
        redeemed-refused later draws' dto' (serve_all platform events db')
            (signup_took env draws dto i db reply by_code done).2 (rw same kept),
      )
