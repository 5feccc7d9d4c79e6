-- ===== src/Auth/Replies.antt =====
-- What backend/src/auth/auth.service.ts, `forgot`, tells about an address.
use vfw.Prelude.{
  ◌≡◌, ◌||◌, Bool, true, false, not, Option, none, some, arith, Option-cases, inl, inr,
  if◌then◌else◌,
}
use vfw.Store.{Text, Db, Env}
use vfw.Store.Staff.{Account}
use vfw.Store.Table.{find_where}
use vfw.Store.Call.{ok, err, unavailable}
use vfw.Auth.{Platform, Draws, address, has_email}
use vfw.Auth.Recovery.{forgot, issue_reset, reset_at, is_rejected}

module _ {D : Type 0} where
  -- Whether a link is sent to an account.
  abbrev pub is_reachable : Option (Account D) → Bool
  is_reachable none = false
  is_reachable (some a) = not (is_rejected a.status)

  -- Where mail is configured and the token that is drawn is new, `forgot` answers the same for every
  -- address if the mail server takes the mail. If it does not, the call fails for the addresses of accounts
  -- that are not rejected, and for no others.
  pub forgot_reply :
      (platform : Platform) (env : Env) (draws : Draws) (email : Text) (db : Db D)
      → platform.email_configured ≡ true
      → reset_at draws.reset_token db ≡ none
      → (forgot platform env draws email db).0 ≡ (
          if draws.email_sent
            || not
                (is_reachable (find_where (has_email (address platform email)) db.staff.accounts))
          then ok none
          else err unavailable)
  unfolding forgot issue_reset
  forgot_reply platform env draws email db configured new =
      elim (Option-cases (find_where (has_email (address platform email)) db.staff.accounts)) [
        | inl unknown ↦ ground arith
        | inr (user, known) ↦ ground arith
      ]
