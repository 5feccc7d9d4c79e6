-- ===== src/Gate/Sessions.antt =====
-- Sessions that are over (backend/src/auth/auth.service.ts, `reset`; backend/src/admin/admin.service.ts,
-- `deleteUser`; backend/src/common/auth.guard.ts).
use mathlib.Core.Path.{subst}
use vfw.Prelude.{
  ℕ, ◌+◌, ◌≤◌, ◌≡◌, sym, refl, Bool, true, false, Option, none, some, List, [], ◌∷◌, ◌++◌, arith,
  ltb, lt→ltb, ◌==◌, if◌then◌else◌,
}
use vfw.Decimal.{Decimals}
use vfw.Acl.{AuthUser}
use vfw.Store.{Text, Db, Env}
use vfw.Store.Access.{PasswordReset}
use vfw.Store.Staff.{Account, Invitation}
use vfw.Store.Table.{find, map_some, find-modify, find_key}
use vfw.Store.Call.{ok, err, unauthorized}
use vfw.Auth.{Platform, Draws, SessionClaims, account_id}
use vfw.Auth.Recovery.{reset, reset_at, rekeyed}
use vfw.Auth.Session.{session_of, verify_session}
use vfw.Users.{delete_user, retired}
use vfw.Gate.Lasting.{IsSteady, IsFirm}
use vfw.Gate.Served.{serve_all-Holds, firm-IsGuarded}
use vfw.Gate.{Incoming, serve_all}

module _ {D : Type 0} where
  -- Whether the account has gone past a version.
  abbrev pub is_past : ℕ → Option (Account D) → Bool
  is_past v none = false
  is_past v (some a) = ltb v a.credentials.token_version

  abbrev pub IsPast : ℕ → ℕ → List (Account D) → List Invitation → List PasswordReset → Type 0
  IsPast id v accounts invitations resets = is_past v (find account_id id accounts) ≡ true

  past_after :
      (v : ℕ) (f : Account D → Account D) (o : Option (Account D))
      → IsSteady f
      → is_past v o ≡ true
      → is_past v (map_some f o) ≡ true
  past_after v f none s h = cc
  past_after v f (some a) s h = ground (arith, s.onward a)

  past_write :
      (v : ℕ) (b : Bool) (f : Account D → Account D) (o : Option (Account D))
      → IsSteady f
      → is_past v o ≡ true
      → is_past v (if b then map_some f o else o) ≡ true
  past_write v true f o s h = past_after v f o s h
  past_write v false f o s h = h

  past-append :
      (id v : ℕ) (a : Account D) (accounts : List (Account D))
      → is_past v (find account_id id accounts) ≡ true
      → is_past v (find account_id id (accounts ++ (a ∷ []))) ≡ true
  unfolding find
  past-append id v a [] h = cc
  past-append id v a (b ∷ rest) h = ground (arith, past-append id v a rest)

  pub IsPast-IsFirm : (id v : ℕ) → IsFirm (IsPast id v)
  IsPast-IsFirm id v =
      let write =
        λ (k : ℕ) (f : Account D → Account D) (as' : List (Account D)) (s : IsSteady f)
            (h : is_past v (find account_id id as') ≡ true).
          subst (λ o. is_past v o ≡ true) (sym (find-modify account_id k id f as' s.itself))
            (past_write v (k == id) f (find account_id id as') s h) in
      record {
        lasting = record {
          account_write = λ k f as' is rs m h. write k f as' m.steady h;
          account_added = λ a as' is rs h. past-append id v a as' h;
          invitation_write = λ k f as' is rs w h. h;
          invitation_added = λ i as' is rs h. h;
          reset_write = λ t f as' is rs w h. h;
          resets_write = λ f as' is rs w h. h;
          reset_added = λ r as' is rs h. h;
        };
        steady_write = λ k f as' is rs s h. write k f as' s h;
      }

  -- A session of a version that its account has gone past is refused.
  refused :
      (platform : Platform) (env : Env) (text : Text) (claims : SessionClaims) (db : Db D)
      → session_of (platform.read_token env.now text) ≡ some claims
      → is_past claims.tv (find account_id claims.id db.staff.accounts) ≡ true
      → (verify_session platform env (some text) db).0 ≡ err unauthorized
  unfolding verify_session
  refused platform env [] claims db read past = refl
  refused platform env (c ∷ cs) claims db read past = rw read (ground arith)

  reset_moves :
      (platform : Platform) (env : Env) (draws : Draws) (token password : Text) (db : Db D)
      (r : PasswordReset) (user : Account D) (v : ℕ)
      → reset_at token db ≡ some r
      → find account_id r.user_id db.staff.accounts ≡ some user
      → (reset platform env draws token password db).0 ≡ ok tt
      → v ≤ user.credentials.token_version
      → IsPast r.user_id v (reset platform env draws token password db).1.staff.accounts [] []
  unfolding reset
  reset_moves platform env draws token password db r user v at_token holder done old =
      let f = rekeyed (platform.hash draws.salt password) in
      let id : user.id ≡ r.user_id = find_key account_id r.user_id db.staff.accounts user holder in
      let moved = find-modify account_id user.id r.user_id f db.staff.accounts (λ a. refl) in
      ground (arith, moved, lt→ltb v (user.credentials.token_version + 1))

module _ ⦃d : Decimals⦄ (platform : Platform) where
  open d use {Decimal}

  past-refused :
      (events : List (Incoming Decimal)) (db : Db Decimal) (env : Env) (text : Text)
      (claims : SessionClaims)
      → session_of (platform.read_token env.now text) ≡ some claims
      → IsPast claims.id claims.tv db.staff.accounts db.staff.invitations db.staff.access.resets
      → (verify_session platform env (some text) (serve_all platform events db)).0
        ≡ err unauthorized
  past-refused events db env text claims read past =
      let firm = IsPast-IsFirm claims.id claims.tv in
      refused platform env text claims (serve_all platform events db) read
        (serve_all-Holds platform firm.lasting (firm-IsGuarded firm) events db past)

  -- Once a reset link has given an account a new password, a session token that was signed for the
  -- account before that is refused ever after, whatever requests are served in between.
  pub reset-signs_out :
      (env : Env) (draws : Draws) (token password : Text) (db : Db Decimal) (r : PasswordReset)
      (user : Account Decimal) (events : List (Incoming Decimal)) (later : Env) (text : Text)
      (claims : SessionClaims)
      → reset_at token db ≡ some r
      → find account_id r.user_id db.staff.accounts ≡ some user
      → (reset platform env draws token password db).0 ≡ ok tt
      → session_of (platform.read_token later.now text) ≡ some claims
      → claims.id ≡ r.user_id
      → claims.tv ≤ user.credentials.token_version
      → (verify_session platform later
          (some text)
          (serve_all platform events (reset platform env draws token password db).1)).0
        ≡ err unauthorized
  reset-signs_out env draws token password db r user events later text claims at_token holder done
        read whose old =
      past-refused events _ later text claims read (
        rw whose (
          reset_moves platform env draws token password db r user claims.tv at_token holder done
            old))

  delete_moves :
      (id : ℕ) (actor : AuthUser) (db : Db Decimal) (user : Account Decimal) (v : ℕ)
      → find account_id id db.staff.accounts ≡ some user
      → (delete_user id actor db).0 ≡ ok tt
      → v ≤ user.credentials.token_version
      → IsPast id v (delete_user id actor db).1.staff.accounts [] []
  unfolding delete_user
  delete_moves id actor db user v holder done old =
      let moved = find-modify account_id id id retired db.staff.accounts (λ a. refl) in
      ground (arith, moved, lt→ltb v (user.credentials.token_version + 1))

  -- Once an account is deleted, a session token that reads as a session of it, with a version up to the
  -- one that the account had, is refused, whatever requests are served in between.
  pub delete_user-signs_out :
      (id : ℕ) (actor : AuthUser) (db : Db Decimal) (user : Account Decimal)
      (events : List (Incoming Decimal)) (later : Env) (text : Text) (claims : SessionClaims)
      → find account_id id db.staff.accounts ≡ some user
      → (delete_user id actor db).0 ≡ ok tt
      → session_of (platform.read_token later.now text) ≡ some claims
      → claims.id ≡ id
      → claims.tv ≤ user.credentials.token_version
      → (verify_session platform later
          (some text)
          (serve_all platform events (delete_user id actor db).1)).0
        ≡ err unauthorized
  delete_user-signs_out id actor db user events later text claims holder done read whose old =
      past-refused events _ later text claims read
        (rw whose (delete_moves id actor db user claims.tv holder done old))
