-- ===== src/Auth/Guarded.antt =====
-- Who gets through the guard of backend/src/common/auth.guard.ts.
use mathlib.Core.Path.{subst}
use vfw.Prelude.{◌≡◌, ◌∙◌, ap, true, false, Option, some, arith, Option-cases, inl, inr}
use vfw.Acl.{AuthUser}
use vfw.Store.{Text, Db, Env}
use vfw.Store.Access.{is_active}
use vfw.Store.Staff.{Account}
use vfw.Store.Table.{find}
use vfw.Store.Call.{ok, Result-cases}
use vfw.Auth.{Platform, SessionClaims, account_id, session_user}
use vfw.Auth.Session.{
  Request, Route, token_of, grants, given_token, session_of, verify_session, can_activate,
}

module _ {D : Type 0} where
  session_holder :
      (platform : Platform) (env : Env) (token : Option Text) (db : Db D) (who : AuthUser)
      → (verify_session platform env token db).0 ≡ ok who
      → (text : Text) × (claims : SessionClaims) × (a : Account D) × (given_token token ≡ some text)
        × (session_of (platform.read_token env.now text) ≡ some claims)
        × (find account_id claims.id db.staff.accounts ≡ some a)
        × (a.deleted ≡ false)
        × (is_active a.status ≡ true)
        × (claims.tv ≡ a.credentials.token_version)
        × (who ≡ session_user a db)
  unfolding verify_session
  session_holder platform env token db who done = elim (Option-cases (given_token token)) [
    | inl missing ↦ ground arith
    | inr (text, given) ↦ elim (Option-cases (session_of (platform.read_token env.now text))) [
      | inl foreign ↦ ground arith
      | inr (claims, read) ↦ elim (Option-cases (find account_id claims.id db.staff.accounts)) [
        | inl nobody ↦ ground arith
        | inr (a, there) ↦ (
          text,
          claims,
          a,
          given,
          read,
          there,
          ground arith,
          ground arith,
          ground arith,
          ground arith,
        )
      ]
    ]
  ]

  let_through :
      (platform : Platform) (env : Env) (route : Route) (req : Request) (db : Db D)
      (o : Option AuthUser)
      → route.is_http ≡ true
      → route.is_public ≡ false
      → (can_activate platform env route req db).0 ≡ ok o
      → (who : AuthUser) × ((verify_session platform env (token_of platform req) db).0 ≡ ok who)
        × (o ≡ some who)
        × (grants route.permission who ≡ true)
  unfolding can_activate
  let_through platform env route req db o http closed done =
      elim (Result-cases (verify_session platform env (token_of platform req) db).0) [
        | inl (e, refused) ↦ ground arith
        | inr (who, verified) ↦ (who, verified, ground arith, ground arith)
      ]

  -- A request that the guard lets through to a route that is not public carries a token that was signed for
  -- a session of an account that is there now, is active and not deleted, and has the version of the
  -- token. The user of the request has the role of the account and the permissions of that role as
  -- they are stored now, not as they were when the token was signed, and they grant what the route asks.
  pub guard_sound :
      (platform : Platform) (env : Env) (route : Route) (req : Request) (db : Db D)
      (o : Option AuthUser)
      → route.is_http ≡ true
      → route.is_public ≡ false
      → (can_activate platform env route req db).0 ≡ ok o
      → (text : Text) × (claims : SessionClaims) × (a : Account D) × (given_token
            (token_of platform req)
          ≡ some text)
        × (session_of (platform.read_token env.now text) ≡ some claims)
        × (find account_id claims.id db.staff.accounts ≡ some a)
        × (a.deleted ≡ false)
        × (is_active a.status ≡ true)
        × (claims.tv ≡ a.credentials.token_version)
        × (o ≡ some (session_user a db))
        × (grants route.permission (session_user a db) ≡ true)
  guard_sound platform env route req db o http closed done =
      let (who, verified, it, granted) = let_through platform env route req db o http closed done in
      let (text, claims, a, given, read, there, kept, live, current, same) =
        session_holder platform env (token_of platform req) db who verified in
      (
        text,
        claims,
        a,
        given,
        read,
        there,
        kept,
        live,
        current,
        it ∙ ap some same,
        subst (λ w. grants route.permission w ≡ true) same granted,
      )
