-- ===== src/Auth/Return.antt =====
-- The end of a lockout of backend/src/auth/auth.service.ts: the owner of the account gets in.
use mathlib.Core.Path.{subst}
use vfw.Prelude.{
  ℕ, ◌+◌, ◌≤◌, ◌≡◌, ◌∙◌, refl, true, false, Option, some, List, [], ◌∷◌, arith, Bool-cases,
  Option-cases, inl, inr,
}
use vfw.Prelude.Digits.{same_text→eq}
use vfw.Store.{Text, Db, Env}
use vfw.Store.Access.{LoginAttempt, is_active}
use vfw.Store.Staff.{Account}
use vfw.Store.Table.{find_where, All}
use vfw.Store.Call.{ok}
use vfw.Auth.{
  Platform, address, is_locked, has_email, attempt_at, lockout_ms, signed_in, session_user,
  sign_session,
}
use vfw.Auth.Login.{login, proved, complete_first_factor}
use vfw.Auth.Tries.{
  fifteen_minutes, Guess, clear_same, login_at, try_all, is_at, login-accounts, other_address,
  locked_at, wrong_at,
}

-- Whether no lock outlasts a time.
abbrev pub IsFreeAt : ℕ → Option LoginAttempt → Type 0
IsFreeAt t o = is_locked t o ≡ false

module _ {D : Type 0} (platform : Platform) where
  right_counts :
      (g : Guess) (db : Db D) (t : ℕ) (user : Account D)
      → is_locked g.env.now (attempt_at (address platform g.email) db) ≡ false
      → proved platform g.password
          (find_where (has_email (address platform g.email)) db.staff.accounts)
        ≡ some user
      → IsFreeAt t (attempt_at (address platform g.email) db)
      → IsFreeAt t (attempt_at (address platform g.email) (login_at platform g db))
  unfolding login complete_first_factor
  right_counts g db t user open' right free =
      ground (arith, clear_same (address platform g.email) db.staff.access.attempts)

  right_at :
      (email : Text) (g : Guess) (db : Db D)
      → is_at platform email g ≡ true
      → is_locked g.env.now (attempt_at email db) ≡ false
      → (user : Account D)
      → proved platform g.password (find_where (has_email email) db.staff.accounts) ≡ some user
      → (t : ℕ) → IsFreeAt t (attempt_at email db)
      → IsFreeAt t (attempt_at email (login_at platform g db))
  right_at email g db here open' user right t =
      subst
        (λ x.
          is_locked g.env.now (attempt_at x db) ≡ false
          → proved platform g.password (find_where (has_email x) db.staff.accounts) ≡ some user
          → IsFreeAt t (attempt_at x db)
          → IsFreeAt t (attempt_at x (login_at platform g db)))
        (same_text→eq (address platform g.email) email here) (right_counts g db t user) open' right

  -- After a try at an address that is not locked, no lock outlasts the lockout from then.
  tried :
      (email : Text) (g : Guess) (db : Db D) (t : ℕ)
      → is_at platform email g ≡ true
      → is_locked g.env.now (attempt_at email db) ≡ false
      → g.env.now + lockout_ms ≤ t
      → IsFreeAt t (attempt_at email db)
      → IsFreeAt t (attempt_at email (login_at platform g db))
  tried email g db t here open' late free =
      elim (Option-cases
        (proved platform g.password (find_where (has_email email) db.staff.accounts))) [
          | inl wrong ↦ rw (wrong_at platform email g db here open' wrong) (ground arith)
          | inr (user, right) ↦ right_at email g db here open' user right t free
        ]

  still_free :
      (email : Text) (t : ℕ) (gs : List Guess) (db : Db D)
      → All (λ g. g.env.now + lockout_ms ≤ t) gs
      → IsFreeAt t (attempt_at email db)
      → IsFreeAt t (attempt_at email (try_all platform gs db))
  unfolding try_all
  still_free email t [] db late free = free
  still_free email t (g ∷ gs) db (late, rest) free =
      still_free email t gs (login_at platform g db) rest
        (elim (Bool-cases (is_at platform email g)) [
          | inl here ↦ elim (Bool-cases (is_locked g.env.now (attempt_at email db))) [
            | inl locked ↦ rw (locked_at platform email g db here locked) free
            | inr open' ↦ tried email g db t here open' late free
          ]
          | inr away ↦ rw (other_address platform email g db away) free
        ])

  all-accounts :
      (gs : List Guess) (db : Db D) → (try_all platform gs db).staff.accounts ≡ db.staff.accounts
  unfolding try_all
  all-accounts [] db = refl
  all-accounts (g ∷ gs) db = all-accounts gs (login_at platform g db) ∙ login-accounts platform g db

  lets_in :
      (env : Env) (raw password : Text) (db : Db D) (user : Account D)
      → is_locked env.now (attempt_at (address platform raw) db) ≡ false
      → proved platform password (find_where (has_email (address platform raw)) db.staff.accounts)
        ≡ some user
      → user.deleted ≡ false
      → is_active user.status ≡ true
      → user.credentials.totp_enabled ≡ false
      → (login platform env raw password db).0
        ≡ ok (
            signed_in
              (session_user user db)
              (sign_session platform env (session_user user db) user.credentials.token_version))
  unfolding login complete_first_factor
  lets_in env raw password db user open' right kept live plain = ground arith

  -- Whoever tries whatever for the address of an active account: fifteen minutes after the last try,
  -- the one who has the password, and no second factor, is signed in at once. A lock that is there at
  -- first is over by then.
  pub owner_gets_in :
      (gs : List Guess) (db : Db D) (env : Env) (raw password : Text) (user : Account D)
      → All (λ g. g.env.now + fifteen_minutes ≤ env.now) gs
      → IsFreeAt env.now (attempt_at (address platform raw) db)
      → proved platform password (find_where (has_email (address platform raw)) db.staff.accounts)
        ≡ some user
      → user.deleted ≡ false
      → is_active user.status ≡ true
      → user.credentials.totp_enabled ≡ false
      → let db' = try_all platform gs db in
        (login platform env raw password db').0
        ≡ ok (
            signed_in
              (session_user user db')
              (sign_session platform env (session_user user db') user.credentials.token_version))
  owner_gets_in gs db env raw password user late free right kept live plain =
      lets_in env raw password (try_all platform gs db) user
        (still_free (address platform raw) env.now gs db late free) (rw (all-accounts gs db) right)
        kept live plain
