-- ===== src/Auth/Tries.antt =====
-- Sequences of tries at the passwords of backend/src/auth/auth.service.ts, `login`.
use mathlib.Core.Path.{subst}
use vfw.Prelude.{
  ℕ, ◌+◌, ◌≤◌, ◌≡◌, refl, Bool, true, false, not, ◌&&◌, none, some, List, [], ◌∷◌, arith,
  Bool-cases, inl, inr, if◌then◌else◌,
}
use vfw.Prelude.Words.{same_text, trim}
use vfw.Prelude.Digits.{same_text→eq, same_text_refl}
use vfw.Store.{Text, Db, Env}
use vfw.Store.Access.{LoginAttempt}
use vfw.Store.Table.{find_where, filter}
use vfw.Store.Call.{Result, ok, err, unauthorized}
use vfw.Auth.{
  Platform, address, is_for, put_attempt, is_locked, failed_again, has_email, attempt_at,
  record_failure,
}
use vfw.Auth.Login.{login, proved, complete_first_factor}

-- A password that is tried at some time.
pub record Guess : Type 0 where
  pub env : Env
  pub email : Text
  pub password : Text

-- How long a lock holds, in milliseconds.
abbrev pub fifteen_minutes : ℕ
fifteen_minutes = 900_000

abbrev pub is_at : Platform → Text → Guess → Bool
is_at platform email g = same_text (address platform g.email) email

put_same :
    (row : LoginAttempt) (rows : List LoginAttempt)
    → find_where (is_for row.email) (put_attempt row rows) ≡ some row
unfolding find_where put_attempt
put_same row [] = ground (arith, same_text_refl row.email)
put_same row (a ∷ rest) = ground (arith, same_text_refl row.email, put_same row rest)

put_other :
    (row : LoginAttempt) (email : Text) (rows : List LoginAttempt)
    → same_text row.email email ≡ false
    → find_where (is_for email) (put_attempt row rows) ≡ find_where (is_for email) rows
unfolding find_where put_attempt
put_other row email [] h = ground arith
put_other row email (a ∷ rest) h = elim (Bool-cases (same_text a.email row.email)) [
  | inl same ↦
      let e : a.email ≡ row.email = same_text→eq a.email row.email same in
      let h' : same_text a.email email ≡ false = rw e h in ground arith
  | inr other ↦ ground (arith, put_other row email rest)
]

pub clear_same :
    (email : Text) (rows : List LoginAttempt)
    → find_where (is_for email) (filter (λ a. not (is_for email a)) rows) ≡ none
unfolding find_where filter
clear_same email [] = refl
clear_same email (a ∷ rest) = ground (arith, clear_same email rest)

clear_other :
    (cleared email : Text) (rows : List LoginAttempt)
    → same_text cleared email ≡ false
    → find_where (is_for email) (filter (λ a. not (is_for cleared a)) rows)
      ≡ find_where (is_for email) rows
unfolding find_where filter
clear_other cleared email [] h = refl
clear_other cleared email (a ∷ rest) h = elim (Bool-cases (same_text a.email cleared)) [
  | inl same ↦
      let e : a.email ≡ cleared = same_text→eq a.email cleared same in
      let h' : same_text a.email email ≡ false = rw e h in
      ground (arith, clear_other cleared email rest)
  | inr other ↦ ground (arith, clear_other cleared email rest)
]

abbrev pub is_ok : {A : Type 0} → Result A → Bool
is_ok (ok a) = true
is_ok (err e) = false

module _ {D : Type 0} (platform : Platform) where
  abbrev pub login_at : Guess → Db D → Db D
  login_at g db = (login platform g.env g.email g.password db).1

  -- The database after a sequence of tries.
  unfoldable pub try_all : List Guess → Db D → Db D
  unfolding login
  try_all [] db = db
  try_all (g ∷ gs) db = try_all gs (login_at g db)

  -- How often a password for the address is looked at.
  unfoldable pub checks : Text → List Guess → Db D → ℕ
  unfolding login find_where same_text trim
  checks email [] db = 0
  checks email (g ∷ gs) db =
      (if is_at platform email g && not (is_locked g.env.now (attempt_at email db)) then 1 else 0)
      + checks email gs (login_at g db)

  -- How many of the tries came at a moment at which another password, in place of the one tried, would
  -- have been accepted.
  unfoldable pub chances : Text → Text → List Guess → Db D → ℕ
  unfolding login find_where same_text trim
  chances right email [] db = 0
  chances right email (g ∷ gs) db =
      (if is_at platform email g && is_ok (login platform g.env g.email right db).0 then 1 else 0)
      + chances right email gs (login_at g db)

  locked_refused :
      (g : Guess) (right : Text) (db : Db D)
      → is_locked g.env.now (attempt_at (address platform g.email) db) ≡ true
      → (login platform g.env g.email right db).0 ≡ err unauthorized
  unfolding login
  locked_refused g right db locked = ground arith

  -- A locked address accepts no password.
  pub chances_le :
      (right email : Text) (gs : List Guess) (db : Db D)
      → chances right email gs db ≤ checks email gs db
  unfolding chances checks
  chances_le right email [] db = omega arith
  chances_le right email (g ∷ gs) db =
      let ih = chances_le right email gs (login_at g db) in
      elim (Bool-cases (is_at platform email g)) [
        | inr away ↦ rw away (omega (arith, ih))
        | inl here ↦ elim (Bool-cases (is_locked g.env.now (attempt_at email db))) [
          | inr unlocked ↦
              rw (here, unlocked)
                (ground (arith, ih, Bool-cases (is_ok (login platform g.env g.email right db).0)))
          | inl locked ↦
              let refused =
                locked_refused g right db
                  (rw (same_text→eq (address platform g.email) email here) locked) in
              rw (here, locked, refused) (omega (arith, ih))
        ]
      ]

  pub login-accounts : (g : Guess) (db : Db D) → (login_at g db).staff.accounts ≡ db.staff.accounts
  unfolding login record_failure complete_first_factor
  login-accounts g db = ground arith

  pub other_address :
      (email : Text) (g : Guess) (db : Db D)
      → is_at platform email g ≡ false
      → attempt_at email (login_at g db) ≡ attempt_at email db
  unfolding login record_failure complete_first_factor
  other_address email g db other =
      let e' = address platform g.email in
      ground (
        arith,
        put_other (failed_again g.env.now e' (attempt_at e' db)) email db.staff.access.attempts
            other,
        clear_other e' email db.staff.access.attempts other,
      )

  pub locked_out :
      (g : Guess) (db : Db D)
      → is_locked g.env.now (attempt_at (address platform g.email) db) ≡ true
      → login_at g db ≡ db
  unfolding login
  locked_out g db locked = ground arith

  wrong_counts :
      (g : Guess) (db : Db D)
      → is_locked g.env.now (attempt_at (address platform g.email) db) ≡ false
      → proved platform g.password
          (find_where (has_email (address platform g.email)) db.staff.accounts)
        ≡ none
      → attempt_at (address platform g.email) (login_at g db)
        ≡ some (
            failed_again g.env.now
              (address platform g.email)
              (attempt_at (address platform g.email) db))
  unfolding login record_failure
  wrong_counts g db unlocked wrong =
      let e' = address platform g.email in
      ground
        (arith, put_same (failed_again g.env.now e' (attempt_at e' db)) db.staff.access.attempts)

  -- The same, for a try at a known address.
  pub locked_at :
      (email : Text) (g : Guess) (db : Db D)
      → is_at platform email g ≡ true
      → is_locked g.env.now (attempt_at email db) ≡ true
      → login_at g db ≡ db
  locked_at email g db here locked =
      locked_out g db (rw (same_text→eq (address platform g.email) email here) locked)

  pub wrong_at :
      (email : Text) (g : Guess) (db : Db D)
      → is_at platform email g ≡ true
      → is_locked g.env.now (attempt_at email db) ≡ false
      → proved platform g.password (find_where (has_email email) db.staff.accounts) ≡ none
      → attempt_at email (login_at g db) ≡ some (failed_again g.env.now email (attempt_at email db))
  wrong_at email g db here =
      subst
        (λ x.
          is_locked g.env.now (attempt_at x db) ≡ false
          → proved platform g.password (find_where (has_email x) db.staff.accounts) ≡ none
          → attempt_at x (login_at g db) ≡ some (failed_again g.env.now x (attempt_at x db)))
        (same_text→eq (address platform g.email) email here) (wrong_counts g db)
