-- ===== src/Auth/Lockout.antt =====
-- The lockout of backend/src/auth/auth.service.ts: how many passwords can be tried.
use mathlib.Core.Path.{subst}
use vfw.Prelude.{
  ℕ, suc, ◌+◌, ◌-◌, ◌≤◌, ◌<◌, ◌≡◌, sym, true, false, not, Option, none, some, List, [], ◌∷◌, arith,
  Bool-cases, Option-cases, inl, inr, if◌then◌else◌,
}
use vfw.Store.{Text, Db}
use vfw.Store.Access.{LoginAttempt}
use vfw.Store.Table.{find_where, All}
use vfw.Auth.{
  Platform, ends_after, is_locked, failed_again, has_email, attempt_at, lockout_ms, max_attempts,
}
use vfw.Auth.Login.{proved}
use vfw.Auth.Tries.{
  Guess, fifteen_minutes, login_at, checks, chances_le, chances, is_at, login-accounts,
  other_address, locked_at, wrong_at,
}

-- How many passwords can still be looked at before a time.
abbrev allowance : ℕ → Option LoginAttempt → ℕ
allowance end none = 5
allowance end (some a) = if not (ends_after a.lock_until (end - 1)) then 1 + (4 - a.count) else 0

allowance_le : (end : ℕ) (o : Option LoginAttempt) → allowance end o ≤ max_attempts
allowance_le end none = omega arith
allowance_le end (some a) = ground arith

module _ (end now : ℕ) (email : Text) where
  allowed_some :
      (o : Option LoginAttempt) → now < end → is_locked now o ≡ false → 0 < allowance end o
  allowed_some none in_time unlocked = omega arith
  allowed_some (some a) in_time unlocked = elim (Option-cases a.lock_until) [
    | inl free ↦ rw free (omega arith)
    | inr (t, lock) ↦ ground arith
  ]

  allowance_falls :
      (o : Option LoginAttempt)
      → now < end
      → end ≤ now + lockout_ms
      → is_locked now o ≡ false
      → suc (allowance end (some (failed_again now email o))) ≤ allowance end o
  allowance_falls none in_time window unlocked = ground arith
  allowance_falls (some a) in_time window unlocked = elim (Option-cases a.lock_until) [
    | inl free ↦ ground arith
    | inr (t, lock) ↦ ground arith
  ]

module _ {D : Type 0} (platform : Platform) (start : ℕ) where
  -- A try that falls into the window from `start`, and is a wrong password for the address.
  abbrev pub IsWrong : Text → Db D → Guess → Type 0
  IsWrong email db g =
      (start ≤ g.env.now)
      × (g.env.now < start + fifteen_minutes)
      × (is_at platform email g ≡ true
          → proved platform g.password (find_where (has_email email) db.staff.accounts) ≡ none)

  bounded :
      (email : Text) (gs : List Guess) (db : Db D)
      → All (IsWrong email db) gs
      → checks platform email gs db ≤ allowance (start + lockout_ms) (attempt_at email db)
  unfolding checks
  bounded email [] db wrong = omega arith
  bounded email (g ∷ gs) db ((after, before, miss), rest) =
      let end = start + lockout_ms in
      let same : (login_at platform g db).staff.accounts ≡ db.staff.accounts =
        login-accounts platform g db in
      let wrong' : All (IsWrong email (login_at platform g db)) gs =
        subst
          (λ accounts.
            All
              (λ g'.
                (start ≤ g'.env.now)
                × (g'.env.now < start + lockout_ms)
                × (is_at platform email g' ≡ true
                    → proved platform g'.password (find_where (has_email email) accounts) ≡ none))
              gs)
          (sym same) rest in
      let ih = bounded email gs (login_at platform g db) wrong' in
      elim (Bool-cases (is_at platform email g)) [
        | inl here ↦ elim (Bool-cases (is_locked g.env.now (attempt_at email db))) [
          | inl locked ↦
              let stays = locked_at platform email g db here locked in
              let ih' =
                subst
                  (λ x.
                    checks platform email gs (login_at platform g db)
                    ≤ allowance end (attempt_at email x))
                  stays ih in
              rw (here, locked) (omega (arith, ih'))
          | inr open' ↦
              let counted = wrong_at platform email g db here open' (miss here) in
              let falls =
                allowance_falls end g.env.now email (attempt_at email db) before (omega arith)
                  open' in
              let ih' =
                subst (λ o. checks platform email gs (login_at platform g db) ≤ allowance end o)
                  counted ih in
              rw (here, open') (omega (arith, falls, ih'))
        ]
        | inr away ↦
            let kept = other_address platform email g db away in
            let ih' =
              subst (λ o. checks platform email gs (login_at platform g db) ≤ allowance end o) kept
                ih in
            rw away (omega (arith, ih'))
      ]

  -- From any database, and for any password: of the wrong passwords that are tried for an address within
  -- fifteen minutes, however many they are and whatever is tried for other addresses in between, five at
  -- most come at a moment at which that password, the right one say, would have been accepted in place
  -- of the wrong one.
  pub guess_bound :
      (right email : Text) (gs : List Guess) (db : Db D)
      → All (IsWrong email db) gs
      → chances platform right email gs db ≤ 5
  guess_bound right email gs db wrong = omega (
    arith,
    chances_le platform right email gs db,
    bounded email gs db wrong,
    allowance_le (start + lockout_ms) (attempt_at email db),
  )
