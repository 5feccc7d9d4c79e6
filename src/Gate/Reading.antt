-- ===== src/Gate/Reading.antt =====
-- The checks of backend/src/admin/admin.service.ts, `updateUser`, only read.
use vfw.Prelude.{ℕ, ◌≡◌, Option, none, some, refl}
use vfw.Decimal.{Decimals}
use vfw.Acl.{AuthUser}
use vfw.Store.{Text, Db}
use vfw.Store.Staff.{Account}
use vfw.Store.Keeps.{Keeps, keeps_rules}
use vfw.Users.{live_account}
use vfw.Users.Editing.{
  UpdateUserDto, two_places, percentage, assert_allowed, checked_amounts, assert_new_role,
}

pub live_account-Keeps : {D : Type 0} {P : Db D → Type 0} (id : ℕ) → Keeps P (live_account id)
live_account-Keeps id = search keeps_rules depth 8

module _ ⦃d : Decimals⦄ {P : Db d.Decimal → Type 0} where
  open d use {Decimal}

  pub two_places-Keeps : (raw : Option (Option Decimal)) → Keeps P (two_places raw)
  two_places-Keeps none = search keeps_rules
  two_places-Keeps (some raw) = search keeps_rules depth 8

  pub percentage-Keeps : (raw : Option (Option Decimal)) → Keeps P (percentage raw)
  percentage-Keeps none = search keeps_rules
  percentage-Keeps (some raw) = search keeps_rules depth 8

  pub assert_new_role-Keeps :
      (role : Option Text) (user : Account Decimal) → Keeps P (assert_new_role role user)
  assert_new_role-Keeps none user = search keeps_rules
  assert_new_role-Keeps (some key) user = search keeps_rules depth 8

  pub checked_amounts-Keeps :
      (dto : UpdateUserDto Decimal) (user : Account Decimal) → Keeps P (checked_amounts dto user)
  unfolding checked_amounts
  checked_amounts-Keeps dto user =
      search (keeps_rules, assert_new_role-Keeps, percentage-Keeps, two_places-Keeps) depth 12

  pub assert_allowed-Keeps :
      (dto : UpdateUserDto Decimal) (user : Account Decimal) (actor : AuthUser)
      → Keeps P (assert_allowed dto user actor)
  unfolding assert_allowed
  assert_allowed-Keeps dto user actor = search keeps_rules depth 12

module _ ⦃d : Decimals⦄ where
  open d use {Decimal}

  pub assert_allowed-reads :
      (dto : UpdateUserDto Decimal) (user : Account Decimal) (actor : AuthUser) (db : Db Decimal)
      → (assert_allowed dto user actor db).1 ≡ db
  assert_allowed-reads dto user actor db =
      (assert_allowed-Keeps {P = λ x. x ≡ db} dto user actor).at db refl

  pub checked_amounts-reads :
      (dto : UpdateUserDto Decimal) (user : Account Decimal) (db : Db Decimal)
      → (checked_amounts dto user db).1 ≡ db
  checked_amounts-reads dto user db = (checked_amounts-Keeps {P = λ x. x ≡ db} dto user).at db refl
