-- ===== src/Gate/Administrators.antt =====
-- Nobody locks the console: an administrator who can sign in is always left
-- (backend/src/admin/admin.service.ts, `updateUser`, `deleteUser`, `rejectUser`).
use vfw.Prelude.{
  ℕ, ◌≡◌, refl, Bool, true, false, ◌&&◌, ◌||◌, ◌⊎◌, Option, none, some, List, [], ◌∷◌, ◌++◌, arith,
  ◌==◌, Bool-cases, Option-cases, inl, inr,
}
use vfw.Prelude.Words.{same_text}
use vfw.Decimal.{Decimals}
use vfw.Acl.{AuthUser}
use vfw.Roles.{admin_role, given_or}
use vfw.Store.{Text, Db}
use vfw.Store.Access.{UserStatus, PasswordReset, is_active, is_pending}
use vfw.Store.Staff.{Account, Invitation}
use vfw.Store.Table.{find, modify, find_key}
use vfw.Store.Call.{ok, ◌>>=◌}
use vfw.Store.Keeps.{Keeps, bind_reads}
use vfw.Auth.{Platform, account_id}
use vfw.Store.Audit.{log_action}
use vfw.Users.{
  live_account, is_admin, other_active_admins, delete_user, reject_user, retired, turned_down,
}
use vfw.Users.Editing.{
  Standing, enabled, suspended, standing_or, differs, UpdateUserDto, update_user, write_edit,
  has_change, edited, assert_allowed, checked_amounts, Amounts, steps_down, moves, suspends,
}
use vfw.Gate.Lasting.{Holds, IsMild, IsLasting}
use vfw.Prelude.Digits.{same_text→eq}
use vfw.Gate.Reading.{live_account-Keeps, assert_allowed-reads, checked_amounts-reads}
use vfw.Gate.Served.{IsGuarded, serve_all-Holds}
use vfw.Gate.{Incoming, serve_all}

module _ {D : Type 0} where
  abbrev pub has_admin : List (Account D) → Bool
  has_admin [] = false
  has_admin (a ∷ rest) = is_admin a || has_admin rest

  abbrev pub IsRun : List (Account D) → List Invitation → List PasswordReset → Type 0
  IsRun accounts invitations resets = has_admin accounts ≡ true

  admin-modify :
      (k : ℕ) (f : Account D → Account D) (m : IsMild f) (rows : List (Account D))
      → has_admin rows ≡ true
      → has_admin (modify account_id k f rows) ≡ true
  unfolding modify
  admin-modify k f m [] h = cc
  admin-modify k f m (a ∷ rest) h = ground (arith, m.retains a, admin-modify k f m rest)

  admin-append :
      (x : Account D) (rows : List (Account D))
      → has_admin rows ≡ true
      → has_admin (rows ++ (x ∷ [])) ≡ true
  admin-append x [] h = cc
  admin-append x (a ∷ rest) h = ground (arith, admin-append x rest)

  -- Whatever is done to one account, the administrators that are counted beside it are left.
  others_left :
      (k : ℕ) (f : Account D → Account D) (rows : List (Account D))
      → (other_active_admins k rows == 0) ≡ false
      → has_admin (modify account_id k f rows) ≡ true
  unfolding modify other_active_admins
  others_left k f [] h = cc
  others_left k f (a ∷ rest) h = ground (arith, others_left k f rest, still k rest)
    where
      still :
          (k : ℕ) (rows : List (Account D))
          → (other_active_admins k rows == 0) ≡ false
          → has_admin rows ≡ true
      still k [] h = cc
      still k (a ∷ rest) h = ground (arith, still k rest)

  -- An account that was no administrator, or is one still, takes nobody away.
  one-modify :
      (k : ℕ) (f : Account D → Account D) (rows : List (Account D)) (user : Account D)
      → find account_id k rows ≡ some user
      → (is_admin user ≡ false) ⊎ (is_admin (f user) ≡ true)
      → has_admin rows ≡ true
      → has_admin (modify account_id k f rows) ≡ true
  unfolding find modify
  one-modify k f [] user h e run = cc
  one-modify k f (a ∷ rest) user h e run = ground (arith, one-modify k f rest user)

  IsRun-IsLasting : IsLasting {D = D} IsRun
  IsRun-IsLasting = record {
    account_write = λ k f as' is rs m h. admin-modify k f m as' h;
    account_added = λ a as' is rs h. admin-append a as' h;
    invitation_write = λ k f as' is rs w h. h;
    invitation_added = λ i as' is rs h. h;
    reset_write = λ t f as' is rs w h. h;
    resets_write = λ f as' is rs w h. h;
    reset_added = λ r as' is rs h. h;
  }

  pending_admin : (a : Account D) → is_pending a.status ≡ true → is_admin a ≡ false
  unfolding is_admin
  pending_admin a h = ground arith

  other_role : (a : Account D) → same_text a.role admin_role ≡ false → is_admin a ≡ false
  unfolding is_admin
  other_role a h = ground arith

  reject_user-IsRun :
      (id : ℕ) (actor : AuthUser) → Keeps (Holds {D = D} IsRun) (reject_user id actor)
  unfolding reject_user
  reject_user-IsRun id actor = record {
    at = λ db run. elim (Option-cases (find account_id id db.staff.accounts)) [
      | inl gone ↦ ground arith
      | inr (user, there) ↦
          ground (arith, pending_admin user, one-modify id turned_down db.staff.accounts user there)
    ];
  }

  delete_user-IsRun :
      (id : ℕ) (actor : AuthUser) → Keeps (Holds {D = D} IsRun) (delete_user id actor)
  unfolding delete_user
  delete_user-IsRun id actor = record {
    at = λ db run. elim (Option-cases (find account_id id db.staff.accounts)) [
      | inl gone ↦ ground arith
      | inr (user, there) ↦
          let known : user.id ≡ id = find_key account_id id db.staff.accounts user there in
          ground (
            arith,
            other_role user,
            others_left id retired db.staff.accounts,
            one-modify id retired db.staff.accounts user there,
          )
    ];
  }

role_stays :
    (next : Option Text) (role : Text)
    → (differs same_text next role && same_text role admin_role) ≡ false
    → same_text role admin_role ≡ true
    → same_text (given_or next role) admin_role ≡ true
role_stays none role h admin = admin
role_stays (some next) role h admin = elim (Bool-cases (same_text next role)) [
  | inl same ↦ rw (same_text→eq next role same) admin
  | inr other ↦ ground arith
]

status_stays :
    (next : Option Standing) (status : UserStatus)
    → (suspends next && moves next status) ≡ false
    → is_active status ≡ true
    → is_active (standing_or next status) ≡ true
status_stays none status h live = live
status_stays (some enabled) status h live = refl
status_stays (some suspended) status h live = ground arith

module _ ⦃d : Decimals⦄ where
  open d use {Decimal}

  -- Who neither changes their role nor is suspended administers on.
  stays_admin :
      (dto : UpdateUserDto Decimal) (amounts : Amounts) (user : Account Decimal)
      → steps_down dto user ≡ false
      → is_admin user ≡ true
      → is_admin (edited dto amounts user) ≡ true
  unfolding is_admin edited
  stays_admin dto amounts user stays run =
      ground (arith, role_stays dto.role user.role, status_stays dto.status user.status)

  allowed_inv :
      (dto : UpdateUserDto Decimal) (user : Account Decimal) (actor : AuthUser) (db : Db Decimal)
      → (assert_allowed dto user actor db).0 ≡ ok tt
      → (steps_down dto user ≡ false)
        ⊎ ((other_active_admins user.id db.staff.accounts == 0) ≡ false)
  unfolding assert_allowed
  allowed_inv dto user actor db done = ground arith

  -- The write of `updateUser`, once it is allowed.
  edit_leaves :
      (id : ℕ) (dto : UpdateUserDto Decimal) (amounts : Amounts) (user : Account Decimal)
      (rows : List (Account Decimal))
      → find account_id id rows ≡ some user
      → (steps_down dto user ≡ false) ⊎ ((other_active_admins user.id rows == 0) ≡ false)
      → has_admin rows ≡ true
      → has_admin (modify account_id id (edited dto amounts) rows) ≡ true
  edit_leaves id dto amounts user rows there (inl stays) run =
      one-modify id (edited dto amounts) rows user there
        (ground (arith, stays_admin dto amounts user stays, Bool-cases (is_admin user))) run
  edit_leaves id dto amounts user rows there (inr others) run =
      others_left id (edited dto amounts) rows
        (rw (← find_key account_id id rows user there) others)

  live_inv :
      (id : ℕ) (user : Account Decimal) (db : Db Decimal)
      → (live_account id db).0 ≡ ok user
      → find account_id id db.staff.accounts ≡ some user
  live_inv id user db live = ground arith

  write_leaves :
      (id : ℕ) (dto : UpdateUserDto Decimal) (amounts : Amounts) (user : Account Decimal)
      (actor : AuthUser) (db : Db Decimal)
      → has_admin (modify account_id id (edited dto amounts) db.staff.accounts) ≡ true
      → has_admin db.staff.accounts ≡ true
      → Holds IsRun (write_edit id dto amounts user actor db).1
  unfolding write_edit log_action
  write_leaves id dto amounts user actor db after run =
      elim (Bool-cases (has_change dto amounts user)) [
        | inl change ↦ rw change after
        | inr same ↦ rw same run
      ]

  update_user-IsRun :
      (id : ℕ) (dto : UpdateUserDto Decimal) (actor : AuthUser)
      → Keeps (Holds {D = Decimal} IsRun) (update_user id dto actor)
  unfolding update_user
  update_user-IsRun id dto actor = record {
    at = λ db run.
        let write =
          λ (user : Account Decimal) (amounts : Amounts). write_edit id dto amounts user actor in
        let check =
          λ (user : Account Decimal) (_ : Unit {0}). checked_amounts dto user >>= write user in
        let allow = λ (user : Account Decimal). assert_allowed dto user actor >>= check user in
        let live_reads = (live_account-Keeps {P = λ x. x ≡ db} id).at db refl in
        bind_reads (Holds IsRun) (live_account id) allow db live_reads run λ user live.
          let allow_reads = assert_allowed-reads dto user actor db in
          bind_reads (Holds IsRun) (assert_allowed dto user actor) (check user) db allow_reads run
            λ _ allowed.
              let check_reads = checked_amounts-reads dto user db in
              bind_reads (Holds IsRun) (checked_amounts dto user) (write user) db check_reads run
                λ amounts _.
                  write_leaves id dto amounts user actor db
                    (edit_leaves id dto amounts user db.staff.accounts (live_inv id user db live)
                      (allowed_inv dto user actor db allowed) run)
                    run;
  }

  IsRun-IsGuarded : IsGuarded (IsRun {D = Decimal})
  IsRun-IsGuarded = record {
    edit = update_user-IsRun;
    removal = delete_user-IsRun;
    refusal = reject_user-IsRun;
  }

  -- Over any sequence of requests an active administrator whose account is not deleted is left, if there
  -- is one at first.
  pub admin_remains :
      (platform : Platform) (events : List (Incoming Decimal)) (db : Db Decimal)
      → has_admin db.staff.accounts ≡ true
      → has_admin (serve_all platform events db).staff.accounts ≡ true
  admin_remains platform events db run =
      serve_all-Holds platform IsRun-IsLasting IsRun-IsGuarded events db run
