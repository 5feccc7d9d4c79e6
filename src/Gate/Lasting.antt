-- ===== src/Gate/Lasting.antt =====
-- Properties of the accounts, the invitations and the reset links, and the writes that they get along with.
use vfw.Prelude.{ℕ, ◌≤◌, ◌≡◌, true, false, Option, List, [], ◌∷◌, ◌++◌, map, arith, refl}
use vfw.Store.{Text, Db}
use vfw.Store.Access.{PasswordReset}
use vfw.Store.Staff.{Account, Invitation}
use vfw.Store.Table.{modify, modify_where}
use vfw.Auth.{account_id}
use vfw.Auth.Login.{linked}
use vfw.Auth.Otp.{activated}
use vfw.Users.{is_admin, retired, turned_down}
use vfw.Users.Invitations.{rewritten, binned, revoked}
use vfw.Roles.{nothing?}
use vfw.Auth.Signup.{invitation_id, claimed, redeemed_by}
use vfw.Auth.Recovery.{has_token, rekeyed, used, spoil}
use Prim.Native.String.{String}

-- What the three tables hold.
abbrev pub Ledger : Type 0 → Type 1
Ledger D = List (Account D) → List Invitation → List PasswordReset → Type 0

abbrev pub Holds : {D : Type 0} → Ledger D → Db D → Type 0
Holds P db = P db.staff.accounts db.staff.invitations db.staff.access.resets

-- A write that leaves the account itself, and does not turn its version back.
pub record IsSteady {D : Type 0} (f : Account D → Account D) : Type 0 where
  pub itself : (a : Account D) → (f a).id ≡ a.id
  pub onward : (a : Account D) → a.credentials.token_version ≤ (f a).credentials.token_version

-- One that takes nobody's administration away either.
pub record IsMild {D : Type 0} (f : Account D → Account D) : Type 0 where
  pub steady : IsSteady f
  pub retains : (a : Account D) → is_admin a ≡ true → is_admin (f a) ≡ true

-- A write to an invitation, or a reset link, that leaves it itself, and used if it was.
pub record IsInvitationWrite (f : Invitation → Invitation) : Type 0 where
  pub same_code : (i : Invitation) → (f i).code ≡ i.code
  pub stays : (i : Invitation) → nothing? i.used_at ≡ false → nothing? (f i).used_at ≡ false

pub record IsResetWrite (f : PasswordReset → PasswordReset) : Type 0 where
  pub same_token : (r : PasswordReset) → (f r).token ≡ r.token
  pub stays : (r : PasswordReset) → nothing? r.used_at ≡ false → nothing? (f r).used_at ≡ false

-- What a property of the tables has to get along with.
pub record IsLasting {D : Type 0} (P : Ledger D) : Type 0 where
  pub account_write :
      (id : ℕ) (f : Account D → Account D) (accounts : List (Account D))
      (invitations : List Invitation) (resets : List PasswordReset)
      → IsMild f
      → P accounts invitations resets
      → P (modify account_id id f accounts) invitations resets
  pub account_added :
      (a : Account D) (accounts : List (Account D)) (invitations : List Invitation)
      (resets : List PasswordReset)
      → P accounts invitations resets
      → P (accounts ++ (a ∷ [])) invitations resets
  pub invitation_write :
      (id : ℕ) (f : Invitation → Invitation) (accounts : List (Account D))
      (invitations : List Invitation) (resets : List PasswordReset)
      → IsInvitationWrite f
      → P accounts invitations resets
      → P accounts (modify invitation_id id f invitations) resets
  pub invitation_added :
      (i : Invitation) (accounts : List (Account D)) (invitations : List Invitation)
      (resets : List PasswordReset)
      → P accounts invitations resets
      → P accounts (invitations ++ (i ∷ [])) resets
  pub reset_write :
      (token : Text) (f : PasswordReset → PasswordReset) (accounts : List (Account D))
      (invitations : List Invitation) (resets : List PasswordReset)
      → IsResetWrite f
      → P accounts invitations resets
      → P accounts invitations (modify_where (has_token token) f resets)
  pub resets_write :
      (f : PasswordReset → PasswordReset) (accounts : List (Account D))
      (invitations : List Invitation) (resets : List PasswordReset)
      → IsResetWrite f
      → P accounts invitations resets
      → P accounts invitations (map f resets)
  pub reset_added :
      (r : PasswordReset) (accounts : List (Account D)) (invitations : List Invitation)
      (resets : List PasswordReset)
      → P accounts invitations resets
      → P accounts invitations (resets ++ (r ∷ []))

-- One that gets along with every steady write to an account.
pub record IsFirm {D : Type 0} (P : Ledger D) : Type 0 where
  pub lasting : IsLasting P
  pub steady_write :
      (id : ℕ) (f : Account D → Account D) (accounts : List (Account D))
      (invitations : List Invitation) (resets : List PasswordReset)
      → IsSteady f
      → P accounts invitations resets
      → P (modify account_id id f accounts) invitations resets

module _ {D : Type 0} where
  pub activated-IsMild : IsMild {D = D} activated
  unfolding is_admin
  activated-IsMild = record {
    steady = record { itself = λ a. refl; onward = λ a. omega arith };
    retains = λ a h. ground arith;
  }

  pub linked-IsMild : (sub : Text) → IsMild {D = D} (linked sub)
  unfolding is_admin
  linked-IsMild sub = record {
    steady = record { itself = λ a. refl; onward = λ a. omega arith };
    retains = λ a h. h;
  }

  pub rekeyed-IsMild : (hash : String) → IsMild {D = D} (rekeyed hash)
  unfolding is_admin
  rekeyed-IsMild hash = record {
    steady = record { itself = λ a. refl; onward = λ a. omega arith };
    retains = λ a h. h;
  }

  pub retired-IsSteady : IsSteady {D = D} retired
  retired-IsSteady = record { itself = λ a. refl; onward = λ a. omega arith }

  pub turned_down-IsSteady : IsSteady {D = D} turned_down
  turned_down-IsSteady = record { itself = λ a. refl; onward = λ a. omega arith }

pub claimed-IsInvitationWrite : (now : ℕ) → IsInvitationWrite (claimed now)
claimed-IsInvitationWrite now = record { same_code = λ i. refl; stays = λ i h. refl }

pub redeemed_by-IsInvitationWrite : (id : ℕ) → IsInvitationWrite (redeemed_by id)
redeemed_by-IsInvitationWrite id = record { same_code = λ i. refl; stays = λ i h. h }

pub rewritten-IsInvitationWrite :
    (role : Option Text) (department : Option String) (email : Option (Option Text))
    → IsInvitationWrite (rewritten role department email)
rewritten-IsInvitationWrite role department email = record {
  same_code = λ i. refl;
  stays = λ i h. h;
}

pub binned-IsInvitationWrite : (now : ℕ) → IsInvitationWrite (binned now)
binned-IsInvitationWrite now = record { same_code = λ i. refl; stays = λ i h. h }

pub revoked-IsInvitationWrite : (now : ℕ) → IsInvitationWrite (revoked now)
revoked-IsInvitationWrite now = record { same_code = λ i. refl; stays = λ i h. h }

pub used-IsResetWrite : (now : ℕ) → IsResetWrite (used now)
used-IsResetWrite now = record { same_token = λ r. refl; stays = λ r h. refl }

pub spoil-IsResetWrite : (now user_id : ℕ) → IsResetWrite (spoil now user_id)
spoil-IsResetWrite now user_id = record {
  same_token = λ r. ground arith;
  stays = λ r h. ground arith;
}

pub ruleset mild_rules = (
  activated-IsMild, linked-IsMild, rekeyed-IsMild, claimed-IsInvitationWrite,
  redeemed_by-IsInvitationWrite, rewritten-IsInvitationWrite, binned-IsInvitationWrite,
  revoked-IsInvitationWrite, used-IsResetWrite, spoil-IsResetWrite,
)
