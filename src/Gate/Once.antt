-- ===== src/Gate/Once.antt =====
-- What can be used once: a reset link (backend/src/auth/auth.service.ts, `reset`) and an invitation
-- (`signup`).
use vfw.Prelude.{
  ℕ, ◌≡◌, Bool, true, false, not, Option, none, some, List, [], ◌∷◌, ◌++◌, map, Option-cases, inl,
  inr, arith,
}
use vfw.Decimal.{Decimals}
use vfw.Store.{Text, Db, Env}
use vfw.Store.Access.{PasswordReset}
use vfw.Store.Staff.{Account, Invitation}
use vfw.Store.Table.{find, find_where, modify, modify_where}
use vfw.Store.Call.{ok, err, bad_request}
use vfw.Roles.{nothing?}
use vfw.Auth.{Platform, Draws, account_id}
use vfw.Auth.Signup.{has_code, invitation_id}
use vfw.Auth.Recovery.{reset, reset_at, has_token, spoil, used}
use vfw.Gate.Lasting.{IsInvitationWrite, IsResetWrite, IsFirm, spoil-IsResetWrite}
use vfw.Gate.Served.{serve_all-Holds, firm-IsGuarded}
use vfw.Gate.{Incoming, serve_all}

-- Whether a link, or an invitation, is there and used.
abbrev pub is_spent : Option PasswordReset → Bool
is_spent none = false
is_spent (some r) = not (nothing? r.used_at)

abbrev pub is_redeemed : Option Invitation → Bool
is_redeemed none = false
is_redeemed (some i) = not (nothing? i.used_at)

module _ (token : Text) where
  spent-modify :
      (key : Text) (f : PasswordReset → PasswordReset) (w : IsResetWrite f)
      (rows : List PasswordReset)
      → is_spent (find_where (has_token token) rows) ≡ true
      → is_spent (find_where (has_token token) (modify_where (has_token key) f rows)) ≡ true
  unfolding find_where modify_where
  spent-modify key f w [] h = cc
  spent-modify key f w (r ∷ rest) h =
      ground (arith, w.same_token r, w.stays r, spent-modify key f w rest)

  spent-map :
      (f : PasswordReset → PasswordReset) (w : IsResetWrite f) (rows : List PasswordReset)
      → is_spent (find_where (has_token token) rows) ≡ true
      → is_spent (find_where (has_token token) (map f rows)) ≡ true
  unfolding find_where
  spent-map f w [] h = cc
  spent-map f w (r ∷ rest) h = ground (arith, w.same_token r, w.stays r, spent-map f w rest)

  spent-append :
      (x : PasswordReset) (rows : List PasswordReset)
      → is_spent (find_where (has_token token) rows) ≡ true
      → is_spent (find_where (has_token token) (rows ++ (x ∷ []))) ≡ true
  unfolding find_where
  spent-append x [] h = cc
  spent-append x (r ∷ rest) h = ground (arith, spent-append x rest)

  -- A used link stays used.
  pub used_up :
      (now : ℕ) (rows : List PasswordReset) (r : PasswordReset)
      → find_where (has_token token) rows ≡ some r
      → is_spent (find_where (has_token token) (modify_where (has_token token) (used now) rows))
        ≡ true
  unfolding find_where modify_where
  used_up now [] r h = cc
  used_up now (x ∷ rest) r h = ground (arith, used_up now rest r)

module _ (code : Text) where
  pub redeemed-modify :
      (k : ℕ) (f : Invitation → Invitation) (w : IsInvitationWrite f) (rows : List Invitation)
      → is_redeemed (find_where (has_code code) rows) ≡ true
      → is_redeemed (find_where (has_code code) (modify invitation_id k f rows)) ≡ true
  unfolding find_where modify
  redeemed-modify k f w [] h = cc
  redeemed-modify k f w (i ∷ rest) h =
      ground (arith, w.same_code i, w.stays i, redeemed-modify k f w rest)

  redeemed-append :
      (x : Invitation) (rows : List Invitation)
      → is_redeemed (find_where (has_code code) rows) ≡ true
      → is_redeemed (find_where (has_code code) (rows ++ (x ∷ []))) ≡ true
  unfolding find_where
  redeemed-append x [] h = cc
  redeemed-append x (i ∷ rest) h = ground (arith, redeemed-append x rest)

module _ {D : Type 0} where
  abbrev pub IsSpent : Text → List (Account D) → List Invitation → List PasswordReset → Type 0
  IsSpent token accounts invitations resets = is_spent (find_where (has_token token) resets) ≡ true

  abbrev pub IsRedeemed : Text → List (Account D) → List Invitation → List PasswordReset → Type 0
  IsRedeemed code accounts invitations resets =
      is_redeemed (find_where (has_code code) invitations) ≡ true

  pub IsSpent-IsFirm : (token : Text) → IsFirm (IsSpent token)
  IsSpent-IsFirm token = record {
    lasting = record {
      account_write = λ k f as' is rs m h. h;
      account_added = λ a as' is rs h. h;
      invitation_write = λ k f as' is rs w h. h;
      invitation_added = λ i as' is rs h. h;
      reset_write = λ t f as' is rs w h. spent-modify token t f w rs h;
      resets_write = λ f as' is rs w h. spent-map token f w rs h;
      reset_added = λ r as' is rs h. spent-append token r rs h;
    };
    steady_write = λ k f as' is rs s h. h;
  }

  pub IsRedeemed-IsFirm : (code : Text) → IsFirm (IsRedeemed code)
  IsRedeemed-IsFirm code = record {
    lasting = record {
      account_write = λ k f as' is rs m h. h;
      account_added = λ a as' is rs h. h;
      invitation_write = λ k f as' is rs w h. redeemed-modify code k f w is h;
      invitation_added = λ i as' is rs h. redeemed-append code i is h;
      reset_write = λ t f as' is rs w h. h;
      resets_write = λ f as' is rs w h. h;
      reset_added = λ r as' is rs h. h;
    };
    steady_write = λ k f as' is rs s h. h;
  }

  reset_spends :
      (platform : Platform) (env : Env) (draws : Draws) (token password : Text) (db : Db D)
      → (reset platform env draws token password db).0 ≡ ok tt
      → is_spent (reset_at token (reset platform env draws token password db).1) ≡ true
  unfolding reset
  reset_spends platform env draws token password db done = elim (Option-cases (reset_at token db)) [
    | inl missing ↦ ground arith
    | inr (r, there) ↦
        let spent = used_up token env.now db.staff.access.resets r there in
        elim (Option-cases (find account_id r.user_id db.staff.accounts)) [
          | inl nobody ↦ ground arith
          | inr (user, holder) ↦
              let others =
                spent-map token (spoil env.now user.id) (spoil-IsResetWrite env.now user.id)
                  (modify_where (has_token token) (used env.now) db.staff.access.resets) spent in
              ground arith
        ]
  ]

  spent-refused :
      (platform : Platform) (env : Env) (draws : Draws) (token password : Text) (db : Db D)
      → is_spent (reset_at token db) ≡ true
      → (reset platform env draws token password db).0 ≡ err bad_request
  unfolding reset
  spent-refused platform env draws token password db spent = ground arith

module _ ⦃d : Decimals⦄ (platform : Platform) where
  open d use {Decimal}

  -- A reset link that has worked once is refused ever after, whatever requests are served in between.
  pub reset_once :
      (env : Env) (draws : Draws) (token password : Text) (db : Db Decimal)
      (events : List (Incoming Decimal)) (later : Env) (draws' : Draws) (password' : Text)
      → (reset platform env draws token password db).0 ≡ ok tt
      → (reset platform later draws' token password'
          (serve_all platform events (reset platform env draws token password db).1)).0
        ≡ err bad_request
  reset_once env draws token password db events later draws' password' done =
      let firm = IsSpent-IsFirm token in
      spent-refused platform later draws' token password' _ (
        serve_all-Holds platform firm.lasting (firm-IsGuarded firm) events _
          (reset_spends platform env draws token password db done))
