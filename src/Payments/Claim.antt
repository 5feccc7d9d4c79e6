-- ===== src/Payments/Claim.antt =====
-- What one delivery does (backend/src/payments/payments.service.ts, `postPayment`).
use mathlib.Core.Option.{some-injective}
use vfw.Prelude.{ℕ, ◌≡◌, refl, Bool, true, false, Option, none, some, List, [], ◌∷◌, ◌++◌, arith}
use vfw.Decimal.{Decimals}
use vfw.Store.{Submission, Db, Env}
use vfw.Store.Portal.{Checkout, awaited, completed}
use vfw.Store.Table.{find, modify, map_some}
use vfw.Store.Call.{ok}
use vfw.Submissions.{sale_id}
use vfw.Submissions.Ledger.{payments_of, price_existing, with_priced}
use vfw.Payments.{StripeSession, to_stripe_minor_units}
use vfw.Payments.Webhook.{
  system_user_email, find_email, session_key, checkout_id, claimed, paid_by, same_total,
  card_payment, post_payment,
}

-- The status of the row with a session id does not depend on a write that keeps ids and statuses.
pub find_status :
    {D : Type 0} (k i : ℕ) (f : Checkout D → Checkout D) (xs : List (Checkout D))
    → ((x : Checkout D) → session_key (f x) ≡ session_key x)
    → ((x : Checkout D) → (f x).status ≡ x.status)
    → map_some (λ c. c.status) (find session_key k (modify checkout_id i f xs))
      ≡ map_some (λ c. c.status) (find session_key k xs)
unfolding find modify
find_status k i f [] keeps same = refl
find_status k i f (x ∷ xs) keeps same =
    ground (arith, keeps x, same x, find_status k i f xs keeps same)

pub completed_row :
    {D : Type 0} (o : Option (Checkout D))
    → map_some (λ c. c.status) o ≡ some completed
    → (t : Checkout D) × (o ≡ some t) × (t.status ≡ completed)
completed_row none e = cc
completed_row (some t) e = (t, refl, some-injective _ _ e)

module _ ⦃d : Decimals⦄ where
  open d use {Decimal}

  abbrev pub is_confirmed : Checkout Decimal → StripeSession → Bool
  is_confirmed c session =
      same_total session.amount_total (to_stripe_minor_units c.amount c.currency)

  module _ (env : Env) (session : StripeSession) (u : ℕ) (db : Db Decimal) (c : Checkout Decimal)
      (known : find_email system_user_email db.staff.accounts ≡ some u)
      (row : find session_key session.id db.portal.checkouts ≡ some c) where
    pub unconfirmed :
        c.status ≡ awaited
        → is_confirmed c session ≡ false
        → post_payment env session db ≡ (ok tt, db)
    unfolding post_payment
    unconfirmed open_row bad = ground arith

    pub replayed : c.status ≡ completed → post_payment env session db ≡ (ok tt, db)
    unfolding post_payment
    replayed closed = ground arith

    pub posted :
        (s : Submission Decimal)
        → c.status ≡ awaited
        → is_confirmed c session ≡ true
        → find sale_id c.submission_id db.submissions ≡ some s
        → let (r, db') = post_payment env session db in
          let ledger = db.payments ++ (card_payment env u session c s ∷ []) in
          (r ≡ ok tt)
          × (db'.payments ≡ ledger)
          × (db'.submissions
              ≡ modify sale_id c.submission_id
                  (with_priced (price_existing s.figures (payments_of c.submission_id ledger)))
                  db.submissions)
          × (db'.staff ≡ db.staff)
          × (db'.portal.checkouts
              ≡ modify checkout_id c.id
                  (paid_by env.new_id)
                  (modify session_key session.id claimed db.portal.checkouts))
    unfolding post_payment
    posted s open_row good found = ground arith
