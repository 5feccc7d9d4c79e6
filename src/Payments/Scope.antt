-- ===== src/Payments/Scope.antt =====
-- Which sales a portal link can pay for (backend/src/payments/payments.service.ts).
use Prim.Native.String.{String}
use vfw.Prelude.{ℕ, ◌≡◌, ◌⊎◌, false, some, none, ◌==◌, ◌&&◌, not, arith}
use vfw.Decimal.{Decimals, zero_amount, lte}
use vfw.Store.{Submission, voided, Text, Db, Env}
use vfw.Store.Table.{find}
use vfw.Store.Call.{ok, err, not_found}
use vfw.Submissions.{◌is◌, sale_id}
use vfw.Payments.{
  Stripe, PaymentConfig, CreatedSession, live_token, checkout_row, checkout_request,
  resolve_contact_id, add_checkout, create_checkout_session,
}

module _ ⦃d : Decimals⦄ where
  open d use {Decimal}

  module _ (stripe : Stripe) (config : PaymentConfig) (env : Env) (token : Text)
      (db : Db Decimal) where
    -- A checkout that is started, with a secret key that is set and a session that Stripe answers with,
    -- is for a sale of the contact of the link, which has not run out; the sale is not voided and its
    -- balance is positive. The one thing written is an open row for that sale, under the id that Stripe
    -- gave, with the balance of the sale.
    pub checkout_scope :
        (id : ℕ) (s : Submission Decimal) (key : String) (session : CreatedSession) (url : String)
        → find sale_id id db.submissions ≡ some s
        → config.secret_key ≡ some key
        → stripe.create_session key (checkout_request s) ≡ some session
        → let (r, db') = create_checkout_session stripe config env token id db in
          r ≡ ok url
          → (live_token env.now token db.portal.tokens ≡ some s.contact_id)
            × ((s.status is voided) ≡ false)
            × (lte s.figures.balance zero_amount ≡ false)
            × (session.url ≡ some url)
            × (db' ≡ add_checkout (checkout_row env session s) db)
    unfolding create_checkout_session resolve_contact_id
    checkout_scope id s key session url found set answered done = ground arith

    -- A link says the same of a sale that does not exist as of one that is another contact's or voided,
    -- a 404, and nothing is written.
    checkout_hides :
        (id : ℕ) (c : ℕ)
        → live_token env.now token db.portal.tokens ≡ some c
        → (find sale_id id db.submissions ≡ none)
          ⊎ ((s : Submission Decimal) × (find sale_id id db.submissions ≡ some s)
              × ((s.contact_id == c && not (s.status is voided)) ≡ false))
        → create_checkout_session stripe config env token id db ≡ (err not_found, db)
    unfolding create_checkout_session resolve_contact_id
    checkout_hides id c live hidden = ground arith
