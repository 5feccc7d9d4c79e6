-- ===== src/Payments/Webhook.antt =====
-- backend/src/payments/payments.service.ts: `handleWebhook`, `postPayment`, `systemUserId`. One
-- delivery runs alone here, so that nobody creates the service user in between.
use Prim.Native.String.{String}
use vfw.Prelude.{
  ℕ, Bool, true, false, Option, none, some, List, [], ◌∷◌, ◌++◌, ◌||◌, not, if◌then◌else◌,
}
use vfw.Prelude.Words.{same_text}
use vfw.Prelude.Int.{ℤ}
use vfw.Decimal.{Decimals, zero_amount}
use vfw.Acl.{role_key, acct}
use vfw.Store.{Submission, Payment, Text, payment_action, Db, Env}
use vfw.Store.Access.{active}
use vfw.Store.Staff.{Account, commission_only}
use vfw.Store.Portal.{Checkout, completed}
use vfw.Store.Table.{find, modify}
use vfw.Store.Audit.{log_action}
use vfw.Store.Call.{Call, bad_request, pure, get, put, or_throw, transaction, ◌>>=◌, ◌>>◌}
use vfw.Submissions.{sale_id}
use vfw.Submissions.Ledger.{create_payment, recompute_money}
use vfw.Payments.{
  Stripe, StripeSession, session_completed, other_event, PaymentConfig, credentials, is_awaited,
  same_ℤ, to_stripe_minor_units,
}

-- `SYSTEM_USER_EMAIL`: "stripe@system.internal"
abbrev pub system_user_email : Text
system_user_email =
    b's' ∷ b't' ∷ b'r' ∷ b'i' ∷ b'p' ∷ b'e' ∷ b'@' ∷ b's' ∷ b'y' ∷ b's' ∷ b't' ∷ b'e' ∷ b'm' ∷ b'.'
    ∷ b'i' ∷ b'n' ∷ b't' ∷ b'e' ∷ b'r' ∷ b'n' ∷ b'a' ∷ b'l' ∷ []

abbrev pub or_text : String → Option String → String
or_text text none = text
or_text text (some t) = t

module _ {D : Type 0} where
  -- `user.findUnique({ where: { email } })`
  unfoldable pub find_email : Text → List (Account D) → Option ℕ
  unfolding same_text
  find_email email [] = none
  find_email email (a ∷ rest) = if same_text a.email email then some a.id else find_email email rest

  abbrev pub session_key : Checkout D → ℕ
  session_key c = c.stripe_session_id

  abbrev pub checkout_id : Checkout D → ℕ
  checkout_id c = c.id

  -- The row as the claim leaves it, and with the payment linked.
  abbrev pub claimed : Checkout D → Checkout D
  claimed c = record c { status = completed }

  abbrev pub paid_by : ℕ → Checkout D → Checkout D
  paid_by payment_id c = record c { payment_id = some payment_id }

  abbrev pub with_checkouts : List (Checkout D) → Db D → Db D
  with_checkouts rows db = record db { portal = record db.portal { checkouts = rows } }

module _ ⦃d : Decimals⦄ where
  open d use {Decimal}

  -- The row that `systemUserId` creates; the columns it does not name have their defaults.
  abbrev pub system_user : Env → Account Decimal
  system_user env = record {
    id = env.new_id;
    email = system_user_email;
    name = b'S' ∷ b't' ∷ b'r' ∷ b'i' ∷ b'p' ∷ b'e' ∷ [];
    phone = none;
    role = role_key acct;
    department = none;
    status = active;
    credentials = record {
      password_hash = none;
      token_version = 0;
      google_id = none;
      totp_enabled = false;
      totp_secret = none;
    };
    hidden = true;
    deleted = false;
    pay_type = commission_only;
    base_rate = zero_amount;
    earns_commission = true;
    commission_pct = zero_amount;
    target = zero_amount;
  }

  abbrev pub add_account : Account Decimal → Db Decimal → Db Decimal
  add_account a db = record db {
    staff = record db.staff { accounts = db.staff.accounts ++ (a ∷ []) };
  }

  -- `systemUserId`
  unfoldable pub system_user_id : Env → Call Decimal ℕ
  unfolding find_email role_key
  system_user_id env = do
    db ← get
    elim (find_email system_user_email db.staff.accounts) [
      | some id ↦ pure id
      | none ↦ put (add_account (system_user env) db) >> pure env.new_id
    ]

  abbrev pub same_total : Option ℤ → ℤ → Bool
  same_total none expected = false
  same_total (some total) expected = same_ℤ total expected

  -- What is read before the claim: an open row stands for the amount that Stripe confirms.
  unfoldable pub pre_check : StripeSession → List (Checkout Decimal) → Bool
  unfolding find to_stripe_minor_units
  pre_check session rows = elim (find session_key session.id rows) [
    | none ↦ true
    | some c ↦
        not (is_awaited c.status)
        || same_total session.amount_total (to_stripe_minor_units c.amount c.currency)
  ]

  -- The row that `postPayment` puts on the ledger.
  abbrev pub card_payment :
      Env → ℕ → StripeSession → Checkout Decimal → Submission Decimal → Payment Decimal
  card_payment env recorder session c s = record {
    id = env.new_id;
    submission_id = c.submission_id;
    amount = c.amount;
    currency = c.currency;
    method = "Stripe";
    reference = some (or_text session.id_text session.payment_intent);
    recorded_by = recorder;
    is_test_data = s.is_test_data || env.test_data_mode;
  }

  -- What the transaction writes for the row that it claimed.
  unfoldable pub settle_checkout :
      Env → ℕ → StripeSession → Checkout Decimal → Submission Decimal → Call Decimal (Unit {0})
  unfolding create_payment modify recompute_money log_action
  settle_checkout env recorder session c s = do
    create_payment (card_payment env recorder session c s)
    db ← get
    put (with_checkouts (modify checkout_id c.id (paid_by env.new_id) db.portal.checkouts) db)
    recompute_money c.submission_id
    log_action (some c.submission_id) recorder payment_action

  -- The transaction of `postPayment`.
  unfoldable pub claim_and_post : Env → ℕ → StripeSession → Call Decimal (Unit {0})
  unfolding find modify settle_checkout
  claim_and_post env recorder session = transaction do
    db ← get
    elim (find session_key session.id db.portal.checkouts) [
      | none ↦ pure tt
      | some c ↦
          if is_awaited c.status
          then put (with_checkouts (modify session_key session.id claimed db.portal.checkouts) db)
            >> elim (find sale_id c.submission_id db.submissions) [
              | none ↦ pure tt
              | some s ↦ settle_checkout env recorder session c s
            ]
          else pure tt
    ]

  -- `postPayment`
  unfoldable pub post_payment : Env → StripeSession → Call Decimal (Unit {0})
  unfolding system_user_id pre_check claim_and_post
  post_payment env session = do
    recorder ← system_user_id env
    db ← get
    elim (pre_check session db.portal.checkouts) [
      | true ↦ claim_and_post env recorder session
      | false ↦ pure tt
    ]

  -- `handleWebhook`
  unfoldable pub handle_webhook :
      Stripe → PaymentConfig → Env → Option String → Option String → Call Decimal (Unit {0})
  unfolding credentials post_payment
  handle_webhook stripe config env body signature = do
    keys ← credentials config
    raw ← or_throw bad_request body
    signed ← or_throw bad_request signature
    event ← or_throw bad_request (stripe.construct_event raw signed keys.1)
    elim event [ session_completed session ↦ post_payment env session | other_event ↦ pure tt ]
