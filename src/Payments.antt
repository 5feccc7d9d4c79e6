-- ===== src/Payments.antt =====
-- backend/src/payments/payments.service.ts: payment by card through Stripe, from the customer portal.
-- Stripe itself is a parameter: what it answers when a checkout is made, and what it reads out of a
-- signed delivery. Its session ids are numbers that are compared, with the text beside them.

pub mod Webhook
pub mod Claim
pub mod Once
pub mod Scope
use Prim.Native.String.{String}
use vfw.Prelude.{
  ℕ, Bool, true, false, Option, none, some, List, [], ◌∷◌, ◌++◌, ◌==◌, ◌&&◌, not, ltb,
}
use vfw.Prelude.Words.{same_text}
use vfw.Prelude.Int.{ℤ, ltb_ℤ}
use vfw.Decimal.{Decimals, zero_amount, hundred, r2, lte}
use vfw.Pricing.{Currency, jpy}
use vfw.Store.{Submission, voided, Text, Db, Env}
use vfw.Store.Portal.{PortalToken, Checkout, CheckoutStatus, awaited, completed}
use vfw.Store.Table.{find}
use vfw.Store.Call.{
  Call, bad_request, not_found, server_error, pure, get, put, guard, or_throw, ◌>>=◌, ◌>>◌,
}
use vfw.Submissions.{status_index, ◌is◌, sale_id}

-- What `ConfigService` knows, an empty setting counting as none.
pub record PaymentConfig : Type 0 where
  pub secret_key : Option String
  pub webhook_secret : Option String
  pub app_url : Option String

pub record CheckoutRequest : Type 0 where
  pub currency : Currency
  pub unit_amount : ℤ
  pub submission_id : ℕ

-- What `checkout.sessions.create` answers.
pub record CreatedSession : Type 0 where
  pub id : ℕ
  pub url : Option String

-- The session in a `checkout.session.completed` event.
pub record StripeSession : Type 0 where
  pub id : ℕ
  pub id_text : String
  pub amount_total : Option ℤ
  pub payment_intent : Option String

pub data StripeEvent : Type 0 where
  session_completed : StripeSession → StripeEvent
  other_event : StripeEvent

-- The calls of the Stripe library, with the key that they are made with; they may throw.
pub record Stripe : Type 0 where
  pub create_session : String → CheckoutRequest → Option CreatedSession
  pub construct_event : String → String → String → Option StripeEvent

-- `credentials`
unfoldable pub credentials : {D : Type 0} → PaymentConfig → Call D (String × String)
credentials config = do
  key ← or_throw bad_request config.secret_key
  secret ← or_throw bad_request config.webhook_secret
  pure (key, secret)

abbrev pub is_awaited : CheckoutStatus → Bool
is_awaited awaited = true
is_awaited completed = false

-- `ZERO_DECIMAL_CURRENCIES.has(currency)`
abbrev pub is_zero_decimal : Currency → Bool
is_zero_decimal jpy = true
is_zero_decimal _ = false

abbrev pub same_ℤ : ℤ → ℤ → Bool
same_ℤ a b = not (ltb_ℤ a b) && not (ltb_ℤ b a)

-- `findFirst` on the table of links: the token is right and has not run out.
unfoldable pub live_token : ℕ → Text → List PortalToken → Option ℕ
unfolding same_text
live_token now token [] = none
live_token now token (t ∷ ts) = elim (same_text t.token token && ltb now t.expires_at) [
  | true ↦ some t.contact_id
  | false ↦ live_token now token ts
]

abbrev pub is_blank : Text → Bool
is_blank [] = true
is_blank (_ ∷ _) = false

-- `resolveContactId` of backend/src/portal/portal.service.ts
unfoldable pub resolve_contact_id : {D : Type 0} → Env → Text → Call D ℕ
unfolding live_token
resolve_contact_id env token = do
  guard (not (is_blank token)) not_found
  db ← get
  or_throw not_found (live_token env.now token db.portal.tokens)

module _ ⦃d : Decimals⦄ where
  open d use {Decimal, times, to_places, to_number}

  -- `toStripeMinorUnits`
  unfoldable pub to_stripe_minor_units : Decimal → Currency → ℤ
  to_stripe_minor_units amount currency = elim (is_zero_decimal currency) [
    | true ↦ to_number (to_places 0 (r2 amount))
    | false ↦ to_number (to_places 0 (times (r2 amount) hundred))
  ]

  abbrev pub checkout_request : Submission Decimal → CheckoutRequest
  checkout_request s = record {
    currency = s.figures.currency;
    unit_amount = to_stripe_minor_units s.figures.balance s.figures.currency;
    submission_id = s.id;
  }

  -- The row that `createCheckoutSession` keeps.
  abbrev pub checkout_row : Env → CreatedSession → Submission Decimal → Checkout Decimal
  checkout_row env session s = record {
    id = env.new_id;
    stripe_session_id = session.id;
    submission_id = s.id;
    amount = r2 s.figures.balance;
    currency = s.figures.currency;
    status = awaited;
    payment_id = none;
  }

  abbrev pub add_checkout : Checkout Decimal → Db Decimal → Db Decimal
  add_checkout row db = record db {
    portal = record db.portal { checkouts = db.portal.checkouts ++ (row ∷ []) };
  }

  -- `createCheckoutSession`
  unfoldable pub create_checkout_session :
      Stripe → PaymentConfig → Env → Text → ℕ → Call Decimal String
  unfolding resolve_contact_id find status_index credentials to_stripe_minor_units
  create_checkout_session stripe config env token id = do
    contact_id ← resolve_contact_id env token
    db ← get
    s ← or_throw not_found (find sale_id id db.submissions)
    guard (s.contact_id == contact_id && not (s.status is voided)) not_found
    guard (not (lte s.figures.balance zero_amount)) bad_request
    keys ← credentials config
    app_url ← or_throw bad_request config.app_url
    session ← or_throw server_error (stripe.create_session keys.0 (checkout_request s))
    url ← or_throw bad_request session.url
    put (add_checkout (checkout_row env session s) db)
    pure url
