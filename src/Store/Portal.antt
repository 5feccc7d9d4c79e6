-- ===== src/Store/Portal.antt =====
-- The rows of backend/prisma/schema.prisma about customers who pay by card: the links that open the
-- portal, and the checkout sessions.
use vfw.Prelude.{ℕ, Option, List}
use vfw.Pricing.{Currency}

-- `model ContactPortalToken`
pub record PortalToken : Type 0 where
  pub token : List ℕ
  pub contact_id : ℕ
  pub expires_at : ℕ

-- `enum StripeCheckoutSessionStatus`: `awaited` is PENDING.
pub data CheckoutStatus : Type 0 where
  awaited completed : CheckoutStatus

-- `model StripeCheckoutSession`
pub record Checkout (D : Type 0) : Type 0 where
  pub id : ℕ
  pub stripe_session_id : ℕ
  pub submission_id : ℕ
  pub amount : D
  pub currency : Currency
  pub status : CheckoutStatus
  pub payment_id : Option ℕ

-- The tables of the customer portal.
pub record PortalTables (D : Type 0) : Type 0 where
  pub tokens : List PortalToken
  pub checkouts : List (Checkout D)
