-- ===== src/Examples/Cards.antt =====
-- Card payments of the sale of Examples.antt.
use Prim.Native.String.{String}
use vfw.Prelude.{◌≡◌, refl, none, some, [], ◌∷◌, ℕ, false}
use vfw.Prelude.Int.{pos}
use vfw.Decimal.{zero_amount, lte}
use vfw.Decimal.Fixed.{fixed}
use vfw.Pricing.{Currency}
use vfw.Store.{Text, Db}
use vfw.Store.Portal.{Checkout, awaited}
use vfw.Store.Table.{find, modify}
use vfw.Submissions.{sale_id}
use vfw.Submissions.Ledger.{payments_of, price_existing, with_priced}
use vfw.Payments.{
  Stripe, StripeSession, CreatedSession, PaymentConfig, to_stripe_minor_units, live_token,
  checkout_row, add_checkout, create_checkout_session, other_event,
}
use vfw.Payments.Webhook.{card_payment, find_email}
use vfw.Payments.Once.{Delivery, deliver_all, deliver_all_once}
use vfw.Payments.Scope.{checkout_scope}
use vfw.Examples.{Amount, money, sale, figures, env, holding}

abbrev link : Text
link = b'a' ∷ b'b' ∷ []

abbrev checkout : Checkout Amount
checkout = record {
  id = 70;
  stripe_session_id = 9;
  submission_id = 10;
  amount = money 60_000;
  currency = Currency.cad;
  status = awaited;
  payment_id = none;
}

abbrev portal : Db Amount
portal = record (holding sale) {
  portal = record {
    tokens = record { token = link; contact_id = 30; expires_at = 5_000 } ∷ [];
    checkouts = checkout ∷ [];
  };
}

abbrev session : ℕ → StripeSession
session total = record {
  id = 9;
  id_text = "cs_9";
  amount_total = some (pos total);
  payment_intent = some "pi_9";
}

abbrev arriving : ℕ → Delivery
arriving total = record { env = env; session = session total }

-- 600.00 in the Stripe unit, and in yen.
minor_units : to_stripe_minor_units (money 60_000) Currency.cad ≡ pos 60_000
unfolding to_stripe_minor_units
minor_units = refl

minor_yen : to_stripe_minor_units (money 60_000) Currency.jpy ≡ pos 600
unfolding to_stripe_minor_units
minor_yen = refl

-- A delivery with a wrong total, and then the right one twice.
deliver_all_once_example :
    let db' = deliver_all (arriving 1 ∷ arriving 60_000 ∷ arriving 60_000 ∷ []) portal in
    let ledger = card_payment env 500 (session 60_000) checkout sale ∷ [] in
    (db'.payments ≡ ledger)
    × (db'.submissions
        ≡ modify sale_id 10
            (with_priced (price_existing figures (payments_of 10 db'.payments)))
            (sale ∷ []))
unfolding to_stripe_minor_units find find_email
deliver_all_once_example =
    deliver_all_once 9 checkout sale (arriving 1 ∷ arriving 60_000 ∷ arriving 60_000 ∷ []) portal
      refl refl refl (refl, (refl, (refl, tt)))

abbrev page : String
page = "https://pay"

abbrev created : CreatedSession
created = record { id = 11; url = some page }

abbrev stripe : Stripe
stripe = record {
  create_session = λ _ _. some created;
  construct_event = λ _ _ _. some other_event;
}

abbrev config : PaymentConfig
config = record { secret_key = some "sk"; webhook_secret = some "wh"; app_url = some "https://app" }

checkout_scope_example :
    let (_, db') = create_checkout_session stripe config env link 10 portal in
    (live_token 1_000 link portal.portal.tokens ≡ some 30)
    × (false ≡ false)
    × (lte figures.balance zero_amount ≡ false)
    × (created.url ≡ some page)
    × (db' ≡ add_checkout (checkout_row env created sale) portal)
unfolding create_checkout_session live_token find
checkout_scope_example =
    checkout_scope stripe config env link portal 10 sale "sk" created page refl refl refl refl
