-- ===== src/Submissions/Ledger.antt =====
-- backend/src/submissions/submissions.service.ts: `priceExisting`, `recomputeMoney`, `addPayment`.
pub mod Derived
use Prim.Native.String.{String}
use vfw.Prelude.{ℕ, ◌==◌, Bool, ◌||◌, not, Option, none, some, List, [], ◌∷◌, ◌++◌, map}
use vfw.Decimal.{Decimals, r2}
use vfw.Pricing.{Currency, PricingInput, PricingResult, compute}
use vfw.Acl.{AuthUser}
use vfw.Store.{Submission, Payment, Figures, SubmissionStatus, rejected, payment_action, Db, Env}
use vfw.Store.Table.{filter}
use vfw.Store.Call.{Call, bad_request, pure, get, put, guard, transaction, ◌>>=◌, ◌>>◌}
use vfw.Submissions.{status_index, ◌is◌, load, save, log}

pub record PaymentDto (D : Type 0) : Type 0 where
  pub amount : D
  pub method : String
  pub reference : Option String

module _ {D : Type 0} where
  -- `include: { payments: true }`
  unfoldable pub payments_of : ℕ → List (Payment D) → List (Payment D)
  unfolding filter
  payments_of id = filter (λ p. p.submission_id == id)

  -- `payment.create`
  unfoldable pub create_payment : Payment D → Call D (Unit {0})
  create_payment p = do db ← get; put (record db { payments = db.payments ++ (p ∷ []) })

module _ ⦃d : Decimals⦄ where
  open d use {Decimal}

  abbrev pub stored_input : Figures Decimal → List (Payment Decimal) → PricingInput Decimal
  stored_input f payments = record {
    package_price = f.package_price;
    addons = f.addons;
    discount_type = f.discount_type;
    discount_value = f.discount_value;
    tax_rate = f.tax_rate;
    addon_tax_rate = f.addon_tax_rate;
    commission_pct = f.commission_pct;
    deposit = some f.deposit;
    payments = some (map (λ p. p.amount) payments);
  }

  unfoldable pub price_existing : Figures Decimal → List (Payment Decimal) → PricingResult Decimal
  price_existing f payments = compute (stored_input f payments)

  -- The data that `recomputeMoney` writes.
  abbrev pub with_money : PricingResult Decimal → Figures Decimal → Figures Decimal
  with_money priced f = record f {
    paid_amount = r2 priced.paid_amount;
    balance = r2 priced.balance;
    pay_status = priced.pay_status;
  }

  abbrev pub with_priced : PricingResult Decimal → Submission Decimal → Submission Decimal
  with_priced priced t = record t { figures = with_money priced t.figures }

  unfoldable pub recompute_money : ℕ → Call Decimal (Submission Decimal × PricingResult Decimal)
  unfolding load save payments_of price_existing
  recompute_money id = do
    s ← load id
    db ← get
    let priced = price_existing s.figures (payments_of id db.payments)
    updated ← save id (with_priced priced)
    pure (updated, priced)

  -- The row that `addPayment` puts on the ledger.
  abbrev pub hand_payment :
      Env → ℕ → PaymentDto Decimal → AuthUser → Submission Decimal → Payment Decimal
  hand_payment env id dto user s = record {
    id = env.new_id;
    submission_id = id;
    amount = r2 dto.amount;
    currency = s.figures.currency;
    method = dto.method;
    reference = dto.reference;
    recorded_by = user.id;
    is_test_data = s.is_test_data || env.test_data_mode;
  }

  unfoldable pub add_payment :
      Env → ℕ → PaymentDto Decimal → AuthUser → Call Decimal (Submission Decimal)
  unfolding load status_index create_payment recompute_money log
  add_payment env id dto user = do
    s ← load id
    guard (not (s.status is rejected)) bad_request
    transaction do
      create_payment (hand_payment env id dto user s)
      money ← recompute_money id
      log id user payment_action none
      pure money.0
