-- ===== src/Pricing/Status.antt =====
-- The payment status of a priced sale (backend/src/pricing/pricing.service.ts).
use vfw.Prelude.{◌≡◌, ◌↔◌, ◌∙◌, ap, arith}
use vfw.Prelude.Int.{ℤ, pos, ◌-ℤ◌, ◌≤ℤ◌}
use vfw.Decimal.{Decimals}
use vfw.Decimal.Laws.{IsExact, Fits}
use vfw.Pricing.{PricingInput, PricingResult, PayStatus, unpaid, paid, pay_status_of, compute}
use vfw.Pricing.Totals.{total-IsWhole, paid_amount-IsWhole, compute_balance}

settled_iff : (t p b : ℤ) → b ≡ t -ℤ p → (t ≤ℤ p) ↔ (b ≤ℤ pos 0)
unfolding ◌-ℤ◌
settled_iff t p b e = ground arith

module _ ⦃d : Decimals⦄ (laws : IsExact) where
  open d use {Decimal, of_cents, gt, gte}
  open laws use {cents, gt_cents, gte_cents}

  -- What a status says of the amount paid and of the total.
  abbrev Reads : PayStatus → ℤ → ℤ → Type 0
  Reads status p t =
      ((status ≡ paid) ↔ ((pos 1 ≤ℤ t) × (t ≤ℤ p))) × ((status ≡ unpaid) ↔ (p ≤ℤ pos 0))

  pay_status_of_cents : (p t : ℤ) → Reads (pay_status_of (of_cents p) (of_cents t)) p t
  unfolding pay_status_of
  pay_status_of_cents p t =
      rw (gte_cents p t, gt_cents t (pos 0), gt_cents p (pos 0)) (ground arith)

  module _ (input : PricingInput Decimal) where
    abbrev result : PricingResult Decimal
    result = compute input

    pay_status_lem :
        result.pay_status
        ≡ pay_status_of (of_cents (cents result.paid_amount)) (of_cents (cents result.total))
    unfolding compute
    pay_status_lem =
        ap (λ x. pay_status_of x (compute input).total) (paid_amount-IsWhole laws input)
        ∙ ap (pay_status_of (of_cents (cents (compute input).paid_amount)))
            (total-IsWhole laws input)

    status-Reads : Reads result.pay_status (cents result.paid_amount) (cents result.total)
    status-Reads =
        rw pay_status_lem (pay_status_of_cents (cents result.paid_amount) (cents result.total))

    -- A sale reads paid exactly when it has a positive total and no balance left, and unpaid exactly
    -- when nothing, or less than nothing, has been received; all else reads partial. The balance has
    -- to stay within the 20 digits of a decimal.
    pub pay_status_by_balance :
        Fits (cents result.total -ℤ cents result.paid_amount)
        → ((result.pay_status ≡ paid)
            ↔ ((pos 1 ≤ℤ cents result.total) × (cents result.balance ≤ℤ pos 0)))
          × ((result.pay_status ≡ unpaid) ↔ (cents result.paid_amount ≤ℤ pos 0))
    pay_status_by_balance fits =
        let iff =
          settled_iff (cents result.total) (cents result.paid_amount) (cents result.balance)
            (compute_balance laws input fits) in
        let reads = status-Reads in
        ((λ e. ((reads.0.0 e).0, iff.0 (reads.0.0 e).1), λ h. reads.0.1 (h.0, iff.1 h.1)), reads.1)
