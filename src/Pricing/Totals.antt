-- ===== src/Pricing/Totals.antt =====
-- The sums of the pricing engine (backend/src/pricing/pricing.service.ts), in whole hundredths.
use vfw.Prelude.{◌≡◌, refl, ◌∙◌, some, Option, none}
use vfw.Prelude.Int.{pos, ◌+ℤ◌, ◌-ℤ◌}
use vfw.Decimal.{Decimals, zero_amount, r2}
use vfw.Decimal.Laws.{IsExact, Fits}
use vfw.Decimal.Cents.{
  IsWhole, max_ℤ, cents-r2, r2-IsWhole, of_cents-IsWhole, cents-plus, cents-minus, cents-max,
  minus_whole,
}
use vfw.Pricing.{
  PricingInput, PricingResult, DiscountType, pct, amt, discount_of, percent_of, taxes, compute,
}

module _ ⦃d : Decimals⦄ (laws : IsExact) where
  open d use {Decimal, of_cents, plus, minus, max, min}
  open laws use {cents, cents-of_cents, to_places_two}

  pub percent_of-IsWhole : (x rate : Decimal) → IsWhole laws (percent_of x rate)
  unfolding percent_of
  percent_of-IsWhole x rate = r2-IsWhole laws _

  pub discount_of-IsWhole : (t : DiscountType) (v p : Decimal) → IsWhole laws (discount_of t v p)
  unfolding discount_of
  discount_of-IsWhole pct v p = r2-IsWhole laws _
  discount_of-IsWhole amt v p = r2-IsWhole laws _

  pub taxes-IsWhole :
      (o : Option Decimal) (r p a t x : Decimal) → IsWhole laws (taxes o r p a t x).0
  unfolding taxes
  taxes-IsWhole none r p a t x = r2-IsWhole laws _
  taxes-IsWhole (some _) r p a t x = r2-IsWhole laws _

  module _ (x y : Decimal) (wx : IsWhole laws x) (wy : IsWhole laws y) where
    pub cents-r2_plus : Fits (cents x +ℤ cents y) → cents (r2 (plus x y)) ≡ cents x +ℤ cents y
    cents-r2_plus h = cents-r2 laws _ ∙ cents-plus laws x y wx wy h

    pub cents-r2_minus : Fits (cents x -ℤ cents y) → cents (r2 (minus x y)) ≡ cents x -ℤ cents y
    cents-r2_minus h = cents-r2 laws _ ∙ cents-minus laws x y wx wy h

    -- `r2(Decimal.max(0, x.minus(Decimal.min(discount, price))))`, the discount being capped.
    pub cents-max_minus :
        Fits (cents x -ℤ cents y)
        → cents (r2 (max zero_amount (minus x y))) ≡ max_ℤ (pos 0) (cents x -ℤ cents y)
    cents-max_minus h =
        cents-r2 laws _
        ∙ (cents-max laws zero_amount (minus x y) (of_cents-IsWhole laws (pos 0)) minus_IsWhole
            ∙ rw (cents-of_cents (pos 0), cents-minus laws x y wx wy h) refl)
      where
        minus_IsWhole : IsWhole laws (minus x y)
        minus_IsWhole = rw (minus_whole laws x y wx wy h) (of_cents-IsWhole laws _)

  module _ (input : PricingInput Decimal) where
    pub package_price-IsWhole : IsWhole laws (compute input).package_price
    unfolding compute
    package_price-IsWhole = r2-IsWhole laws _

    pub addon_total-IsWhole : IsWhole laws (compute input).addon_total
    unfolding compute
    addon_total-IsWhole = r2-IsWhole laws _

    pub subtotal-IsWhole : IsWhole laws (compute input).subtotal
    unfolding compute
    subtotal-IsWhole = r2-IsWhole laws _

    pub discount_amount-IsWhole : IsWhole laws (compute input).discount_amount
    unfolding compute
    discount_amount-IsWhole = discount_of-IsWhole _ _ _

    pub taxable-IsWhole : IsWhole laws (compute input).taxable
    unfolding compute
    taxable-IsWhole = r2-IsWhole laws _

    pub total-IsWhole : IsWhole laws (compute input).total
    unfolding compute
    total-IsWhole = r2-IsWhole laws _

    pub paid_amount-IsWhole : IsWhole laws (compute input).paid_amount
    unfolding compute
    paid_amount-IsWhole = r2-IsWhole laws _

    abbrev result : PricingResult Decimal
    result = compute input

    pub compute_balance :
        Fits (cents result.total -ℤ cents result.paid_amount)
        → cents result.balance ≡ cents result.total -ℤ cents result.paid_amount
    unfolding compute
    compute_balance h = cents-r2_minus _ _ (r2-IsWhole laws _) (r2-IsWhole laws _) h

    pub compute_subtotal :
        Fits (cents result.package_price +ℤ cents result.addon_total)
        → cents result.subtotal ≡ cents result.package_price +ℤ cents result.addon_total
    unfolding compute
    compute_subtotal h = cents-r2_plus _ _ (r2-IsWhole laws _) (r2-IsWhole laws _) h

    compute_total :
        Fits (cents result.taxable +ℤ cents result.tax_amount)
        → cents result.total ≡ cents result.taxable +ℤ cents result.tax_amount
    unfolding compute
    compute_total h = cents-r2_plus _ _ (r2-IsWhole laws _) (taxes-IsWhole _ _ _ _ _ _) h

    -- The figures of a priced sale add up, to the cent: the subtotal is the package and the add-ons,
    -- the total is the taxable amount and the tax, and the balance is the total less what was paid,
    -- for every input whose three sums stay within the 20 digits of a decimal.
    pub compute_adds_up :
        Fits (cents result.package_price +ℤ cents result.addon_total)
        → Fits (cents result.taxable +ℤ cents result.tax_amount)
        → Fits (cents result.total -ℤ cents result.paid_amount)
        → (cents result.subtotal ≡ cents result.package_price +ℤ cents result.addon_total)
          × (cents result.total ≡ cents result.taxable +ℤ cents result.tax_amount)
          × (cents result.balance ≡ cents result.total -ℤ cents result.paid_amount)
    compute_adds_up f g h = (compute_subtotal f, compute_total g, compute_balance h)
