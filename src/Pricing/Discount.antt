-- ===== src/Pricing/Discount.antt =====
-- How far a discount reaches in the pricing engine (backend/src/pricing/pricing.service.ts).
use vfw.Prelude.{ℕ, ◌≡◌, refl, ◌∙◌, ap, if◌then◌else◌, arith, false, Bool-cases, inl, inr}
use vfw.Prelude.Int.{ℤ, pos, ◌+ℤ◌, ◌-ℤ◌, ◌≤ℤ◌, ltb_ℤ, int_laws, +ℤ_parts, -ℤ_parts}
use vfw.Decimal.{Decimals, zero_amount, hundred, r2}
use vfw.Decimal.Laws.{IsExact, Fits}
use vfw.Decimal.Cents.{
  IsWhole, max_ℤ, min_ℤ, cents-min, cents-r2, percent_bounds, min_whole, of_cents-IsWhole,
}
use vfw.Pricing.{
  PricingInput, PricingResult, DiscountType, pct, amt, discount_of, percent_of, compute,
}
use vfw.Pricing.Totals.{
  package_price-IsWhole, discount_amount-IsWhole, subtotal-IsWhole, taxable-IsWhole,
  compute_subtotal, cents-max_minus,
}

-- What is left of a price after a discount, which is nothing at worst.
abbrev pub after_discount : ℤ → ℤ → ℤ
after_discount price off = if ltb_ℤ price off then pos 0 else price -ℤ off

capped :
    (p a s t : ℤ) (off : ℤ)
    → pos 0 ≤ℤ a
    → s ≡ p +ℤ a
    → t ≡ max_ℤ (pos 0) (s -ℤ min_ℤ off p)
    → t ≡ a +ℤ after_discount p off
capped p a s t off h e f = elim (Bool-cases (ltb_ℤ p off)) [
  | inl more ↦ rw more (grind (int_laws, +ℤ_parts a (pos 0), -ℤ_parts s p, +ℤ_parts p a))
  | inr less ↦
      rw less
        (grind (int_laws, +ℤ_parts a (p -ℤ off), -ℤ_parts p off, -ℤ_parts s off, +ℤ_parts p a))
]

uncapped : (off : ℤ) (p : ℕ) → off ≤ℤ pos p → min_ℤ off (pos p) ≡ off
uncapped off p h = ground arith

module _ ⦃d : Decimals⦄ (laws : IsExact) where
  open d use {Decimal, of_cents, gt, min, max, minus, times, divided_by}
  open laws use {cents}

  percent_of_bounds :
      (x rate : Decimal) (a : ℕ)
      → IsWhole laws x
      → cents x ≡ pos a
      → Fits (pos a)
      → gt zero_amount rate ≡ false
      → gt rate hundred ≡ false
      → (pos 0 ≤ℤ cents (percent_of x rate)) × (cents (percent_of x rate) ≤ℤ pos a)
  unfolding percent_of
  percent_of_bounds x rate a whole e fits low high =
      let exact : x ≡ of_cents (pos a) = whole ∙ ap of_cents e in
      rw (cents-r2 laws (divided_by (times x rate) hundred), exact)
        (percent_bounds laws a rate fits low high)

  discount_of_pct :
      (t : DiscountType) (v p : Decimal) → t ≡ pct → discount_of t v p ≡ percent_of p v
  unfolding discount_of
  discount_of_pct pct v p e = refl
  discount_of_pct amt v p e = cc

  module _ (input : PricingInput Decimal) where
    abbrev result : PricingResult Decimal
    result = compute input

    applied_IsWhole : IsWhole laws (min result.discount_amount result.package_price)
    applied_IsWhole =
        rw
          (min_whole laws _ _ (discount_amount-IsWhole laws input)
            (package_price-IsWhole laws input))
          (of_cents-IsWhole laws _)

    applied_cents :
        cents (min result.discount_amount result.package_price)
        ≡ min_ℤ (cents result.discount_amount) (cents result.package_price)
    applied_cents =
        cents-min laws _ _ (discount_amount-IsWhole laws input) (package_price-IsWhole laws input)

    taxable_lem :
        result.taxable
        ≡ r2 (
            max zero_amount
              (minus result.subtotal (min result.discount_amount result.package_price)))
    unfolding compute
    taxable_lem = refl

    cents-taxable :
        Fits (
          cents result.subtotal
          -ℤ min_ℤ (cents result.discount_amount) (cents result.package_price))
        → cents result.taxable
          ≡ max_ℤ (pos 0) (
              cents result.subtotal
              -ℤ min_ℤ (cents result.discount_amount) (cents result.package_price))
    cents-taxable fits =
        ap cents taxable_lem
        ∙ (cents-max_minus laws result.subtotal _ (subtotal-IsWhole laws input) applied_IsWhole
              (rw applied_cents fits)
            ∙ ap (λ z. max_ℤ (pos 0) (cents result.subtotal -ℤ z)) applied_cents)

    -- A discount comes off the package alone: whatever it is, the taxable amount is the add-ons at
    -- full price and what is left of the package, where a discount above the package price leaves
    -- nothing of it. The add-ons must not be negative and the sums stay within 20 digits.
    taxable_keeps_addons :
        pos 0 ≤ℤ cents result.addon_total
        → Fits (cents result.package_price +ℤ cents result.addon_total)
        → Fits (
            cents result.subtotal
            -ℤ min_ℤ (cents result.discount_amount) (cents result.package_price))
        → cents result.taxable
          ≡ cents result.addon_total
            +ℤ after_discount (cents result.package_price) (cents result.discount_amount)
    taxable_keeps_addons h f g =
        capped _ _ _ _ _ h (compute_subtotal laws input f) (cents-taxable g)

    discount_amount_lem :
        result.discount_amount
        ≡ discount_of input.discount_type input.discount_value result.package_price
    unfolding compute
    discount_amount_lem = refl

    -- A percentage discount from 0 to 100 on a package that is not priced below zero takes between
    -- nothing and the whole package, so the figure recorded is the figure applied.
    percent_discount_bounds :
        (price : ℕ)
        → cents result.package_price ≡ pos price
        → input.discount_type ≡ pct
        → Fits (pos price)
        → gt zero_amount input.discount_value ≡ false
        → gt input.discount_value hundred ≡ false
        → (pos 0 ≤ℤ cents result.discount_amount)
          × (cents result.discount_amount ≤ℤ pos price)
          × (cents (min result.discount_amount result.package_price) ≡ cents result.discount_amount)
    percent_discount_bounds price e t fits low high =
        let same =
          discount_amount_lem
          ∙ discount_of_pct input.discount_type input.discount_value result.package_price t in
        let (above, below) : (pos 0 ≤ℤ cents result.discount_amount)
            × (cents result.discount_amount ≤ℤ pos price) =
          rw same (
            percent_of_bounds result.package_price input.discount_value price
              (package_price-IsWhole laws input) e fits low high) in
        (above, below, rw (applied_cents, e) (uncapped (cents result.discount_amount) price below))

    commission_amount_lem :
        result.commission_amount ≡ percent_of result.taxable input.commission_pct
    unfolding compute
    commission_amount_lem = refl

    -- Commission with a rate from 0 to 100 is between nothing and the taxable amount.
    commission_bounds :
        (net : ℕ)
        → cents result.taxable ≡ pos net
        → Fits (pos net)
        → gt zero_amount input.commission_pct ≡ false
        → gt input.commission_pct hundred ≡ false
        → (pos 0 ≤ℤ cents result.commission_amount) × (cents result.commission_amount ≤ℤ pos net)
    commission_bounds net e fits low high = rw commission_amount_lem (
        percent_of_bounds result.taxable input.commission_pct net (taxable-IsWhole laws input) e
          fits low high)
