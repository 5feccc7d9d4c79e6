-- ===== src/Pricing.antt =====
-- backend/src/pricing/pricing.service.ts: the pricing engine. Every figure is a decimal of the
-- interface `Decimals`; `r2` is its rounding to two places.
pub mod Totals
pub mod Discount
pub mod Status
use vfw.Prelude.{ℕ, Bool, true, false, Option, none, some, List, [], map, ◌==◌, ◌&&◌, if◌then◌else◌}
use vfw.Decimal.{Decimals, zero_amount, hundred, of_int, r2, plus_all}

pub data Currency : Type 0 where
  usd cad gbp eur jpy : Currency

pub data DiscountType : Type 0 where
  pct amt : DiscountType

pub data PayStatus : Type 0 where
  unpaid partial paid : PayStatus

pub record AddonLine (D : Type 0) : Type 0 where
  pub addon_id : ℕ
  pub qty : ℕ
  pub unit_price : D
  pub currency : Currency

pub record PricingInput (D : Type 0) : Type 0 where
  pub package_price : D
  pub addons : List (AddonLine D)
  pub discount_type : DiscountType
  pub discount_value : D
  pub tax_rate : D
  pub addon_tax_rate : Option D
  pub commission_pct : D
  pub deposit : Option D
  pub payments : Option (List D)

pub record PricedLine (D : Type 0) : Type 0 where
  pub line : AddonLine D
  pub open line use *
  pub amount : D

pub record DiscountApproval (D : Type 0) : Type 0 where
  pub discount_pct : D
  pub threshold_pct : D
  pub exceeds_threshold : Bool

pub record PricingResult (D : Type 0) : Type 0 where
  pub package_price : D
  pub lines : List (PricedLine D)
  pub addon_total : D
  pub subtotal : D
  pub discount_amount : D
  pub discount_pct : D
  pub taxable : D
  pub tax_rate : D
  pub tax_amount : D
  pub addon_tax_rate : Option D
  pub addon_tax_amount : D
  pub total : D
  pub paid_amount : D
  pub balance : D
  pub commission_pct : D
  pub commission_amount : D
  pub pay_status : PayStatus

module _ ⦃d : Decimals⦄ where
  open d use {Decimal, plus, minus, times, divided_by, gt, gte, max, min}

  -- `discountApproval`: a missing figure (`|| 0`) is a zero that the caller passes.
  unfoldable pub discount_approval : Decimal → Decimal → Decimal → DiscountApproval Decimal
  discount_approval base discount_amount threshold =
      let exact =
        if gt base zero_amount
        then times (divided_by discount_amount base) hundred
        else zero_amount in
      record {
        discount_pct = r2 exact;
        threshold_pct = threshold;
        exceeds_threshold = gt exact threshold;
      }

  -- `l.qty || 1`
  abbrev pub quantity : ℕ → ℕ
  quantity qty = if qty == 0 then 1 else qty

  unfoldable pub price_line : AddonLine Decimal → PricedLine Decimal
  price_line l = record { line = l; amount = r2 (times l.unit_price (of_int (quantity l.qty))) }

  -- `x.times(rate).dividedBy(100)`, rounded.
  unfoldable pub percent_of : Decimal → Decimal → Decimal
  percent_of x rate = r2 (divided_by (times x rate) hundred)

  -- `discountAmount` of `compute`.
  unfoldable pub discount_of : DiscountType → Decimal → Decimal → Decimal
  unfolding percent_of
  discount_of pct value package_price = percent_of package_price value
  discount_of amt value package_price = r2 value

  -- The two branches of the tax: all the tax, and the part on the add-ons.
  unfoldable pub taxes :
      Option Decimal → Decimal → Decimal → Decimal → Decimal → Decimal → Decimal × Decimal
  unfolding percent_of
  taxes (some addon_rate) rate package_price applied addon_total taxable =
      let package_net = r2 (max zero_amount (minus package_price applied)) in
      let addon_tax = percent_of addon_total addon_rate in
      (r2 (plus (percent_of package_net rate) addon_tax), addon_tax)
  taxes none rate package_price applied addon_total taxable = (percent_of taxable rate, zero_amount)

  unfoldable pub pay_status_of : Decimal → Decimal → PayStatus
  pay_status_of paid_amount total =
      if gte paid_amount total && gt total zero_amount
      then paid
      else if gt paid_amount zero_amount
      then partial
      else unpaid

  abbrev pub deposit_or_zero : Option Decimal → Decimal
  deposit_or_zero none = zero_amount
  deposit_or_zero (some v) = v

  abbrev pub payments_or_none : Option (List Decimal) → List Decimal
  payments_or_none none = []
  payments_or_none (some ps) = ps

  unfoldable pub compute : PricingInput Decimal → PricingResult Decimal
  compute input =
      let package_price = r2 input.package_price in
      let lines = map price_line input.addons in
      let addon_total = r2 (plus_all zero_amount (map (λ l. l.amount) lines)) in
      let subtotal = r2 (plus package_price addon_total) in
      let discount_amount = discount_of input.discount_type input.discount_value package_price in
      let applied = min discount_amount package_price in
      let taxable = r2 (max zero_amount (minus subtotal applied)) in
      let (tax_amount, addon_tax_amount) =
        taxes input.addon_tax_rate input.tax_rate package_price applied addon_total taxable in
      let total = r2 (plus taxable tax_amount) in
      let paid_amount =
        r2 (plus_all (deposit_or_zero input.deposit) (payments_or_none input.payments)) in
      record {
        package_price = package_price;
        lines = lines;
        addon_total = addon_total;
        subtotal = subtotal;
        discount_amount = discount_amount;
        discount_pct =
            if gt package_price zero_amount
            then r2 (times (divided_by discount_amount package_price) hundred)
            else zero_amount;
        taxable = taxable;
        tax_rate = input.tax_rate;
        tax_amount = tax_amount;
        addon_tax_rate = input.addon_tax_rate;
        addon_tax_amount = addon_tax_amount;
        total = total;
        paid_amount = paid_amount;
        balance = r2 (minus total paid_amount);
        commission_pct = input.commission_pct;
        commission_amount = percent_of taxable input.commission_pct;
        pay_status = pay_status_of paid_amount total;
      }
