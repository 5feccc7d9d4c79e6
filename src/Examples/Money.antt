-- ===== src/Examples/Money.antt =====
-- Prices, permissions and throttled events at work.
use vfw.Prelude.{◌+◌, ◌≤◌, ◌≡◌, ◌↔◌, refl, true, none, some, [], ◌∷◌, arith}
use vfw.Prelude.Int.{ℤ, pos, ◌+ℤ◌, ◌-ℤ◌, ◌≤ℤ◌}
use vfw.Decimal.Fixed.{fixed, fixed-IsExact}
use vfw.Pricing.{compute, discount_of, taxes, percent_of, PricingResult, paid, unpaid}
use vfw.Pricing.Totals.{compute_adds_up}
use vfw.Pricing.Status.{pay_status_by_balance}
use vfw.Throttle.{SocketBucket, Window, fresh, charge}
use vfw.Throttle.Limits.{counts, passed, passed_limit}
use vfw.Throttle.Blocking.{charge_block}
use vfw.Examples.{Amount, input}

abbrev result : PricingResult Amount
result = compute input

abbrev cents : Amount → ℤ
cents = fixed-IsExact.cents

compute_adds_up_example :
    (cents result.subtotal ≡ cents result.package_price +ℤ cents result.addon_total)
    × (cents result.total ≡ cents result.taxable +ℤ cents result.tax_amount)
    × (cents result.balance ≡ cents result.total -ℤ cents result.paid_amount)
unfolding compute discount_of taxes percent_of ◌+ℤ◌ ◌-ℤ◌
compute_adds_up_example =
    compute_adds_up fixed-IsExact input (omega arith, omega arith) (omega arith, omega arith)
      (omega arith, omega arith)

pay_status_by_balance_example :
    ((result.pay_status ≡ paid) ↔ ((pos 1 ≤ℤ cents result.total) × (cents result.balance ≤ℤ pos 0)))
    × ((result.pay_status ≡ unpaid) ↔ (cents result.paid_amount ≤ℤ pos 0))
unfolding compute discount_of taxes percent_of ◌-ℤ◌
pay_status_by_balance_example = pay_status_by_balance fixed-IsExact input (omega arith, omega arith)

-- Two events in a second, and a block of two.
abbrev narrow : SocketBucket
narrow = record {
  name = "typing";
  ttl = 1_000;
  limit = 2;
  block = 2_000;
  applies_to = λ event. true;
}

passed_limit_example :
    counts (charge 10 narrow none).1
      + passed narrow (20 ∷ 30 ∷ 1_009 ∷ []) (charge 10 narrow none).0
    ≤ 2
passed_limit_example =
    passed_limit narrow 10 (20 ∷ 30 ∷ 1_009 ∷ []) (omega arith) (omega arith)
      (omega arith, (omega arith, (omega arith, tt)))
      (omega arith, (omega arith, (omega arith, tt)))

abbrev full : Window
full = record { count = 2; reset_at = 1_010; blocked_until = 0 }

charge_block_example :
    let w' = (charge 30 narrow (some full)).0 in
    (charge 40 narrow (some w') ≡ (w', some 1_990))
    × (charge 2_030 narrow (some w') ≡ (fresh 2_030 narrow, none))
unfolding charge
charge_block_example =
    charge_block narrow full 30 2_030 40 2_000 refl (omega arith) (omega arith) (omega arith)
