-- ===== src/Decimal/Laws.antt =====
-- What the proofs rely on of decimal.js, as its documentation states it: a sum or difference is
-- exact while it has at most 20 significant digits, comparisons are exact, products and quotients
-- are correctly rounded and so monotone, and two-place rounding gives a whole number of hundredths.
use vfw.Prelude.{ℕ, ◌^◌, ◌<◌, ◌≡◌, true, false, if◌then◌else◌, not}
use vfw.Prelude.Int.{ℤ, pos, pos_part, neg_part, ◌+ℤ◌, ◌-ℤ◌, ◌≤ℤ◌, ltb_ℤ}
use vfw.Decimal.{Decimals, zero_amount, hundred}

-- A count of hundredths of at most 20 digits.
abbrev pub Fits : ℤ → Type 0
Fits c = (pos_part c < 10 ^ 20) × (neg_part c < 10 ^ 20)

module _ ⦃d : Decimals⦄ where
  open d use {
    Decimal, of_cents, plus, minus, times, divided_by, negated, gt, gte, equals, max, min,
    to_places,
  }

  pub record IsExact : Type 0 where
    -- The value to the nearest hundredth.
    pub cents : Decimal → ℤ
    pub to_places_two : (x : Decimal) → to_places 2 x ≡ of_cents (cents x)
    pub cents-of_cents : (a : ℤ) → cents (of_cents a) ≡ a
    pub plus_cents : (a b : ℤ) → Fits (a +ℤ b) → plus (of_cents a) (of_cents b) ≡ of_cents (a +ℤ b)
    pub minus_cents :
        (a b : ℤ) → Fits (a -ℤ b) → minus (of_cents a) (of_cents b) ≡ of_cents (a -ℤ b)
    pub negated_cents : (a : ℤ) → negated (of_cents a) ≡ of_cents (pos 0 -ℤ a)
    pub gt_cents : (a b : ℤ) → gt (of_cents a) (of_cents b) ≡ ltb_ℤ b a
    pub gte_cents : (a b : ℤ) → gte (of_cents a) (of_cents b) ≡ not (ltb_ℤ a b)
    pub equals_cents :
        (a b : ℤ) → equals (of_cents a) (of_cents b) ≡ not (if ltb_ℤ a b then true else ltb_ℤ b a)
    pub max_cents :
        (a b : ℤ) → max (of_cents a) (of_cents b) ≡ of_cents (if ltb_ℤ a b then b else a)
    pub min_cents :
        (a b : ℤ) → min (of_cents a) (of_cents b) ≡ of_cents (if ltb_ℤ b a then b else a)
    pub cents_mono : (x y : Decimal) → gt x y ≡ false → cents x ≤ℤ cents y
    pub times_mono :
        (a : ℕ) (r s : Decimal)
        → gt r s ≡ false
        → gt (times (of_cents (pos a)) r) (times (of_cents (pos a)) s) ≡ false
    pub percent_mono :
        (x y : Decimal) → gt x y ≡ false → gt (divided_by x hundred) (divided_by y hundred) ≡ false
    pub percent_all :
        (a : ℤ) → Fits a → divided_by (times (of_cents a) hundred) hundred ≡ of_cents a
    pub percent_none : (a : ℤ) → divided_by (times (of_cents a) zero_amount) hundred ≡ zero_amount
