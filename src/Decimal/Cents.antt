-- ===== src/Decimal/Cents.antt =====
-- The laws of the decimals in the form that the proofs use: what a rounded sum, difference, minimum
-- or maximum of whole hundredths is, in hundredths.
use vfw.Prelude.{ℕ, ◌≡◌, ◌∙◌, false, if◌then◌else◌, ap}
use vfw.Prelude.Int.{ℤ, pos, ◌+ℤ◌, ◌-ℤ◌, ◌≤ℤ◌, ltb_ℤ}
use vfw.Decimal.{Decimals, zero_amount, hundred, r2}
use vfw.Decimal.Laws.{IsExact, Fits}

abbrev pub max_ℤ : ℤ → ℤ → ℤ
max_ℤ a b = if ltb_ℤ a b then b else a

abbrev pub min_ℤ : ℤ → ℤ → ℤ
min_ℤ a b = if ltb_ℤ b a then b else a

module _ ⦃d : Decimals⦄ (laws : IsExact) where
  open d use {Decimal, of_cents, plus, minus, times, divided_by, max, min, gt}
  open laws use {
    cents, to_places_two, cents-of_cents, plus_cents, minus_cents, max_cents, min_cents, cents_mono,
    times_mono, percent_mono, percent_all, percent_none,
  }

  -- A decimal that is a whole number of hundredths.
  abbrev pub IsWhole : Decimal → Type 0
  IsWhole x = x ≡ of_cents (cents x)

  pub cents-r2 : (x : Decimal) → cents (r2 x) ≡ cents x
  cents-r2 x = ap cents (to_places_two x) ∙ cents-of_cents (cents x)

  pub r2-IsWhole : (x : Decimal) → IsWhole (r2 x)
  r2-IsWhole x = rw (cents-r2 x) (to_places_two x)

  pub of_cents-IsWhole : (a : ℤ) → IsWhole (of_cents a)
  of_cents-IsWhole a = rw (cents-of_cents a)

  module _ (x y : Decimal) (wx : IsWhole x) (wy : IsWhole y) where
    pub plus_whole : Fits (cents x +ℤ cents y) → plus x y ≡ of_cents (cents x +ℤ cents y)
    plus_whole h = ap (λ z. plus z y) wx ∙ (ap (plus (of_cents (cents x))) wy ∙ plus_cents _ _ h)

    pub minus_whole : Fits (cents x -ℤ cents y) → minus x y ≡ of_cents (cents x -ℤ cents y)
    minus_whole h =
        ap (λ z. minus z y) wx ∙ (ap (minus (of_cents (cents x))) wy ∙ minus_cents _ _ h)

    pub max_whole : max x y ≡ of_cents (max_ℤ (cents x) (cents y))
    max_whole = ap (λ z. max z y) wx ∙ (ap (max (of_cents (cents x))) wy ∙ max_cents _ _)

    pub min_whole : min x y ≡ of_cents (min_ℤ (cents x) (cents y))
    min_whole = ap (λ z. min z y) wx ∙ (ap (min (of_cents (cents x))) wy ∙ min_cents _ _)

    pub cents-plus : Fits (cents x +ℤ cents y) → cents (plus x y) ≡ cents x +ℤ cents y
    cents-plus h = ap cents (plus_whole h) ∙ cents-of_cents _

    pub cents-minus : Fits (cents x -ℤ cents y) → cents (minus x y) ≡ cents x -ℤ cents y
    cents-minus h = ap cents (minus_whole h) ∙ cents-of_cents _

    pub cents-max : cents (max x y) ≡ max_ℤ (cents x) (cents y)
    cents-max = ap cents max_whole ∙ cents-of_cents _

    pub cents-min : cents (min x y) ≡ min_ℤ (cents x) (cents y)
    cents-min = ap cents min_whole ∙ cents-of_cents _

  -- A percentage from 0 to 100 of an amount that is not negative lies between nothing and all of it.
  pub percent_bounds :
      (a : ℕ) (rate : Decimal)
      → Fits (pos a)
      → gt zero_amount rate ≡ false
      → gt rate hundred ≡ false
      → let part = cents (divided_by (times (of_cents (pos a)) rate) hundred) in
        (pos 0 ≤ℤ part) × (part ≤ℤ pos a)
  percent_bounds a rate fits low high =
      let below = cents_mono _ _ (percent_mono _ _ (times_mono a zero_amount rate low)) in
      let above = cents_mono _ _ (percent_mono _ _ (times_mono a rate hundred high)) in
      (
        rw (percent_none (pos a), cents-of_cents (pos 0)) at below,
        rw (percent_all (pos a) fits, cents-of_cents (pos a)) at above,
      )
