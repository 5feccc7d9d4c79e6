-- ===== src/Decimal.antt =====
-- The interface to decimal.js, which the backend computes all money with and which is not part of
-- the repository: the type of its numbers and the methods that the modelled code calls.
pub mod Laws
pub mod Cents
pub mod Order
pub mod Fixed
pub mod FixedOrder
use vfw.Prelude.{ℕ, ◌*◌, Bool, not, List, [], ◌∷◌}
use vfw.Prelude.Int.{ℤ, pos}

pub record Decimals : Type 1 where
  pub Decimal : Type 0
  -- A literal or a column with two places, by its count of hundredths.
  pub of_cents : ℤ → Decimal
  pub plus : Decimal → Decimal → Decimal
  pub minus : Decimal → Decimal → Decimal
  pub times : Decimal → Decimal → Decimal
  pub divided_by : Decimal → Decimal → Decimal
  pub negated : Decimal → Decimal
  pub is_negative : Decimal → Bool
  pub gt : Decimal → Decimal → Bool
  pub gte : Decimal → Decimal → Bool
  pub equals : Decimal → Decimal → Bool
  pub max : Decimal → Decimal → Decimal
  pub min : Decimal → Decimal → Decimal
  -- `toDecimalPlaces(n, ROUND_HALF_UP)`, and `toFixed(n)` of what a NUMERIC column then holds.
  pub to_places : ℕ → Decimal → Decimal
  -- `toNumber()`, of a whole number.
  pub to_number : Decimal → ℤ

module _ ⦃d : Decimals⦄ where
  open d use {Decimal, of_cents, plus, gt, to_places}

  abbrev pub zero_amount : Decimal
  zero_amount = of_cents (pos 0)

  abbrev pub hundred : Decimal
  hundred = of_cents (pos 10_000)

  -- `a.lte(b)`, for numbers: a column is never NaN.
  abbrev pub lte : Decimal → Decimal → Bool
  lte a b = not (gt a b)

  -- An integer, such as a quantity.
  abbrev pub of_int : ℕ → Decimal
  of_int n = of_cents (pos (n * 100))

  -- `r2` of pricing.service.ts, installments.service.ts and payments.service.ts.
  abbrev pub r2 : Decimal → Decimal
  r2 v = to_places 2 v

  -- `xs.reduce((t, x) => t.plus(x), start)`
  abbrev pub plus_all : Decimal → List Decimal → Decimal
  plus_all start [] = start
  plus_all start (x ∷ xs) = plus_all (plus start x) xs
