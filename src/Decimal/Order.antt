-- ===== src/Decimal/Order.antt =====
-- What the proofs rely on of the order of the decimals: comparison is a total preorder, and sums,
-- differences, products and percentages are correctly rounded, so that they keep it. A sum has at most
-- 20 significant digits, and is then never made smaller by an addition of what is not negative.
use vfw.Prelude.{◌≡◌, true, false}
use vfw.Decimal.{Decimals, zero_amount, hundred}

module _ ⦃d : Decimals⦄ where
  open d use {Decimal, plus, minus, times, divided_by, gt, to_places}

  infix 50 ◌⊑◌
  -- Not more than, as `lte` says.
  abbrev pub ◌⊑◌ : Decimal → Decimal → Type 0
  a ⊑ b = gt a b ≡ false

  pub record IsOrdered : Type 1 where
    -- A decimal of at most 20 significant digits.
    pub IsShort : Decimal → Type 0
    pub zero-IsShort : IsShort zero_amount
    pub plus-IsShort : (a b : Decimal) → IsShort (plus a b)
    pub ⊑_refl : (a : Decimal) → a ⊑ a
    pub ⊑_trans : (a b c : Decimal) → a ⊑ b → b ⊑ c → a ⊑ c
    pub gt_⊑ : (a b : Decimal) → gt a b ≡ true → b ⊑ a
    pub plus_grows : (a x : Decimal) → IsShort a → zero_amount ⊑ x → a ⊑ plus a x
    pub plus_mono : (a b x y : Decimal) → a ⊑ b → x ⊑ y → plus a x ⊑ plus b y
    pub minus_mono : (a b c : Decimal) → a ⊑ b → minus a c ⊑ minus b c
    pub share_mono :
        (a b r : Decimal)
        → zero_amount ⊑ r
        → a ⊑ b
        → divided_by (times a r) hundred ⊑ divided_by (times b r) hundred
    pub share_nonneg :
        (a r : Decimal)
        → zero_amount ⊑ a
        → zero_amount ⊑ r
        → zero_amount ⊑ divided_by (times a r) hundred
    pub places_mono : (a b : Decimal) → a ⊑ b → to_places 2 a ⊑ to_places 2 b
