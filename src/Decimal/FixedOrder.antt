-- ===== src/Decimal/FixedOrder.antt =====
-- The decimals of Decimal/Fixed.antt keep the order.
use vfw.Prelude.{ℕ, suc, ◌*◌, ◌≤◌, ◌≡◌, true, false, arith}
use vfw.Prelude.Int.{ℤ, pos, negsuc, ltb_ℤ}
use vfw.Decimal.Fixed.{
  fixed, quot, scale, over, product, nearest, quot_mono, over_mono, nearest_mono, scale_lt,
}
use vfw.Decimal.Order.{IsOrdered}

refl_order : (a : ℤ) → ltb_ℤ a a ≡ false
refl_order a = ground arith

trans_order : (a b c : ℤ) → ltb_ℤ b a ≡ false → ltb_ℤ c b ≡ false → ltb_ℤ c a ≡ false
trans_order a b c h k = ground arith

weak_order : (a b : ℤ) → ltb_ℤ b a ≡ true → ltb_ℤ a b ≡ false
weak_order a b h = ground arith

sum_grows : (a x : ℤ) → ltb_ℤ x (pos 0) ≡ false → ltb_ℤ (fixed.plus a x) a ≡ false
sum_grows a x h = ground arith

sum_mono :
    (a b x y : ℤ)
    → ltb_ℤ b a ≡ false
    → ltb_ℤ y x ≡ false
    → ltb_ℤ (fixed.plus b y) (fixed.plus a x) ≡ false
sum_mono a b x y h k = ground arith

difference_mono :
    (a b c : ℤ) → ltb_ℤ b a ≡ false → ltb_ℤ (fixed.minus b c) (fixed.minus a c) ≡ false
difference_mono a b c h = ground arith

below : (a b : ℕ) → ltb_ℤ (pos b) (pos a) ≡ false → a ≤ b
below a b h = ground arith

below_neg : (a b : ℕ) → ltb_ℤ (negsuc b) (negsuc a) ≡ false → suc b ≤ suc a
below_neg a b h = ground arith

times_le_left : (n a b : ℕ) → a ≤ b → a * n ≤ b * n
times_le_left n a b h = grind arith

product_mono :
    (a b : ℤ) (n : ℕ) → ltb_ℤ b a ≡ false → ltb_ℤ (product b (pos n)) (product a (pos n)) ≡ false
product_mono (pos a) (pos b) n h = ground (arith, times_le_left n a b (below a b h))
product_mono (pos a) (negsuc b) n h = ground arith
product_mono (negsuc a) (pos b) n h = ground arith
product_mono (negsuc a) (negsuc b) n h =
    ground (arith, times_le_left n (suc b) (suc a) (below_neg a b h))

abbrev percent_of : ℤ → ℤ → ℤ
percent_of a r = over (quot (product a r) 100_000_000) (pos 10_000_000_000)

share_order :
    (a b r : ℤ)
    → ltb_ℤ r (pos 0) ≡ false
    → ltb_ℤ b a ≡ false
    → ltb_ℤ (percent_of b r) (percent_of a r) ≡ false
share_order a b (pos n) low h =
    over_mono (quot (product a (pos n)) 100_000_000) (quot (product b (pos n)) 100_000_000)
      (quot_mono (product a (pos n)) (product b (pos n)) (product_mono a b n h))
share_order a b (negsuc n) low h = ground arith

none_of : (r : ℤ) → ltb_ℤ r (pos 0) ≡ false → percent_of (pos 0) r ≡ pos 0
none_of (pos n) h = ground arith
none_of (negsuc n) h = ground arith

share_floor :
    (a r : ℤ)
    → ltb_ℤ a (pos 0) ≡ false
    → ltb_ℤ r (pos 0) ≡ false
    → ltb_ℤ (percent_of a r) (pos 0) ≡ false
share_floor a r h k = rw (none_of r k) at (share_order (pos 0) a r k h)

round_mono :
    (a b : ℤ)
    → ltb_ℤ b a ≡ false
    → ltb_ℤ (scale 1_000_000 (nearest 1_000_000 b)) (scale 1_000_000 (nearest 1_000_000 a)) ≡ false
round_mono a b h =
    ground (arith, nearest_mono a b h, scale_lt (nearest 1_000_000 b) (nearest 1_000_000 a))

pub fixed-IsOrdered : IsOrdered
fixed-IsOrdered = record {
  IsShort = λ _. Unit;
  zero-IsShort = tt;
  plus-IsShort = λ _ _. tt;
  ⊑_refl = refl_order;
  ⊑_trans = trans_order;
  gt_⊑ = weak_order;
  plus_grows = λ a x _ h. sum_grows a x h;
  plus_mono = sum_mono;
  minus_mono = difference_mono;
  share_mono = share_order;
  share_nonneg = share_floor;
  places_mono = round_mono;
}
