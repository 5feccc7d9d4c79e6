-- ===== src/Decimal/Fixed.antt =====
-- Decimals with eight places, as an instance of the interface that runs: it shows that the laws can
-- be met, and is what the examples compute with.
use vfw.Prelude.{
  ℕ, suc, ◌+◌, ◌-◌, ◌*◌, ◌/◌, ◌^◌, ◌≤◌, ◌≡◌, refl, Bool, true, false, not, if◌then◌else◌, arith,
}
use vfw.Prelude.Int.{ℤ, pos, negsuc, pos_part, neg_part, sub_ℕ, ◌+ℤ◌, ◌-ℤ◌, ◌≤ℤ◌, ltb_ℤ}
use vfw.Decimal.{Decimals}
use vfw.Decimal.Laws.{IsExact}

-- Division towards zero.
abbrev pub quot : ℤ → ℕ → ℤ
quot (pos n) k = pos (n / k)
quot (negsuc n) k = sub_ℕ 0 (suc n / k)

-- To the nearest multiple of a unit, a half away from zero, in units.
abbrev pub nearest : ℕ → ℤ → ℤ
nearest unit (pos n) = pos ((n + unit / 2) / unit)
nearest unit (negsuc n) = sub_ℕ 0 ((suc n + unit / 2) / unit)

abbrev pub scale : ℕ → ℤ → ℤ
scale k (pos n) = pos (k * n)
scale k (negsuc n) = sub_ℕ 0 (k * suc n)

abbrev pub over : ℤ → ℤ → ℤ
over a (pos b) = quot (scale 100_000_000 a) b
over a (negsuc b) = quot (scale 100_000_000 (sub_ℕ (neg_part a) (pos_part a))) (suc b)

abbrev pub product : ℤ → ℤ → ℤ
product (pos a) b = scale a b
product (negsuc a) b = scale (suc a) (sub_ℕ (neg_part b) (pos_part b))

instance abbrev pub fixed : Decimals
fixed = record {
  Decimal = ℤ;
  of_cents = scale 1_000_000;
  plus = λ a b. sub_ℕ (pos_part a + pos_part b) (neg_part a + neg_part b);
  minus = λ a b. sub_ℕ (pos_part a + neg_part b) (neg_part a + pos_part b);
  times = λ a b. quot (product a b) 100_000_000;
  divided_by = over;
  negated = λ a. sub_ℕ (neg_part a) (pos_part a);
  is_negative = λ a. ltb_ℤ a (pos 0);
  gt = λ a b. ltb_ℤ b a;
  gte = λ a b. not (ltb_ℤ a b);
  equals = λ a b. not (if ltb_ℤ a b then true else ltb_ℤ b a);
  max = λ a b. if ltb_ℤ a b then b else a;
  min = λ a b. if ltb_ℤ b a then b else a;
  to_places = λ n x. let unit = 10 ^ (8 - n) in scale unit (nearest unit x);
  to_number = nearest 100_000_000;
}

pub scale_plus :
    (a b : ℤ)
    → sub_ℕ
        (pos_part (scale 1_000_000 a) + pos_part (scale 1_000_000 b))
        (neg_part (scale 1_000_000 a) + neg_part (scale 1_000_000 b))
      ≡ scale 1_000_000 (a +ℤ b)
unfolding ◌+ℤ◌
scale_plus a b = ground arith

pub scale_minus :
    (a b : ℤ)
    → sub_ℕ
        (pos_part (scale 1_000_000 a) + neg_part (scale 1_000_000 b))
        (neg_part (scale 1_000_000 a) + pos_part (scale 1_000_000 b))
      ≡ scale 1_000_000 (a -ℤ b)
unfolding ◌-ℤ◌
scale_minus a b = ground arith

pub nearest-scale : (a : ℤ) → nearest 1_000_000 (scale 1_000_000 a) ≡ a
nearest-scale a = ground arith

pub scale_negated :
    (a : ℤ)
    → sub_ℕ (neg_part (scale 1_000_000 a)) (pos_part (scale 1_000_000 a))
      ≡ scale 1_000_000 (pos 0 -ℤ a)
unfolding ◌-ℤ◌
scale_negated a = ground arith

pub scale_lt : (a b : ℤ) → ltb_ℤ (scale 1_000_000 a) (scale 1_000_000 b) ≡ ltb_ℤ a b
scale_lt a b = ground arith

pub pick {ℓ κ} :
    {A : Type ℓ} {B : Type κ} (f : A → B) (c : Bool) (x y : A)
    → (if c then f x else f y) ≡ f (if c then x else y)
pick f true x y = refl
pick f false x y = refl

pub nearest_mono : (x y : ℤ) → ltb_ℤ y x ≡ false → nearest 1_000_000 x ≤ℤ nearest 1_000_000 y
nearest_mono x y h = ground arith

pub quot_mono :
    (x y : ℤ) → ltb_ℤ y x ≡ false → ltb_ℤ (quot y 100_000_000) (quot x 100_000_000) ≡ false
quot_mono x y h = ground arith

times_le : (a r s : ℕ) → r ≤ s → a * r ≤ a * s
times_le a r s h = grind arith

order : (r s : ℕ) → ltb_ℤ (pos s) (pos r) ≡ false → r ≤ s
order r s h = ground arith

order_neg : (r s : ℕ) → ltb_ℤ (negsuc s) (negsuc r) ≡ false → suc s ≤ suc r
order_neg r s h = ground arith

pub scale_mono : (a : ℕ) (r s : ℤ) → ltb_ℤ s r ≡ false → ltb_ℤ (scale a s) (scale a r) ≡ false
scale_mono a (pos r) (pos s) h = ground (arith, times_le a r s (order r s h))
scale_mono a (pos r) (negsuc s) h = ground arith
scale_mono a (negsuc r) (pos s) h = ground arith
scale_mono a (negsuc r) (negsuc s) h = ground (arith, times_le a (suc s) (suc r) (order_neg r s h))

pub over_mono :
    (x y : ℤ)
    → ltb_ℤ y x ≡ false
    → ltb_ℤ (over y (pos 10_000_000_000)) (over x (pos 10_000_000_000)) ≡ false
over_mono x y h = ground arith

pub percent_whole :
    (a : ℤ)
    → over
        (quot (product (scale 1_000_000 a) (pos 10_000_000_000)) 100_000_000)
        (pos 10_000_000_000)
      ≡ scale 1_000_000 a
percent_whole (pos a) = ground arith
percent_whole (negsuc a) = ground arith

pub percent_zero :
    (a : ℤ)
    → over (quot (product (scale 1_000_000 a) (pos 0)) 100_000_000) (pos 10_000_000_000) ≡ pos 0
percent_zero (pos a) = ground arith
percent_zero (negsuc a) = ground arith

abbrev pub fixed-IsExact : IsExact
fixed-IsExact = record {
  cents = nearest 1_000_000;
  to_places_two = λ x. refl;
  cents-of_cents = nearest-scale;
  plus_cents = λ a b _. scale_plus a b;
  minus_cents = λ a b _. scale_minus a b;
  negated_cents = scale_negated;
  gt_cents = λ a b. scale_lt b a;
  gte_cents = λ a b. rw (scale_lt a b);
  equals_cents = λ a b. rw (scale_lt a b, scale_lt b a);
  max_cents = λ a b. rw (scale_lt a b) (pick (scale 1_000_000) (ltb_ℤ a b) b a);
  min_cents = λ a b. rw (scale_lt b a) (pick (scale 1_000_000) (ltb_ℤ b a) b a);
  cents_mono = nearest_mono;
  times_mono = λ a r s h.
      quot_mono (scale (1_000_000 * a) r) (scale (1_000_000 * a) s)
        (scale_mono (1_000_000 * a) r s h);
  percent_mono = over_mono;
  percent_all = λ a _. percent_whole a;
  percent_none = percent_zero;
}
