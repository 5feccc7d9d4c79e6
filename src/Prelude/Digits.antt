-- ===== src/Prelude/Digits.antt =====
-- Different numbers are written with different digits.
use mathlib.Core.Path.{◌≡◌, refl, sym, ◌∙◌, ap}
use vfw.Prelude.{ℕ, zero, suc, ◌+◌, ◌-◌, ◌*◌, ◌/◌, ◌%◌, ◌<◌, true, List, [], ◌∷◌, ◌++◌, arith}
use vfw.Prelude.Words.{same_text, digits, decimal}

-- The number that a text of digits stands for, after what was read already.
value : ℕ → List ℕ → ℕ
value acc [] = acc
value acc (c ∷ cs) = value (acc * 10 + (c - 48)) cs

value-append :
    (acc : ℕ) (xs : List ℕ) (c : ℕ) → value acc (xs ++ (c ∷ [])) ≡ value acc xs * 10 + (c - 48)
unfolding value
value-append acc [] c = refl
value-append acc (x ∷ xs) c = value-append (acc * 10 + (x - 48)) xs c

value-digits : (fuel n : ℕ) → n < fuel → value 0 (digits fuel n) ≡ n
unfolding value digits
value-digits zero n h = elim h [ ]
value-digits (suc fuel) n h =
    ground (arith, value-append 0 (digits fuel (n / 10)) (48 + n % 10), value-digits fuel (n / 10))

pub same_text→eq : (a b : List ℕ) → same_text a b ≡ true → a ≡ b
unfolding same_text
same_text→eq [] [] e = refl
same_text→eq [] (b ∷ bs) e = cc
same_text→eq (a ∷ as') [] e = cc
same_text→eq (a ∷ as') (b ∷ bs) e = ground (arith, same_text→eq as' bs)

pub same_text_refl : (a : List ℕ) → same_text a a ≡ true
unfolding same_text
same_text_refl [] = refl
same_text_refl (a ∷ as') = ground (arith, same_text_refl as')

pub same_text-append : (p a b : List ℕ) → same_text (p ++ a) (p ++ b) ≡ same_text a b
unfolding same_text
same_text-append [] a b = refl
same_text-append (c ∷ p) a b = ground (arith, same_text-append p a b)

pub decimal_injective : (m n : ℕ) → same_text (decimal m) (decimal n) ≡ true → m ≡ n
unfolding decimal
decimal_injective m n e =
    sym (value-digits (suc m) m (omega arith))
    ∙ (ap (value 0) (same_text→eq (decimal m) (decimal n) e) ∙ value-digits (suc n) n (omega arith))
