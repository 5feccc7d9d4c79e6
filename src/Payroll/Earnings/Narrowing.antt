-- ===== src/Payroll/Earnings/Narrowing.antt =====
-- One person's earnings are the same whether the query is narrowed to them or not
-- (backend/src/payroll/payroll.service.ts, `salesByRep`).
use vfw.Prelude.{
  ℕ, ◌≡◌, ◌∙◌, refl, sym, true, ◌&&◌, none, some, List, [], ◌∷◌, ◌==◌, arith, if◌then◌else◌,
  Bool-cases, inl, inr,
}
use vfw.Decimal.{Decimals}
use vfw.Pricing.{Currency}
use vfw.Store.{Submission}
use vfw.Store.Table.{find, filter}
use vfw.Payroll.{Range}
use vfw.Payroll.Earnings.{
  RepSales, update_at, rep_key, counts_in, no_sales, add_sale, add_sales, sales_by_rep, sales_of,
}

find-update_at :
    {A : Type 0} (key : A → ℕ) (k j : ℕ) (fresh : A) (f : A → A) (xs : List A)
    → key fresh ≡ k
    → ((x : A) → key (f x) ≡ key x)
    → find key j (update_at key k fresh f xs) ≡ (
        if k == j
        then some (f (elim (find key j xs) [ none ↦ fresh | some x ↦ x ]))
        else find key j xs)
unfolding find update_at
find-update_at key k j fresh f [] new keeps = ground (arith, new, keeps fresh)
find-update_at key k j fresh f (x ∷ xs) new keeps =
    ground (arith, keeps x, find-update_at key k j fresh f xs new keeps)

module _ ⦃d : Decimals⦄ (range : Range) (fx : Currency → d.Decimal) (id : ℕ) where
  open d use {Decimal}

  abbrev with_sale : Submission Decimal → List (RepSales Decimal) → List (RepSales Decimal)
  with_sale s = update_at rep_key s.rep_id (no_sales s.rep_id) (add_sale fx s)

  entry :
      (s : Submission Decimal) (xs : List (RepSales Decimal))
      → find rep_key id (with_sale s xs) ≡ (
          if s.rep_id == id
          then some
              (add_sale fx s (elim (find rep_key id xs) [ none ↦ no_sales s.rep_id | some x ↦ x ]))
          else find rep_key id xs)
  unfolding add_sale
  entry s xs =
      find-update_at rep_key s.rep_id id (no_sales s.rep_id) (add_sale fx s) xs refl (λ _. refl)

  -- What the loop makes of the sales of one person is read off their own entry.
  same_entry :
      (sales : List (Submission Decimal)) (xs ys : List (RepSales Decimal))
      → find rep_key id xs ≡ find rep_key id ys
      → find rep_key id (add_sales fx (filter (λ s. counts_in range s && true) sales) xs)
        ≡ find rep_key id
            (add_sales fx (filter (λ s. counts_in range s && s.rep_id == id) sales) ys)
  unfolding filter add_sales
  same_entry [] xs ys e = e
  same_entry (s ∷ rest) xs ys e = elim (Bool-cases (counts_in range s)) [
    | inr not_in ↦ rw not_in (same_entry rest xs ys e)
    | inl counted ↦ elim (Bool-cases (s.rep_id == id)) [
      | inl theirs ↦
          rw (counted, theirs)
            (same_entry rest (with_sale s xs) (with_sale s ys)
              (entry s xs ∙ (rw (theirs, e) refl ∙ sym (entry s ys))))
      | inr other ↦
          rw (counted, other) (same_entry rest (with_sale s xs) ys (entry s xs ∙ rw other e))
    ]
  ]

  -- Narrowing the query to one person changes none of their figures.
  pub narrowed :
      (sales : List (Submission Decimal))
      → sales_of id (sales_by_rep range fx (some id) sales)
        ≡ sales_of id (sales_by_rep range fx none sales)
  unfolding sales_by_rep sales_of
  narrowed sales = sym (same_entry sales [] [] refl)
