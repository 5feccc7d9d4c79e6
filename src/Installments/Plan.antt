-- ===== src/Installments/Plan.antt =====
-- The plan that `setPlan` leaves (backend/src/submissions/installments/installments.service.ts).
use vfw.Prelude.{
  ℕ, ◌+◌, ◌==◌, ◌≡◌, ◌⊎◌, inl, inr, refl, Bool, true, false, not, ◌||◌, some, List, [], ◌∷◌, ◌++◌,
  map, arith, ap, sym, ◌∙◌,
}
use vfw.Decimal.{Decimals, r2, zero_amount, plus_all}
use vfw.Decimal.Laws.{IsExact}
use vfw.Acl.{AuthUser}
use vfw.Store.{Submission, Installment, InstallmentStatus, due, settled, Db, Env}
use vfw.Store.Table.{find, find_key, filter}
use vfw.Store.Call.{ok}
use vfw.Submissions.{sale_id}
use vfw.Installments.{LineDto, without_due, due_of, last_paid_seq, new_installments, set_plan}

status_cases : (s : InstallmentStatus) → (s ≡ due) ⊎ (s ≡ settled)
status_cases due = inl refl
status_cases settled = inr refl

module _ ⦃d : Decimals⦄ where
  open d use {Decimal, equals}

  -- Whether an instalment stays whatever is planned for a sale: it is for another sale, or has been paid.
  abbrev is_paid : InstallmentStatus → Bool
  is_paid settled = true
  is_paid due = false

  abbrev pub stays : ℕ → Installment Decimal → Bool
  stays id i = not (i.submission_id == id) || is_paid i.status

  -- The instalments that are still to be paid of a sale, and all others.
  abbrev pub planned : ℕ → List (Installment Decimal) → List (Installment Decimal)
  planned id = filter (λ i. not (stays id i))

  abbrev pub others : ℕ → List (Installment Decimal) → List (Installment Decimal)
  others id = filter (stays id)

  due_of-planned : (id : ℕ) (xs : List (Installment Decimal)) → due_of id xs ≡ planned id xs
  unfolding due_of filter
  due_of-planned id [] = refl
  due_of-planned id (x ∷ xs) = ground (arith, due_of-planned id xs, status_cases x.status)

  without_due-others : (id : ℕ) (xs : List (Installment Decimal)) → without_due id xs ≡ others id xs
  unfolding without_due filter
  without_due-others id [] = refl
  without_due-others id (x ∷ xs) = ground (arith, without_due-others id xs, status_cases x.status)

  abbrev pub amounts : List (Installment Decimal) → List Decimal
  amounts = map (λ i. i.amount)

  due_of-append :
      (id : ℕ) (xs ys : List (Installment Decimal))
      → due_of id (xs ++ ys) ≡ due_of id xs ++ due_of id ys
  unfolding due_of filter
  due_of-append id [] ys = refl
  due_of-append id (x ∷ xs) ys = ground (arith, due_of-append id xs ys)

  due_of-without_due :
      (id : ℕ) (xs : List (Installment Decimal)) → due_of id (without_due id xs) ≡ []
  unfolding due_of without_due filter
  due_of-without_due id [] = refl
  due_of-without_due id (x ∷ xs) = ground (arith, due_of-without_due id xs)

  due_of-new :
      (env : Env) (s : Submission Decimal) (id first i : ℕ) (ls : List (LineDto Decimal))
      → s.id ≡ id
      → due_of id (new_installments env s first i ls) ≡ new_installments env s first i ls
  unfolding due_of filter new_installments
  due_of-new env s id first i [] same = refl
  due_of-new env s id first i (l ∷ ls) same =
      ground (arith, due_of-new env s id first (i + 1) ls same)

  new_amounts :
      (env : Env) (s : Submission Decimal) (first i : ℕ) (ls : List (LineDto Decimal))
      → amounts (new_installments env s first i ls) ≡ map (λ l. r2 (r2 l.amount)) ls
  unfolding new_installments
  new_amounts env s first i [] = refl
  new_amounts env s first i (l ∷ ls) =
      ap (λ t. r2 (r2 l.amount) ∷ t) (new_amounts env s first (i + 1) ls)

  set_plan-effect :
      (env : Env) (id : ℕ) (lines : List (LineDto Decimal)) (user : AuthUser) (db : Db Decimal)
      (s : Submission Decimal) (rows : List (Installment Decimal))
      → find sale_id id db.submissions ≡ some s
      → (set_plan env id lines user db).0 ≡ ok rows
      → (equals (plus_all zero_amount (map (λ l. r2 l.amount) lines)) s.figures.balance ≡ true)
        × ((set_plan env id lines user db).1.installments
            ≡ without_due id db.installments
              ++ new_installments env s (last_paid_seq id 0 db.installments + 1) 0 lines)
  unfolding set_plan
  set_plan-effect env id lines user db s rows found done = ground arith

  without_due-append :
      (id : ℕ) (xs ys : List (Installment Decimal))
      → without_due id (xs ++ ys) ≡ without_due id xs ++ without_due id ys
  unfolding without_due filter
  without_due-append id [] ys = refl
  without_due-append id (x ∷ xs) ys = ground (arith, without_due-append id xs ys)

  without_due-without_due :
      (id : ℕ) (xs : List (Installment Decimal))
      → without_due id (without_due id xs) ≡ without_due id xs
  unfolding without_due filter
  without_due-without_due id [] = refl
  without_due-without_due id (x ∷ xs) = ground (arith, without_due-without_due id xs)

  without_due-new :
      (env : Env) (s : Submission Decimal) (id first i : ℕ) (ls : List (LineDto Decimal))
      → s.id ≡ id
      → without_due id (new_installments env s first i ls) ≡ []
  unfolding without_due filter new_installments
  without_due-new env s id first i [] same = refl
  without_due-new env s id first i (l ∷ ls) same =
      ground (arith, without_due-new env s id first (i + 1) ls same)

  append_nil : (xs : List (Installment Decimal)) → xs ++ [] ≡ xs
  append_nil [] = refl
  append_nil (x ∷ xs) = ap (λ t. x ∷ t) (append_nil xs)

  r2_twice : IsExact → (x : Decimal) → r2 (r2 x) ≡ r2 x
  r2_twice laws x =
      ap r2 (laws.to_places_two x)
      ∙ (laws.to_places_two _
          ∙ (ap d.of_cents (laws.cents-of_cents _) ∙ sym (laws.to_places_two x)))

  rounded_once :
      IsExact
      → (ls : List (LineDto Decimal)) → map (λ l. r2 (r2 l.amount)) ls ≡ map (λ l. r2 l.amount) ls
  rounded_once laws [] = refl
  rounded_once laws (l ∷ ls) =
      rw (r2_twice laws l.amount) (ap (λ t. r2 l.amount ∷ t) (rounded_once laws ls))

  set_plan-due :
      (laws : IsExact) (env : Env) (id : ℕ) (lines : List (LineDto Decimal)) (user : AuthUser)
      (db : Db Decimal) (s : Submission Decimal) (rows : List (Installment Decimal))
      → find sale_id id db.submissions ≡ some s
      → (set_plan env id lines user db).0 ≡ ok rows
      → let after = (set_plan env id lines user db).1.installments in
        (amounts (due_of id after) ≡ map (λ l. r2 l.amount) lines)
        × (equals (plus_all zero_amount (amounts (due_of id after))) s.figures.balance ≡ true)
        × (without_due id after ≡ without_due id db.installments)
  set_plan-due laws env id lines user db s rows found done =
      let (covers, after) = set_plan-effect env id lines user db s rows found done in
      let first = last_paid_seq id 0 db.installments + 1 in
      let is_id : s.id ≡ id = find_key sale_id id db.submissions s found in
      let open_lines : due_of id (set_plan env id lines user db).1.installments
          ≡ new_installments env s first 0 lines =
        rw
          (
            after,
            due_of-append id (without_due id db.installments)
                (new_installments env s first 0 lines),
            due_of-without_due id db.installments,
          )
          (due_of-new env s id first 0 lines is_id) in
      let sums : amounts (due_of id (set_plan env id lines user db).1.installments)
          ≡ map (λ l. r2 l.amount) lines =
        rw open_lines (new_amounts env s first 0 lines ∙ rounded_once laws lines) in
      (
        sums,
        rw sums covers,
        rw
            (
              after,
              without_due-append id (without_due id db.installments)
                  (new_installments env s first 0 lines),
              without_due-without_due id db.installments,
            )
            (ap (λ t. without_due id db.installments ++ t)
                (without_due-new env s id first 0 lines is_id)
              ∙ append_nil (without_due id db.installments)),
      )

  -- A plan that is accepted is one line for each that was sent, all due, whose amounts add up to the
  -- balance of the sale; the paid instalments of this sale and all of other sales stay as they were.
  pub set_plan_covers :
      (laws : IsExact) (env : Env) (id : ℕ) (lines : List (LineDto Decimal)) (user : AuthUser)
      (db : Db Decimal) (s : Submission Decimal) (rows : List (Installment Decimal))
      → find sale_id id db.submissions ≡ some s
      → (set_plan env id lines user db).0 ≡ ok rows
      → let after = (set_plan env id lines user db).1.installments in
        (amounts (planned id after) ≡ map (λ l. r2 l.amount) lines)
        × (equals (plus_all zero_amount (amounts (planned id after))) s.figures.balance ≡ true)
        × (others id after ≡ others id db.installments)
  set_plan_covers laws env id lines user db s rows found done =
      let (sums, covers, kept) = set_plan-due laws env id lines user db s rows found done in
      let after = (set_plan env id lines user db).1.installments in
      (
        rw (due_of-planned id after) at sums,
        rw (due_of-planned id after) at covers,
        rw (without_due-others id after, without_due-others id db.installments) at kept,
      )
