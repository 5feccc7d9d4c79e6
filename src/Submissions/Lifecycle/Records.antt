-- ===== src/Submissions/Lifecycle/Records.antt =====
-- The calls of backend/src/submissions/submissions.service.ts that write money, accounting fields and
-- invoice numbers, as steps of the lifecycle.
use vfw.Prelude.{ℕ, ◌≡◌, ◌⊎◌, inl, inr, refl, Option, some, [], ◌∷◌, ◌++◌, arith}
use vfw.Decimal.{Decimals}
use vfw.Acl.{AuthUser}
use vfw.Store.{Submission, Text, Db, Env}
use vfw.Store.Table.{find, modify}
use vfw.Submissions.{sale_id}
use vfw.Submissions.Ledger.{
  PaymentDto, payments_of, price_existing, with_priced, hand_payment, recompute_money, add_payment,
}
use vfw.Submissions.Fields.{PatchDto, with_fields, patch}
use vfw.Submissions.Invoice.{with_number, next_no, invoice_brand, generate_invoice, set_invoice_no}
use vfw.Prelude.Words.{trim}
use vfw.Submissions.Lifecycle.{Evolves}
use vfw.Submissions.Lifecycle.Moves.{evolves, keeps_standing}

module _ {D : Type 0} (id : ℕ) (user : AuthUser) (db : Db D) where
  patch-rows :
      (dto : PatchDto) (s : Submission D)
      → find sale_id id db.submissions ≡ some s
      → let ys = (patch id dto user db).1.submissions in
        (ys ≡ db.submissions) ⊎ (ys ≡ modify sale_id id (with_fields dto s) db.submissions)
  unfolding patch
  patch-rows dto s found = ground arith

  pub patch-Evolves : (dto : PatchDto) → Evolves db.submissions (patch id dto user db).1.submissions
  unfolding patch
  patch-Evolves dto =
      evolves id db (patch id dto user db).1 (λ missing. ground arith)
        λ s found. elim (patch-rows dto s found) [
          | inl same ↦ inl same
          | inr rows ↦ inr (
            with_fields dto s,
            λ _. refl,
            keeps_standing s (with_fields dto s s) refl refl refl refl refl,
            rows,
          )
        ]

  generate_invoice-rows :
      (s : Submission D)
      → find sale_id id db.submissions ≡ some s
      → let ys = (generate_invoice id user db).1.submissions in
        (ys ≡ db.submissions)
        ⊎ (ys
            ≡ modify sale_id id
                (with_number (next_no (invoice_brand s.city) db.settings))
                db.submissions)
  unfolding generate_invoice
  generate_invoice-rows s found = ground arith

  pub generate_invoice-Evolves : Evolves db.submissions (generate_invoice id user db).1.submissions
  unfolding generate_invoice
  generate_invoice-Evolves =
      evolves id db (generate_invoice id user db).1 (λ missing. ground arith)
        λ s found. elim (generate_invoice-rows s found) [
          | inl same ↦ inl same
          | inr rows ↦
              let number = next_no (invoice_brand s.city) db.settings in
              inr (
                with_number number,
                λ _. refl,
                keeps_standing s (with_number number s) refl refl refl refl refl,
                rows,
              )
        ]

  set_invoice_no-rows :
      (to_number : Text → Option ℕ) (invoice_no : Text) (s : Submission D)
      → find sale_id id db.submissions ≡ some s
      → let ys = (set_invoice_no to_number id invoice_no user db).1.submissions in
        (ys ≡ db.submissions)
        ⊎ (ys ≡ modify sale_id id (with_number (trim invoice_no)) db.submissions)
  unfolding set_invoice_no
  set_invoice_no-rows to_number invoice_no s found = ground arith

  pub set_invoice_no-Evolves :
      (to_number : Text → Option ℕ) (invoice_no : Text)
      → Evolves db.submissions (set_invoice_no to_number id invoice_no user db).1.submissions
  unfolding set_invoice_no
  set_invoice_no-Evolves to_number invoice_no =
      evolves id db (set_invoice_no to_number id invoice_no user db).1 (λ missing. ground arith)
        λ s found. elim (set_invoice_no-rows to_number invoice_no s found) [
          | inl same ↦ inl same
          | inr rows ↦
              let number = trim invoice_no in
              inr (
                with_number number,
                λ _. refl,
                keeps_standing s (with_number number s) refl refl refl refl refl,
                rows,
              )
        ]

module _ ⦃d : Decimals⦄ where
  open d use {Decimal}

  module _ (env : Env) (id : ℕ) (user : AuthUser) (db : Db Decimal) where
    recompute_money-rows :
        (s : Submission Decimal)
        → find sale_id id db.submissions ≡ some s
        → (recompute_money id db).1.submissions
          ≡ modify sale_id id
              (with_priced (price_existing s.figures (payments_of id db.payments)))
              db.submissions
    unfolding recompute_money
    recompute_money-rows s found = ground arith

    add_payment-rows :
        (dto : PaymentDto Decimal) (s : Submission Decimal)
        → find sale_id id db.submissions ≡ some s
        → let ys = (add_payment env id dto user db).1.submissions in
          let ledger = db.payments ++ (hand_payment env id dto user s ∷ []) in
          (ys ≡ db.submissions)
          ⊎ (ys
              ≡ modify sale_id id
                  (with_priced (price_existing s.figures (payments_of id ledger)))
                  db.submissions)
    unfolding add_payment
    add_payment-rows dto s found = ground arith

    pub add_payment-Evolves :
        (dto : PaymentDto Decimal)
        → Evolves db.submissions (add_payment env id dto user db).1.submissions
    unfolding add_payment
    add_payment-Evolves dto =
        evolves id db (add_payment env id dto user db).1 (λ missing. ground arith)
          λ s found. elim (add_payment-rows dto s found) [
            | inl same ↦ inl same
            | inr rows ↦
                let priced =
                  price_existing s.figures
                    (payments_of id (db.payments ++ (hand_payment env id dto user s ∷ []))) in
                inr (
                  with_priced priced,
                  λ _. refl,
                  keeps_standing s (with_priced priced s) refl refl refl refl refl,
                  rows,
                )
          ]
