-- ===== src/Submissions/Editing/Forgotten.antt =====
-- `update` and the payments of a sale (backend/src/submissions/submissions.service.ts).
use vfw.Prelude.{ℕ, ◌≡◌, ◌≢◌, ap, Option, inl, inr, some, arith, ◌∙◌}
use vfw.Decimal.{Decimals, r2, zero_amount}
use vfw.Pricing.{compute}
use vfw.Acl.{AuthUser}
use vfw.Store.{Submission, Db, Env}
use vfw.Store.Table.{find}
use vfw.Store.Call.{ok, err, HttpError, Result-cases}
use vfw.Submissions.{sale_id}
use vfw.Submissions.Sale.{Catalogue, SaleDto, ResolvedSale, given, FixedTax, resolve_sale}
use vfw.Submissions.Contact.{resolve_contact}
use vfw.Submissions.Editing.{update, kept_tax}

module _ ⦃d : Decimals⦄ where
  open d use {Decimal}

  -- What a resolved sale counts as paid is the deposit of the request alone.
  resolved_paid :
      (cat : Catalogue Decimal) (dto : SaleDto Decimal) (rep_id : ℕ)
      (tax : Option (FixedTax Decimal)) (sale : ResolvedSale Decimal)
      → resolve_sale cat dto rep_id tax ≡ ok sale
      → sale.priced.paid_amount ≡ r2 (given dto.deposit zero_amount)
  unfolding resolve_sale compute
  resolved_paid cat dto rep_id tax sale done = ground arith

  module _ (env : Env) (cat : Catalogue Decimal) (id : ℕ) (dto : SaleDto Decimal) (user : AuthUser)
      (db : Db Decimal) where
    update_refused :
        (s t : Submission Decimal) (e : HttpError)
        → find sale_id id db.submissions ≡ some s
        → resolve_sale cat dto s.rep_id (some (kept_tax s.figures)) ≡ err e
        → (update env cat id dto user db).0 ≢ ok t
    unfolding update
    update_refused s t e found failed done = ground arith

    update_figures :
        (s t : Submission Decimal) (sale : ResolvedSale Decimal)
        → find sale_id id db.submissions ≡ some s
        → resolve_sale cat dto s.rep_id (some (kept_tax s.figures)) ≡ ok sale
        → (resolve_contact env dto.brand dto.details user db).1.payments ≡ db.payments
        → (update env cat id dto user db).0 ≡ ok t
        → (t.figures.paid_amount ≡ r2 sale.priced.paid_amount)
          × ((update env cat id dto user db).1.payments ≡ db.payments)
    unfolding update
    update_figures s t sale found sold kept done = ground arith

    resolve_contact_payments :
        (resolve_contact env dto.brand dto.details user db).1.payments ≡ db.payments
    unfolding resolve_contact
    resolve_contact_payments = ground arith

    -- An edit that succeeds leaves the payments on the ledger and takes the deposit of the request alone
    -- for the paid amount, whatever has been paid.
    pub update_forgets_payments :
        (s t : Submission Decimal)
        → find sale_id id db.submissions ≡ some s
        → (update env cat id dto user db).0 ≡ ok t
        → (t.figures.paid_amount ≡ r2 (r2 (given dto.deposit zero_amount)))
          × ((update env cat id dto user db).1.payments ≡ db.payments)
    update_forgets_payments s t found done =
        elim (Result-cases (resolve_sale cat dto s.rep_id (some (kept_tax s.figures)))) [
          | inl (e, failed) ↦ elim (update_refused s t e found failed done) [ ]
          | inr (sale, sold) ↦
              let (paid, kept) = update_figures s t sale found sold resolve_contact_payments done in
              (
                paid ∙ ap r2 (resolved_paid cat dto s.rep_id (some (kept_tax s.figures)) sale sold),
                kept,
              )
        ]
