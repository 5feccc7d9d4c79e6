-- ===== src/Submissions/Editing.antt =====
-- backend/src/submissions/submissions.service.ts: `update`, which edits, resubmits or amends a sale.
pub mod Decided
pub mod Forgotten
use vfw.Prelude.{
  ℕ, ◌==◌, ◌&&◌, ◌||◌, Bool, true, false, not, Option, none, some, map, if◌then◌else◌,
}
use vfw.Decimal.{Decimals, zero_amount, r2}
use vfw.Acl.{AuthUser, can, submission_edit_any, submission_edit_own}
use vfw.Store.{
  Submission, Figures, Contact, SubmissionStatus, draft, pending, returned, approved, rejected,
  exported, voided, AuditAction, amended, resubmitted, Env,
}
use vfw.Store.Call.{
  Call, bad_request, not_found, forbidden, pure, lift, guard, transaction, ◌>>=◌, ◌>>◌,
}
use vfw.Store.Table.{or_else}
use vfw.Submissions.{status_index, ◌is◌, load, save, log}
use vfw.Submissions.Sale.{
  Catalogue, SaleDto, ResolvedSale, TaxProfile, FixedTax, given, resolve_sale,
}
use vfw.Submissions.Contact.{resolve_contact}

abbrev pub is_decided : SubmissionStatus → Bool
is_decided s = s is approved || s is exported

abbrev pub is_entering : SubmissionStatus → Bool
is_entering s = s is draft || s is returned

abbrev pub is_dead : SubmissionStatus → Bool
is_dead s = s is rejected || s is voided

abbrev pub edit_action : SubmissionStatus → AuditAction
edit_action s = if is_decided s then amended else resubmitted

-- The add-ons' own tax that a sale was created with, which needs a code and a rate.
abbrev pub kept_addon_tax : {D : Type 0} → Option ℕ → Option D → Option (TaxProfile D)
kept_addon_tax (some code) (some rate) = some (record { code = code; rate = rate })
kept_addon_tax _ _ = none

abbrev pub kept_tax : {D : Type 0} → Figures D → FixedTax D
kept_tax f = record { rate = f.tax_rate; addon = kept_addon_tax f.addon_tax_code f.addon_tax_rate }

abbrev pub tax_code_of : {D : Type 0} → Option (TaxProfile D) → Option ℕ
tax_code_of none = none
tax_code_of (some t) = some t.code

-- `mayEdit` of `update` and of `setInvoiceNo`.
unfoldable pub may_edit : {D : Type 0} → AuthUser → Submission D → Bool
unfolding can
may_edit user s =
    can submission_edit_any user || (can submission_edit_own user && s.rep_id == user.id)

module _ ⦃d : Decimals⦄ where
  open d use {Decimal, to_places}

  abbrev pub places_3 : Option Decimal → Option Decimal
  places_3 none = none
  places_3 (some x) = some (to_places 3 x)

  -- The money columns that `update` writes.
  abbrev pub repriced : SaleDto Decimal → ResolvedSale Decimal → Figures Decimal
  repriced dto sale =
      let p = sale.priced in
      record {
        currency = sale.currency;
        package_price = r2 p.package_price;
        addons = map (λ l. l.line) p.lines;
        addon_total = r2 p.addon_total;
        subtotal = r2 p.subtotal;
        discount_type = sale.discount_type;
        discount_value = r2 (given dto.discount_value zero_amount);
        discount_amount = r2 p.discount_amount;
        taxable = r2 p.taxable;
        tax_rate = to_places 3 p.tax_rate;
        tax_amount = r2 p.tax_amount;
        addon_tax_code = tax_code_of sale.addon_tax;
        addon_tax_rate = places_3 p.addon_tax_rate;
        addon_tax_amount = r2 p.addon_tax_amount;
        total = r2 p.total;
        deposit = r2 (given dto.deposit zero_amount);
        paid_amount = r2 p.paid_amount;
        balance = r2 p.balance;
        pay_status = p.pay_status;
        commission_pct = r2 p.commission_pct;
        commission_amount = r2 p.commission_amount;
      }

  -- The row that `update` leaves.
  abbrev pub edited :
      Env
      → SaleDto Decimal
      → ResolvedSale Decimal
      → Contact
      → Submission Decimal
      → Submission Decimal
  edited env dto sale contact s = record s {
    status = if is_decided s.status then s.status else pending;
    submitted_at = if is_entering s.status then some env.now else s.submitted_at;
    return_note = none;
    override_requested_by = none;
    override_requested_at = none;
    contact_id = contact.id;
    city = sale.event.city;
    package_customized = sale.package_customized;
    figures = repriced dto sale;
    payment_method = or_else dto.payment_method s.payment_method;
    department = sale.rep.department;
  }

  unfoldable pub update :
      Env → Catalogue Decimal → ℕ → SaleDto Decimal → AuthUser → Call Decimal (Submission Decimal)
  unfolding load status_index may_edit can resolve_contact save log
  update env cat id dto user = do
    existing ← load id
    guard (may_edit user existing) not_found
    guard (not (is_decided existing.status) || can submission_edit_any user) forbidden
    guard (not (is_dead existing.status)) bad_request
    sale ← lift (resolve_sale cat dto existing.rep_id (some (kept_tax existing.figures)))
    transaction do
      contact ← resolve_contact env dto.brand dto.details user
      updated ← save id (edited env dto sale contact)
      log id user (edit_action existing.status) none
      pure updated
