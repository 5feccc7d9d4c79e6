-- ===== src/Examples/Edits.antt =====
-- Edits of the sale of Examples.antt.
use vfw.Prelude.{◌≡◌, ◌||◌, not, refl, true, false, none, [], ◌∷◌, if◌then◌else◌}
use vfw.Decimal.{r2}
use vfw.Decimal.Fixed.{fixed}
use vfw.Pricing.{pct, compute}
use vfw.Acl.{can, submission_edit_any, default_permissions}
use vfw.Store.{Submission, pending, Db}
use vfw.Store.Table.{find}
use vfw.Submissions.Sale.{ResolvedSale, sale_input, resolve_sale}
use vfw.Submissions.Contact.{resolve_contact}
use vfw.Submissions.Editing.{update, may_edit, edited, is_decided, is_dead}
use vfw.Submissions.Editing.Decided.{update_status}
use vfw.Submissions.Editing.Forgotten.{update_forgets_payments}
use vfw.Submissions.Entry.{create, new_sale}
use vfw.Submissions.Export.{QuickBooks, Posted}
use vfw.Submissions.Lifecycle.{IsSound}
use vfw.Submissions.Lifecycle.Runs.{Request, Step, run, perform, run-IsSound}
use vfw.Examples.{
  Amount, sale, figures, holding, emptied, env, dto, seller, catalogue, contact, event, rep, money,
}

-- What the edit of the sale resolves to, and the row that it leaves.
abbrev resolved : ResolvedSale Amount
resolved = record {
  event = event;
  currency = figures.currency;
  discount_type = pct;
  rep = rep;
  priced = compute (sale_input dto rep (money 100_000) [] pct (money 0) none);
  addon_tax = none;
  package_customized = false;
}

abbrev after : Submission Amount
after = edited env dto resolved contact sale

update_status_example :
    (may_edit seller sale ≡ true)
    × (not (is_decided pending) || can submission_edit_any seller ≡ true)
    × (is_dead pending ≡ false)
    × (after.status ≡ (if is_decided pending then pending else pending))
    × (after.override_requested_by ≡ none)
    × (after.approved_by ≡ sale.approved_by)
    × (after.invoice_no ≡ sale.invoice_no)
    × (after.rep_id ≡ sale.rep_id)
unfolding update find resolve_sale default_permissions
update_status_example =
    update_status env catalogue 10 dto seller (holding sale) sale after refl refl

-- 200.00 has been paid on top of the deposit of 100.00.
abbrev with_a_payment : Db Amount
with_a_payment = record (holding sale) {
  payments =
      record {
        id = 70;
        submission_id = 10;
        amount = money 20_000;
        currency = figures.currency;
        method = "Cash";
        reference = none;
        recorded_by = 1;
        is_test_data = false;
      }
      ∷ [];
}

update_forgets_payments_example :
    (after.figures.paid_amount ≡ r2 (r2 (money 10_000)))
    × ((update env catalogue 10 dto seller with_a_payment).1.payments ≡ with_a_payment.payments)
unfolding update find resolve_sale default_permissions
update_forgets_payments_example =
    update_forgets_payments env catalogue 10 dto seller with_a_payment sale after refl refl

-- The sale entered anew, with nothing in the table.
abbrev entered : Submission Amount
entered = new_sale env dto resolved contact seller

abbrev offline : QuickBooks Amount
offline = record {
  is_connected = false;
  is_production = false;
  post = λ s doc number. Posted.refused "";
}

abbrev entering : Step Amount
entering = record {
  env = env;
  user = seller;
  catalogue = catalogue;
  quickbooks = offline;
  request = Request.create dto;
}

run-IsSound_example : IsSound entered
unfolding find run create resolve_sale resolve_contact default_permissions perform
run-IsSound_example = run-IsSound (λ t. none) (entering ∷ []) emptied (λ j s e. cc) 500 entered refl
