-- ===== src/Submissions/Entry.antt =====
-- backend/src/submissions/submissions.service.ts: `create`. The season and the reference are not part
-- of the model.
use vfw.Prelude.{none, some, [], ◌∷◌, ◌++◌}
use vfw.Decimal.{Decimals}
use vfw.Acl.{AuthUser}
use vfw.Store.{Submission, Contact, pending, submitted_action, Env}
use vfw.Store.Call.{Call, pure, get, put, lift, transaction, ◌>>=◌, ◌>>◌}
use vfw.Submissions.{log}
use vfw.Submissions.Sale.{Catalogue, SaleDto, ResolvedSale, resolve_sale}
use vfw.Submissions.Contact.{resolve_contact}
use vfw.Submissions.Editing.{repriced}

module _ ⦃d : Decimals⦄ where
  open d use {Decimal}

  -- The row that `create` inserts. A column that it leaves out is null.
  abbrev pub new_sale :
      Env → SaleDto Decimal → ResolvedSale Decimal → Contact → AuthUser → Submission Decimal
  new_sale env dto sale contact user = record {
    id = env.new_id;
    rep_id = user.id;
    contact_id = contact.id;
    city = sale.event.city;
    status = pending;
    figures = repriced dto sale;
    package_customized = sale.package_customized;
    payment_method = dto.payment_method;
    submitted_at = some env.now;
    approved_at = none;
    approved_by = none;
    rejected_at = none;
    reject_reason = none;
    return_note = none;
    override_requested_by = none;
    override_requested_at = none;
    gl_code = none;
    cost_centre = none;
    department = sale.rep.department;
    invoice_no = none;
    voided_from = none;
    voided_at = none;
    voided_by = none;
    exported_at = none;
    qb_doc_number = none;
    qbo_invoice_id = none;
    qbo_sync_error = none;
    is_test_data = env.test_data_mode;
  }

  -- `create`: the caller is the rep, and the taxes come from the catalogue.
  unfoldable pub create :
      Env → Catalogue Decimal → SaleDto Decimal → AuthUser → Call Decimal (Submission Decimal)
  unfolding resolve_sale resolve_contact log
  create env cat dto user = do
    sale ← lift (resolve_sale cat dto user.id none)
    transaction do
      contact ← resolve_contact env dto.brand dto.details user
      db ← get
      let created = new_sale env dto sale contact user
      put (record db { submissions = db.submissions ++ (created ∷ []) })
      log created.id user submitted_action none
      pure created
