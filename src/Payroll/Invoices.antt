-- ===== src/Payroll/Invoices.antt =====
-- backend/src/payroll/payroll.service.ts: the life of a payroll invoice.
pub mod Frozen
use Prim.Native.String.{String}
use vfw.Prelude.{ℕ, Bool, true, false, not, Option, none, some, List, [], ◌∷◌, ◌++◌, ltb, ◌==◌}
use vfw.Decimal.{Decimals}
use vfw.Acl.{AuthUser, can, payroll_approve}
use vfw.Store.{Db, Env, payroll_submitted, payroll_edited, payroll_approved, payroll_rejected}
use vfw.Store.Staff.{
  PayrollInvoice, PayrollInvoiceStatus, submitted, approved, rejected, PaySnapshot,
}
use vfw.Store.Table.{find, modify, filter, find_where, modify_where}
use vfw.Store.Audit.{log_action}
use vfw.Store.Call.{
  Call, bad_request, not_found, forbidden, pure, get, put, guard, or_throw, transaction, ◌>>◌,
  ◌>>=◌,
}
use vfw.Payroll.{day_of, period_range, is_approved}
use vfw.Payroll.Statement.{Statement, is_period, statement_for}

-- `SubmitPayrollDto`
pub record SubmitDto : Type 0 where
  pub from : ℕ
  pub to : ℕ

-- `EditPayrollInvoiceDto`
pub record EditDto (D : Type 0) : Type 0 where
  pub base : Option D
  pub commission : Option D
  pub note : String

abbrev pub is_submitted : PayrollInvoiceStatus → Bool
is_submitted submitted = true
is_submitted _ = false

module _ {D : Type 0} where
  abbrev pub invoice_id : PayrollInvoice D → ℕ
  invoice_id i = i.id

  abbrev pub with_invoices : List (PayrollInvoice D) → Db D → Db D
  with_invoices rows db = record db { staff = record db.staff { payroll_invoices = rows } }

  -- `existing?.status === APPROVED`
  abbrev pub approved? : Option (PayrollInvoice D) → Bool
  approved? none = false
  approved? (some i) = is_approved i.status

  -- `mine`, in the order of the table.
  unfoldable pub mine : AuthUser → Call D (List (PayrollInvoice D))
  unfolding filter
  mine actor = do pure (filter (λ i. i.user_id == actor.id) (← get).staff.payroll_invoices)

  -- `pending`, in the order of the table.
  unfoldable pub pending : AuthUser → Call D (List (PayrollInvoice D))
  unfolding filter can
  pending actor = do
    guard (can payroll_approve actor) forbidden
    pure (filter (λ i. is_submitted i.status) (← get).staff.payroll_invoices)

  -- `payrollInvoice.update({ where: { id }, data })`, of the row that was read.
  unfoldable pub decide :
      ℕ → (PayrollInvoice D → PayrollInvoice D) → PayrollInvoice D → Call D (PayrollInvoice D)
  unfolding modify
  decide id change invoice = do
    db ← get
    put (with_invoices (modify invoice_id id change db.staff.payroll_invoices) db)
    pure (change invoice)

  abbrev pub approved_by : Env → AuthUser → PayrollInvoice D → PayrollInvoice D
  approved_by env actor i = record i {
    status = approved;
    reviewed_at = some env.now;
    reviewed_by = some actor.id;
  }

  abbrev pub rejected_by : Env → String → AuthUser → PayrollInvoice D → PayrollInvoice D
  rejected_by env reason actor i = record i {
    status = rejected;
    reviewed_at = some env.now;
    reviewed_by = some actor.id;
    note = some reason;
  }

  -- `approveInvoice`
  unfoldable pub approve_invoice : Env → ℕ → AuthUser → Call D (PayrollInvoice D)
  unfolding can find decide log_action
  approve_invoice env id actor = do
    guard (can payroll_approve actor) forbidden
    db ← get
    invoice ← or_throw not_found (find invoice_id id db.staff.payroll_invoices)
    guard (is_submitted invoice.status) bad_request
    transaction do
      updated ←
          decide id
            (λ i. record i {
              status = approved;
              reviewed_at = some env.now;
              reviewed_by = some actor.id;
            })
            invoice
      log_action none actor.id payroll_approved
      pure updated

  -- `rejectInvoice`
  unfoldable pub reject_invoice : Env → ℕ → String → AuthUser → Call D (PayrollInvoice D)
  unfolding can find decide log_action
  reject_invoice env id reason actor = do
    guard (can payroll_approve actor) forbidden
    db ← get
    invoice ← or_throw not_found (find invoice_id id db.staff.payroll_invoices)
    guard (is_submitted invoice.status) bad_request
    transaction do
      updated ←
          decide id
            (λ i. record i {
              status = rejected;
              reviewed_at = some env.now;
              reviewed_by = some actor.id;
              note = some reason;
            })
            invoice
      log_action none actor.id payroll_rejected
      pure updated

module _ ⦃d : Decimals⦄ where
  open d use {Decimal, plus, to_places}

  -- The `snapshot` of `submitMine`.
  abbrev pub snapshot : Statement → PaySnapshot Decimal
  snapshot st = record {
    pay_type = st.pay.pay_type;
    base_rate = st.pay.base_rate;
    hours = st.attendance.hours;
    base = st.pay.base;
    commission_pct = st.commission_pct;
    earns_commission = st.pay.earns_commission;
    commission = st.pay.commission;
    tier_bonus = st.pay.tier_bonus;
    reimbursement = st.pay.reimbursement;
    gross = st.pay.gross;
  }

  abbrev pub new_invoice : Env → SubmitDto → AuthUser → Statement → PayrollInvoice Decimal
  new_invoice env dto actor st = record {
    id = env.new_id;
    user_id = actor.id;
    period_start = dto.from;
    period_end = dto.to;
    status = submitted;
    pay = snapshot st;
    note = none;
    submitted_at = env.now;
    reviewed_at = none;
    reviewed_by = none;
    is_test_data = env.test_data_mode;
  }

  abbrev pub resubmitted : Env → Statement → PayrollInvoice Decimal → PayrollInvoice Decimal
  resubmitted env st i = record i {
    pay = snapshot st;
    status = submitted;
    submitted_at = env.now;
    reviewed_at = none;
    reviewed_by = none;
    note = none;
  }

  -- `payrollInvoice.upsert` of `submitMine`, where `existing` is the row of the period.
  unfoldable pub upsert_invoice :
      Env → SubmitDto → AuthUser → Statement → Call Decimal (PayrollInvoice Decimal)
  unfolding find_where modify_where
  upsert_invoice env dto actor st = do
    db ← get
    let rows = db.staff.payroll_invoices
    let theirs = is_period actor.id dto.from dto.to
    elim (find_where theirs rows) [
      | none ↦
          put (with_invoices (rows ++ (new_invoice env dto actor st ∷ [])) db)
          >> pure (new_invoice env dto actor st)
      | some existing ↦
          put (with_invoices (modify_where theirs (resubmitted env st) rows) db)
          >> pure (resubmitted env st existing)
    ]

  -- `submitMine`
  unfoldable pub submit_mine :
      ℕ × ℕ → Env → SubmitDto → AuthUser → Call Decimal (PayrollInvoice Decimal)
  unfolding period_range day_of find_where statement_for upsert_invoice log_action
  submit_mine month env dto actor = do
    period_range dto.from dto.to
    guard (not (ltb (day_of env.now) dto.to)) bad_request
    db ← get
    guard
        (not
          (approved? (find_where (is_period actor.id dto.from dto.to) db.staff.payroll_invoices)))
        bad_request
    sheet ←
        statement_for month (record { from = some dto.from; to = some dto.to; user_id = none })
          actor
    transaction do
      invoice ← upsert_invoice env dto actor sheet.0
      log_action none actor.id payroll_submitted
      pure invoice

  abbrev pub given_or : Option Decimal → Decimal → Decimal
  given_or none stored = stored
  given_or (some v) stored = to_places 2 v

  -- The row that `editInvoice` writes.
  abbrev pub edited : EditDto Decimal → PayrollInvoice Decimal → PayrollInvoice Decimal
  edited dto i =
      let base = given_or dto.base i.pay.base in
      let commission = given_or dto.commission i.pay.commission in
      record i {
        pay = record i.pay {
          base = to_places 2 base;
          commission = to_places 2 commission;
          gross =
              to_places 2 (plus (plus (plus base commission) i.pay.tier_bonus) i.pay.reimbursement);
        };
        note = some dto.note;
      }

  -- `editInvoice`
  unfoldable pub edit_invoice :
      ℕ → EditDto Decimal → AuthUser → Call Decimal (PayrollInvoice Decimal)
  unfolding can find decide log_action
  edit_invoice id dto actor = do
    guard (can payroll_approve actor) forbidden
    db ← get
    invoice ← or_throw not_found (find invoice_id id db.staff.payroll_invoices)
    guard (not (is_approved invoice.status)) bad_request
    transaction do
      updated ← decide id (edited dto) invoice
      log_action none actor.id payroll_edited
      pure updated
