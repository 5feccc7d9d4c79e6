-- ===== src/Payroll/Reimbursements.antt =====
-- backend/src/payroll/payroll.service.ts: `setReimbursement`.
use Prim.Native.String.{String}
use vfw.Prelude.{ℕ, not, Option, none, some, List, [], ◌∷◌, ◌++◌}
use vfw.Decimal.{Decimals}
use vfw.Acl.{AuthUser, can, payroll_approve}
use vfw.Store.{Db, reimbursement_set}
use vfw.Store.Staff.{Reimbursement}
use vfw.Store.Table.{find_where, modify_where}
use vfw.Store.Audit.{log_action}
use vfw.Store.Call.{
  Call, bad_request, not_found, forbidden, get, put, guard, or_throw, transaction, ◌>>=◌, ◌>>◌,
}
use vfw.Attendance.{find_person}
use vfw.Payroll.{decimal, period_range}
use vfw.Payroll.Invoices.{approved?}
use vfw.Payroll.Statement.{is_period, is_repaid}

-- `SetReimbursementDto`, with what `new Decimal` makes of its text: none if it is no finite number.
pub record ReimbursementDto (D : Type 0) : Type 0 where
  pub user_id : ℕ
  pub from : ℕ
  pub to : ℕ
  pub amount : Option D
  pub note : Option String

module _ {D : Type 0} where
  abbrev pub with_reimbursements : List (Reimbursement D) → Db D → Db D
  with_reimbursements rows db = record db { staff = record db.staff { reimbursements = rows } }

module _ ⦃d : Decimals⦄ where
  open d use {Decimal, to_places}

  -- `setReimbursement`
  unfoldable pub set_reimbursement : ReimbursementDto Decimal → AuthUser → Call Decimal (Unit {0})
  unfolding can period_range decimal find_person find_where modify_where log_action
  set_reimbursement dto actor = do
    guard (can payroll_approve actor) forbidden
    period_range dto.from dto.to
    value ← decimal dto.amount
    db ← get
    person ← or_throw not_found (find_person dto.user_id db.staff.accounts)
    guard
        (not
          (approved? (find_where (is_period person.id dto.from dto.to) db.staff.payroll_invoices)))
        bad_request
    let rows = db.staff.reimbursements
    let theirs = is_repaid person.id dto.from dto.to
    let amount = to_places 2 value
    let change : Reimbursement Decimal → Reimbursement Decimal =
        λ r. record r { amount = amount; note = dto.note; updated_by = actor.id }
    let fresh : Reimbursement Decimal = record {
      user_id = person.id;
      period_start = dto.from;
      period_end = dto.to;
      amount = amount;
      note = dto.note;
      updated_by = actor.id;
    }
    transaction do
      put (
          with_reimbursements
            (elim (find_where theirs rows) [
              | none ↦ rows ++ (fresh ∷ [])
              | some _ ↦ modify_where theirs change rows
            ])
            db)
      log_action none actor.id reimbursement_set
