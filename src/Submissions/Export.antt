-- ===== src/Submissions/Export.antt =====
-- backend/src/submissions/submissions.service.ts: `export`, the hand-over to QuickBooks. The
-- connection (qbo/qbo-connection.service.ts) and the post over HTTP (qbo/qbo-export.service.ts) come
-- as a parameter.
pub mod Phases
use Prim.Native.String.{String}
use vfw.Prelude.{ℕ, Bool, true, false, ◌&&◌, not, Option, none, some, [], if◌then◌else◌}
use vfw.Pricing.{PayStatus, paid}
use vfw.Acl.{AuthUser}
use vfw.Store.{
  Submission, SubmissionStatus, approved, exported, Text, exported_action, export_failed, Db, Env,
}
use vfw.Store.Call.{Call, bad_request, pure, throw, get, guard, transaction, ◌>>=◌, ◌>>◌}
use vfw.Submissions.{status_index, ◌is◌, load, save, log}
use vfw.Submissions.Invoice.{has_number, with_number, allocate_invoice}

-- The answer of `postSubmission`: QuickBooks' document number and id, or the message of what it threw.
pub data Posted : Type 0 where
  accepted : Text → Text → Posted
  refused : String → Posted

pub record QuickBooks (D : Type 0) : Type 0 where
  pub is_connected : Bool
  pub is_production : Bool
  pub post : Submission D → String → Text → Posted

-- `dto.docType ?? (payStatus === 'PAID' ? 'Sales Receipt' : 'Invoice')`
abbrev pub doc_type_of : Option String → PayStatus → String
doc_type_of (some t) status = t
doc_type_of none PayStatus.paid = "Sales Receipt"
doc_type_of none _ = "Invoice"

-- `prepared.invoiceNo!`
abbrev pub number_of : Option Text → Text
number_of none = []
number_of (some t) = t

module _ {D : Type 0} where
  abbrev pub with_stub : Env → Text → Submission D → Submission D
  with_stub env number t = record t {
    status = exported;
    exported_at = some env.now;
    qb_doc_number = some number;
    qbo_sync_error = none;
  }

  abbrev pub with_posting : Env → Text → Text → Submission D → Submission D
  with_posting env doc_number qbo_id t = record t {
    status = exported;
    exported_at = some env.now;
    qb_doc_number = some doc_number;
    qbo_invoice_id = some qbo_id;
    qbo_sync_error = none;
  }

  abbrev pub with_sync_error : String → Submission D → Submission D
  with_sync_error message t = record t { qbo_sync_error = some message }

  -- Phase 1: the sale is approved and carries an invoice number.
  unfoldable pub prepare : ℕ → Call D (Submission D)
  unfolding load status_index allocate_invoice save
  prepare id = transaction do
    s ← load id
    guard (s.status is approved) bad_request
    if has_number s.invoice_no
        then pure s
        else do number ← allocate_invoice s.city; save id (with_number number)

  -- Phase 3 without a connection: the invoice number stands for the document number.
  unfoldable pub record_stub : Env → ℕ → AuthUser → Text → Call D (Submission D)
  unfolding save log
  record_stub env id user number =
      transaction
        do updated ← save id (with_stub env number); log id user exported_action none; pure updated

  -- Phase 3 after the post. A refusal is written down, outside any transaction, and thrown.
  unfoldable pub record_post : Env → ℕ → AuthUser → Posted → Call D (Submission D)
  unfolding save log
  record_post env id user (accepted doc_number qbo_id) = transaction do
    updated ← save id (with_posting env doc_number qbo_id)
    log id user exported_action none
    pure updated
  record_post env id user (refused message) = do
    save id (with_sync_error message)
    log id user export_failed none
    throw bad_request

  unfoldable pub export : Env → QuickBooks D → ℕ → Option String → AuthUser → Call D (Submission D)
  unfolding prepare record_stub record_post
  export env qbo id doc_type user = do
    prepared ← prepare id
    let doc = doc_type_of doc_type prepared.figures.pay_status
    let number = number_of prepared.invoice_no
    if not qbo.is_connected
        then record_stub env id user number
        else if prepared.is_test_data && qbo.is_production
        then throw bad_request
        else record_post env id user (qbo.post prepared doc number)
