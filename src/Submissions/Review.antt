-- ===== src/Submissions/Review.antt =====
-- backend/src/submissions/submissions.service.ts: `approve`, `reject` and `returnToSales`, the
-- decisions of Accounting on a pending sale.
pub mod SignOff
use Prim.Native.String.{String}
use vfw.Prelude.{ℕ, ◌==◌, ◌||◌, Bool, true, false, not, Option, none, some, if◌then◌else◌}
use vfw.Decimal.{Decimals}
use vfw.Pricing.{DiscountApproval, discount_approval}
use vfw.Acl.{AuthUser}
use vfw.Store.{
  Submission, pending, returned, approved, rejected, Db, Env, discount_override_requested,
  approved_action, rejected_action, returned_action,
}
use vfw.Store.Table.{or_else}
use vfw.Store.Call.{
  Call, bad_request, server_error, pure, throw, get, guard, transaction, ◌>>=◌, ◌>>◌,
}
use vfw.Submissions.{status_index, ◌is◌, load, save, log, has_account, names_account}

pub record ApproveDto : Type 0 where
  pub gl_account : Option String
  pub cost_centre : Option String
  pub acknowledge_custom_package : Bool

-- What a successful `approve` answers: a recorded request, or the approved sale.
pub data Outcome (D : Type 0) : Type 0 where
  override_requested : Submission D → Outcome D
  decided : Submission D → Outcome D

-- The data that each decision writes.
module _ {D : Type 0} where
  abbrev pub with_request : Env → AuthUser → Submission D → Submission D
  with_request env user s = record s {
    override_requested_by = some user.id;
    override_requested_at = some env.now;
  }

  abbrev pub with_approval : Env → ApproveDto → AuthUser → Submission D → Submission D
  with_approval env dto user s = record s {
    status = approved;
    approved_at = some env.now;
    approved_by = some user.id;
    gl_code = or_else dto.gl_account s.gl_code;
    cost_centre = or_else dto.cost_centre s.cost_centre;
    override_requested_by = none;
    override_requested_at = none;
  }

  abbrev pub with_rejection : Env → String → Submission D → Submission D
  with_rejection env reason s = record s {
    status = rejected;
    rejected_at = some env.now;
    reject_reason = some reason;
    override_requested_by = none;
    override_requested_at = none;
  }

  abbrev pub with_return : String → Submission D → Submission D
  with_return note s = record s {
    status = returned;
    return_note = some note;
    override_requested_by = none;
    override_requested_at = none;
  }

module _ ⦃d : Decimals⦄ where
  open d use {Decimal}

  -- The discount question of `approve`, on the stored figures and the threshold of the moment.
  abbrev pub discount_question : Submission Decimal → Db Decimal → DiscountApproval Decimal
  discount_question s db =
      discount_approval s.figures.package_price s.figures.discount_amount
        db.settings.discount_approval_pct

  -- The first transaction of `approve`: who asks is recorded, and the sale stays pending.
  unfoldable pub request_override : Env → ℕ → AuthUser → Call Decimal (Outcome Decimal)
  unfolding save log
  request_override env id user = transaction do
    updated ← save id (with_request env user)
    log id user discount_override_requested none
    pure (override_requested updated)

  -- The second one: the approval, with the request markers cleared. `requested_by` is what the
  -- audit entry says of an override. The update fails on an account that is not in the table.
  unfoldable pub sign : Env → ℕ → ApproveDto → AuthUser → Option ℕ → Call Decimal (Outcome Decimal)
  unfolding save log names_account
  sign env id dto user requested_by = transaction do
    db ← get
    guard (has_account dto.gl_account db.gl_accounts) server_error
    updated ← save id (with_approval env dto user)
    log id user approved_action requested_by
    pure (decided updated)

  -- The gate on a customized package, and then the approval.
  unfoldable pub acknowledge :
      Env
      → ℕ
      → Submission Decimal
      → ApproveDto
      → AuthUser
      → Option ℕ
      → Call Decimal (Outcome Decimal)
  unfolding sign
  acknowledge env id s dto user requested_by = do
    guard (not s.package_customized || dto.acknowledge_custom_package) bad_request
    sign env id dto user requested_by

  -- Above the threshold: a request, a refusal of whoever asked, or a second signature.
  unfoldable pub second_signature :
      Env
      → ℕ
      → Submission Decimal
      → ApproveDto
      → AuthUser
      → Option ℕ
      → Call Decimal (Outcome Decimal)
  unfolding request_override acknowledge
  second_signature env id s dto user none = request_override env id user
  second_signature env id s dto user (some requester) =
      if requester == user.id
      then throw bad_request
      else acknowledge env id s dto user (some requester)

  unfoldable pub approve : Env → ℕ → ApproveDto → AuthUser → Call Decimal (Outcome Decimal)
  unfolding load status_index second_signature acknowledge
  approve env id dto user = do
    s ← load id
    guard (s.status is pending) bad_request
    db ← get
    if (discount_question s db).exceeds_threshold
        then second_signature env id s dto user s.override_requested_by
        else acknowledge env id s dto user none

  unfoldable pub reject : Env → ℕ → String → AuthUser → Call Decimal (Submission Decimal)
  unfolding load status_index save log
  reject env id reason user = do
    s ← load id
    guard (s.status is pending) bad_request
    transaction do
      updated ← save id (with_rejection env reason)
      log id user rejected_action none
      pure updated

  unfoldable pub return_to_sales : Env → ℕ → String → AuthUser → Call Decimal (Submission Decimal)
  unfolding load status_index save log
  return_to_sales env id note user = do
    s ← load id
    guard (s.status is pending) bad_request
    transaction
        do updated ← save id (with_return note); log id user returned_action none; pure updated
