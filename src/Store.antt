-- ===== src/Store.antt =====
-- The rows of backend/prisma/schema.prisma that the modelled services read and write, and what a
-- service call is: a function of the database that ends in a value or in an HTTP error. Ids are
-- numbers that are only compared, times are numbers, and the wording of errors and audit details is
-- left out.
pub mod Table
pub mod Call
pub mod Keeps
pub mod Access
pub mod Staff
pub mod Portal
pub mod Audit
use Prim.Native.String.{String}
use vfw.Prelude.{ℕ, Bool, Option, List}
use vfw.Store.Staff.{StaffTables}
use vfw.Store.Portal.{PortalTables}
use vfw.Pricing.{AddonLine, Currency, DiscountType, PayStatus}

-- Text that the code takes apart or glues together, as character codes.
abbrev pub Text : Type 0
Text = List ℕ

-- `enum SubmissionStatus`
pub data SubmissionStatus : Type 0 where
  draft pending returned approved rejected exported voided : SubmissionStatus

-- The money columns of `model Submission`, with the stored add-on lines.
pub record Figures (D : Type 0) : Type 0 where
  pub currency : Currency
  pub package_price : D
  pub addons : List (AddonLine D)
  pub addon_total : D
  pub subtotal : D
  pub discount_type : DiscountType
  pub discount_value : D
  pub discount_amount : D
  pub taxable : D
  pub tax_rate : D
  pub tax_amount : D
  pub addon_tax_code : Option ℕ
  pub addon_tax_rate : Option D
  pub addon_tax_amount : D
  pub total : D
  pub deposit : D
  pub paid_amount : D
  pub balance : D
  pub pay_status : PayStatus
  pub commission_pct : D
  pub commission_amount : D

-- `model Submission`
pub record Submission (D : Type 0) : Type 0 where
  pub id : ℕ
  pub rep_id : ℕ
  pub contact_id : ℕ
  pub city : Text
  pub status : SubmissionStatus
  pub figures : Figures D
  pub package_customized : Bool
  pub payment_method : Option String
  pub submitted_at : Option ℕ
  pub approved_at : Option ℕ
  pub approved_by : Option ℕ
  pub rejected_at : Option ℕ
  pub reject_reason : Option String
  pub return_note : Option String
  pub override_requested_by : Option ℕ
  pub override_requested_at : Option ℕ
  pub gl_code : Option String
  pub cost_centre : Option String
  pub department : Option String
  pub invoice_no : Option Text
  pub voided_from : Option SubmissionStatus
  pub voided_at : Option ℕ
  pub voided_by : Option ℕ
  pub exported_at : Option ℕ
  pub qb_doc_number : Option Text
  pub qbo_invoice_id : Option Text
  pub qbo_sync_error : Option String
  pub is_test_data : Bool

-- `model Payment`
pub record Payment (D : Type 0) : Type 0 where
  pub id : ℕ
  pub submission_id : ℕ
  pub amount : D
  pub currency : Currency
  pub method : String
  pub reference : Option String
  pub recorded_by : ℕ
  pub is_test_data : Bool

-- `enum InstallmentStatus`
pub data InstallmentStatus : Type 0 where
  due settled : InstallmentStatus

-- `model Installment`
pub record Installment (D : Type 0) : Type 0 where
  pub id : ℕ
  pub submission_id : ℕ
  pub seq : ℕ
  pub label : Option String
  pub due_date : ℕ
  pub amount : D
  pub currency : Currency
  pub method : Option String
  pub status : InstallmentStatus
  pub paid_at : Option ℕ
  pub paid_by : Option ℕ
  pub payment_id : Option ℕ

-- The pinned row of `model Settings`.
pub record Settings (D : Type 0) : Type 0 where
  pub discount_approval_pct : D
  pub invoice_prefix : Text
  pub gfc_invoice_prefix : Text
  pub next_invoice_seq : ℕ
  pub next_gfc_invoice_seq : ℕ
  -- `fxRates`: what one unit of a currency is worth in Canadian dollars.
  pub fx_rate : Currency → Option D

-- The columns of `model Contact` that a sale overwrites.
pub record ContactDetails : Type 0 where
  pub designer : String
  pub company : Option String
  pub email : Option String
  pub phone : Option String
  pub country : Option String

-- `model Contact`
pub record Contact : Type 0 where
  pub id : ℕ
  pub brand : String
  pub details : ContactDetails
  pub created_by : ℕ
  pub is_test_data : Bool

-- The `action` column of `model AuditEntry`.
pub data AuditAction : Type 0 where
  discount_override_requested approved_action rejected_action returned_action : AuditAction
  payment_action reclassified invoice_action invoice_renumbered voided_action : AuditAction
  restored exported_action export_failed amended resubmitted submitted_action : AuditAction
  plan_set plan_cleared installment_paid installment_unpaid : AuditAction
  role_created role_updated role_deleted attendance_corrected : AuditAction
  payroll_submitted payroll_edited payroll_approved payroll_rejected : AuditAction
  reimbursement_set tier_created tier_updated tier_deleted : AuditAction
  google_sso_linked signup_action email_verified : AuditAction
  password_reset_requested password_reset : AuditAction
  invite_created invite_updated invite_deleted invite_revoked : AuditAction
  user_updated user_deleted user_approved user_rejected portal_link_sent : AuditAction

pub record AuditEntry : Type 0 where
  pub submission_id : Option ℕ
  pub actor_id : ℕ
  pub action : AuditAction
  -- `payload.discountOverride.requestedBy.id`
  pub requested_by : Option ℕ

pub record Db (D : Type 0) : Type 0 where
  pub submissions : List (Submission D)
  pub payments : List (Payment D)
  pub installments : List (Installment D)
  pub contacts : List Contact
  -- The codes of `model GlAccount`, which the `glCode` of a sale refers to.
  pub gl_accounts : List String
  pub settings : Settings D
  pub staff : StaffTables D
  pub portal : PortalTables D
  pub audit : List AuditEntry

-- What a call takes from outside: the clock, the id that the database gives to a row it creates, and
-- the Test data switch of `ConfigService`.
pub record Env : Type 0 where
  pub now : ℕ
  pub new_id : ℕ
  pub test_data_mode : Bool
