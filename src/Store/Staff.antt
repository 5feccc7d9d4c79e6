-- ===== src/Store/Staff.antt =====
-- The rows of backend/prisma/schema.prisma about the people who work with the application: accounts,
-- roles and invitations, days worked, and what payroll keeps. A calendar day is a number of days.
use Prim.Native.String.{String}
use vfw.Prelude.{ℕ, Bool, Option, List}
use vfw.Acl.{Permission}
use vfw.Store.Access.{UserStatus, Credentials, AccessTables}

-- `enum PayType`
pub data PayType : Type 0 where
  commission_only salary hourly : PayType

-- The columns of `model User` that are read here.
pub record Account (D : Type 0) : Type 0 where
  pub id : ℕ
  pub email : List ℕ
  pub name : List ℕ
  pub phone : Option String
  pub role : List ℕ
  pub department : Option String
  pub status : UserStatus
  pub credentials : Credentials
  pub hidden : Bool
  pub deleted : Bool
  pub pay_type : PayType
  pub base_rate : D
  pub earns_commission : Bool
  pub commission_pct : D
  pub target : D

-- `model RoleDef`
pub record RoleDef : Type 0 where
  pub key : List ℕ
  pub label : List ℕ
  pub built_in : Bool
  pub permissions : List Permission

-- `model Invitation`
pub record Invitation : Type 0 where
  pub id : ℕ
  pub code : List ℕ
  pub role : List ℕ
  pub department : Option String
  pub email : Option (List ℕ)
  pub expires_at : ℕ
  pub used_at : Option ℕ
  pub used_by : Option ℕ
  pub revoked_at : Option ℕ
  pub deleted_at : Option ℕ
  pub created_by : ℕ

-- `enum AttendanceStatus`
pub data AttendanceStatus : Type 0 where
  present remote leave sick holiday absent : AttendanceStatus

-- `model AttendanceEntry`
pub record AttendanceEntry (D : Type 0) : Type 0 where
  pub user_id : ℕ
  pub date : ℕ
  pub status : AttendanceStatus
  pub hours : D
  pub note : Option String
  pub updated_by : ℕ
  pub is_test_data : Bool

-- `enum PayrollInvoiceStatus`
pub data PayrollInvoiceStatus : Type 0 where
  submitted approved rejected : PayrollInvoiceStatus

-- The frozen figures of `model PayrollInvoice`.
pub record PaySnapshot (D : Type 0) : Type 0 where
  pub pay_type : PayType
  pub base_rate : D
  pub hours : D
  pub base : D
  pub commission_pct : D
  pub earns_commission : Bool
  pub commission : D
  pub tier_bonus : D
  pub reimbursement : D
  pub gross : D

-- `model PayrollInvoice`
pub record PayrollInvoice (D : Type 0) : Type 0 where
  pub id : ℕ
  pub user_id : ℕ
  pub period_start : ℕ
  pub period_end : ℕ
  pub status : PayrollInvoiceStatus
  pub pay : PaySnapshot D
  pub note : Option String
  pub submitted_at : ℕ
  pub reviewed_at : Option ℕ
  pub reviewed_by : Option ℕ
  pub is_test_data : Bool

-- `model PayrollReimbursement`
pub record Reimbursement (D : Type 0) : Type 0 where
  pub user_id : ℕ
  pub period_start : ℕ
  pub period_end : ℕ
  pub amount : D
  pub note : Option String
  pub updated_by : ℕ

-- `model CommissionTier`
pub record CommissionTier (D : Type 0) : Type 0 where
  pub id : ℕ
  pub threshold_revenue : D
  pub bonus_pct : D

-- The tables about people.
pub record StaffTables (D : Type 0) : Type 0 where
  pub accounts : List (Account D)
  pub roles : List RoleDef
  pub invitations : List Invitation
  pub attendance : List (AttendanceEntry D)
  pub payroll_invoices : List (PayrollInvoice D)
  pub reimbursements : List (Reimbursement D)
  pub tiers : List (CommissionTier D)
  pub access : AccessTables
