-- ===== src/Examples.antt =====
-- The data that the examples share: a sale of a package for 1000.00 at 30 percent off, with 100.00
-- paid as a deposit, the two people who decide on it, and a database that holds it. The decimals are
-- the ones of Decimal/Fixed.antt.
pub mod Money
pub mod Decisions
pub mod Handover
pub mod Edits
pub mod Plans
pub mod Cards
pub mod Payday
pub mod SignIn
pub mod Visits
use vfw.Prelude.{ℕ, Bool, true, false, Option, none, some, List, [], ◌∷◌, ◌≡◌, refl, arith}
use vfw.Prelude.Int.{ℤ, pos}
use vfw.Prelude.Words.{decimal}
use vfw.Decimal.{Decimals}
use vfw.Decimal.Fixed.{fixed}
use vfw.Acl.{role_key, default_permissions, AuthUser, BuiltInRole, sales, acct, admin}
use vfw.Pricing.{Currency, DiscountType, PayStatus, PricingInput}
use vfw.Store.{
  Submission, SubmissionStatus, pending, approved, Figures, Payment, Contact, ContactDetails,
  Settings, Text, Db, Env, Installment, InstallmentStatus,
}
use vfw.Store.Access.{AccessTables}
use vfw.Submissions.Lifecycle.{IsSound}
use vfw.Submissions.Sale.{Catalogue, SaleDto, Event, Package, Rep}

abbrev pub Amount : Type 0
Amount = fixed.Decimal

-- An amount in hundredths.
abbrev pub money : ℕ → Amount
money n = fixed.of_cents (pos n)

-- Someone who signs in with a built-in role's default permissions.
abbrev holder : ℕ → BuiltInRole → AuthUser
holder user role = record {
  id = user;
  role = role_key role;
  permissions = default_permissions role;
}

abbrev pub seller : AuthUser
seller = holder 7 sales

abbrev pub maker : AuthUser
maker = holder 1 acct

abbrev pub checker : AuthUser
checker = holder 2 admin

abbrev pub stranger : AuthUser
stranger = holder 8 sales

abbrev pub env : Env
env = record { now = 1_000; new_id = 500; test_data_mode = false }

abbrev pub toronto : Text
toronto = b't' ∷ b'o' ∷ b'r' ∷ b'o' ∷ b'n' ∷ b't' ∷ b'o' ∷ []

abbrev pub figures : Figures Amount
figures = record {
  currency = Currency.cad;
  package_price = money 100_000;
  addons = [];
  addon_total = money 0;
  subtotal = money 100_000;
  discount_type = DiscountType.pct;
  discount_value = money 3_000;
  discount_amount = money 30_000;
  taxable = money 70_000;
  tax_rate = money 0;
  tax_amount = money 0;
  addon_tax_code = none;
  addon_tax_rate = none;
  addon_tax_amount = money 0;
  total = money 70_000;
  deposit = money 10_000;
  paid_amount = money 10_000;
  balance = money 60_000;
  pay_status = PayStatus.partial;
  commission_pct = money 1_000;
  commission_amount = money 7_000;
}

abbrev pub sale : Submission Amount
sale = record {
  id = 10;
  rep_id = 7;
  contact_id = 30;
  city = toronto;
  status = pending;
  figures = figures;
  package_customized = false;
  payment_method = none;
  submitted_at = some 900;
  approved_at = none;
  approved_by = none;
  rejected_at = none;
  reject_reason = none;
  return_note = none;
  override_requested_by = none;
  override_requested_at = none;
  gl_code = none;
  cost_centre = none;
  department = none;
  invoice_no = none;
  voided_from = none;
  voided_at = none;
  voided_by = none;
  exported_at = none;
  qb_doc_number = none;
  qbo_invoice_id = none;
  qbo_sync_error = none;
  is_test_data = false;
}

pub sale-IsSound : IsSound sale
sale-IsSound = record {
  remembers = λ e. ground arith;
  live = λ e. refl;
  asks = λ e. refl;
  signed = λ e. ground arith;
  posted = λ e. ground arith;
}

abbrev pub approved_sale : Submission Amount
approved_sale = record sale { status = approved; approved_by = some 2 }

pub approved_sale-IsSound : IsSound approved_sale
approved_sale-IsSound = record {
  remembers = λ e. ground arith;
  live = λ e. refl;
  asks = λ e. ground arith;
  signed = λ e f. cc;
  posted = λ e. ground arith;
}

abbrev pub details : ContactDetails
details = record {
  designer = "A. Weaver";
  company = none;
  email = none;
  phone = none;
  country = none;
}

abbrev pub contact : Contact
contact = record {
  id = 30;
  brand = "Loom";
  details = details;
  created_by = 7;
  is_test_data = false;
}

-- The prefixes are "V-" and "G-".
abbrev pub settings : Settings Amount
settings = record {
  discount_approval_pct = money 1_500;
  invoice_prefix = b'V' ∷ b'-' ∷ [];
  gfc_invoice_prefix = b'G' ∷ b'-' ∷ [];
  next_invoice_seq = 41;
  next_gfc_invoice_seq = 12;
  fx_rate = λ c. some (money 100);
}

abbrev pub installment : Installment Amount
installment = record {
  id = 60;
  submission_id = 10;
  seq = 1;
  label = none;
  due_date = 2_000;
  amount = money 20_000;
  currency = Currency.cad;
  method = none;
  status = InstallmentStatus.due;
  paid_at = none;
  paid_by = none;
  payment_id = none;
}

abbrev pub no_access : AccessTables
no_access = record { attempts = []; otps = []; resets = [] }

abbrev pub holding : Submission Amount → Db Amount
holding s = record {
  submissions = s ∷ [];
  payments = [];
  installments = installment ∷ [];
  contacts = contact ∷ [];
  gl_accounts = "4050" ∷ [];
  settings = settings;
  staff = record {
    accounts = [];
    roles = [];
    invitations = [];
    attendance = [];
    payroll_invoices = [];
    reimbursements = [];
    tiers = [];
    access = no_access;
  };
  portal = record { tokens = []; checkouts = [] };
  audit = [];
}

abbrev pub emptied : Db Amount
emptied = record (holding sale) { submissions = [] }

abbrev pub package_a : Package Amount
package_a = record {
  id = 3;
  brand = 0;
  tax = record { code = 1; rate = money 0 };
  prices = record { city_id = 5; price = money 100_000; currency = Currency.cad } ∷ [];
}

abbrev pub event : Event
event = record { id = 4; brand = 0; city_id = 5; city = toronto }

abbrev pub rep : Rep Amount
rep = record { id = 7; earns_commission = true; commission_pct = money 1_000; department = none }

abbrev pub catalogue : Catalogue Amount
catalogue = record {
  events = event ∷ [];
  packages = package_a ∷ [];
  addons = [];
  tax_profiles = [];
  reps = rep ∷ [];
}

abbrev pub dto : SaleDto Amount
dto = record {
  brand = "Loom";
  details = details;
  event_id = 4;
  package_id = 3;
  addon_ids = none;
  discount_type = none;
  discount_value = some (money 3_000);
  tax_code = none;
  addon_tax_code = none;
  package_name_override = none;
  package_looks_override = none;
  package_blurb_override = none;
  package_price_override = none;
  deposit = some (money 10_000);
  payment_method = none;
}

abbrev pub input : PricingInput Amount
input = record {
  package_price = money 100_000;
  addons = [];
  discount_type = DiscountType.pct;
  discount_value = money 3_000;
  tax_rate = money 500;
  addon_tax_rate = none;
  commission_pct = money 1_000;
  deposit = some (money 10_000);
  payments = none;
}
