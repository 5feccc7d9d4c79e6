-- ===== src/Examples/Payday.antt =====
-- Payroll and roles, on the sale of Examples.antt, approved on the second day.
use vfw.Prelude.{◌≡◌, refl, true, false, none, some, List, [], ◌∷◌}
use vfw.Prelude.Words.{same_text, decimal}
use vfw.Decimal.Fixed.{fixed}
use vfw.Decimal.FixedOrder.{fixed-IsOrdered}
use vfw.Acl.{role_key, sales}
use vfw.Store.{Text, Db, Submission}
use vfw.Store.Access.{active}
use vfw.Store.Staff.{Account, PayrollInvoice, PayrollInvoiceStatus, CommissionTier, salary}
use vfw.Store.Table.{find, find_where}
use vfw.Attendance.{find_person}
use vfw.Payroll.{
  PayrollQuery, Range, in_range, subject, resolve_period, period_range, day_start, fx_rates,
  rate_in,
}
use vfw.Payroll.Tiers.{compute_tier_bonus}
use vfw.Payroll.Tiers.Progressive.{compute_tier_bonus_mono}
use vfw.Payroll.Earnings.{RepSales, sales_by_rep, sales_of, no_sales}
use vfw.Payroll.Statement.{
  Statement, pay_of, statement, or_fresh, statement_in, statement_for, sales_for, period_sales,
}
use vfw.Payroll.Agreement.{statement_for-sales_for}
use vfw.Payroll.Invoices.{invoice_id, SubmitDto, EditDto}
use vfw.Payroll.Invoices.Frozen.{
  Request, submit, edit, reject, invoices, serve_all, approved-Frozen,
}
use vfw.Roles.Naming.{Casing, free_key, has_key, built_in_keys}
use vfw.Roles.{has_role_key, remove_role}
use vfw.Roles.Keys.{free_key_ends}
use vfw.Roles.Removal.{remove_role-orphans}
use vfw.Examples.{no_access, Amount, money, approved_sale, env, holding, seller, maker, checker}

abbrev field_rep : Text
field_rep = b'R' ∷ b'E' ∷ b'P' ∷ []

abbrev account : Account Amount
account = record {
  id = 7;
  email = b'a' ∷ [];
  role = role_key sales;
  name = b'A' ∷ [];
  phone = none;
  department = none;
  status = active;
  credentials = record {
    password_hash = some "h";
    token_version = 0;
    google_id = none;
    totp_enabled = false;
    totp_secret = none;
  };
  hidden = false;
  deleted = false;
  pay_type = salary;
  base_rate = money 200_000;
  earns_commission = true;
  commission_pct = money 1_000;
  target = money 0;
}

-- 10 percent above 500.00, and 20 percent above 1000.00.
abbrev tiers : List (CommissionTier Amount)
tiers =
    record { id = 1; threshold_revenue = money 50_000; bonus_pct = money 1_000 }
    ∷ record { id = 2; threshold_revenue = money 100_000; bonus_pct = money 2_000 }
    ∷ []

abbrev filed : PayrollInvoice Amount
filed = record {
  id = 80;
  user_id = 7;
  period_start = 0;
  period_end = 30;
  status = PayrollInvoiceStatus.approved;
  pay = record {
    pay_type = salary;
    base_rate = money 200_000;
    hours = money 0;
    base = money 200_000;
    commission_pct = money 1_000;
    earns_commission = true;
    commission = money 7_000;
    tier_bonus = money 2_000;
    reimbursement = money 0;
    gross = money 209_000;
  };
  note = none;
  submitted_at = 900;
  reviewed_at = some 950;
  reviewed_by = some 2;
  is_test_data = false;
}

abbrev earned : Submission Amount
earned = record approved_sale { approved_at = some 90_000_000 }

abbrev office : Db Amount
office = record (holding earned) {
  staff = record {
    accounts = account ∷ [];
    roles = record { key = field_rep; label = field_rep; built_in = false; permissions = [] } ∷ [];
    invitations = [];
    attendance = [];
    payroll_invoices = filed ∷ [];
    reimbursements = [];
    tiers = tiers;
    access = no_access;
  };
}

-- 10 percent of 500.00 and 20 percent of 250.00.
tier_bonus : (compute_tier_bonus (money 125_000) tiers).0 ≡ money 10_000
unfolding compute_tier_bonus
tier_bonus = refl

compute_tier_bonus_mono_example :
    fixed.gt
      (compute_tier_bonus (money 99_000) tiers).0
      (compute_tier_bonus (money 101_000) tiers).0
    ≡ false
compute_tier_bonus_mono_example =
    compute_tier_bonus_mono fixed-IsOrdered tiers (money 99_000) (money 101_000) refl

abbrev again : SubmitDto
again = record { from = 0; to = 30 }

abbrev correction : EditDto Amount
correction = record { base = some (money 1); commission = none; note = "less" }

abbrev requests : List Request
requests =
    submit (0, 30) env again seller ∷ edit 80 correction checker ∷ reject env 80 "no" maker ∷ []

approved-Frozen_example : find invoice_id 80 (invoices (serve_all requests office)) ≡ some filed
unfolding find
approved-Frozen_example = approved-Frozen 80 filed requests office refl refl

abbrev own : PayrollQuery
own = record { from = some 0; to = some 30; user_id = none }

abbrev month_range : Range
month_range = record { gte = 0; lt = 2_678_400_000 }

abbrev earnings : List (RepSales Amount)
earnings = sales_by_rep month_range (rate_in office.settings) none office.submissions

abbrev sheet : Statement
sheet = statement_in 0 30 month_range earnings office account

abbrev panel : RepSales Amount
panel =
    or_fresh (no_sales 7)
      (sales_of 7 (sales_by_rep month_range (rate_in office.settings) (some 7) office.submissions))

statement_for-sales_for_example :
    (sheet.sales_count ≡ panel.count)
    × (sheet.revenue ≡ fixed.to_places 2 panel.revenue)
    × (sheet.invoiced ≡ fixed.to_places 2 panel.invoiced)
    × (sheet.pay.commission_unpaid ≡ fixed.to_places 2 panel.commission_unpaid)
unfolding find statement_for sales_for period_sales subject resolve_period period_range day_start
    fx_rates find_person find_where
statement_for-sales_for_example =
    statement_for-sales_for (0, 30) own seller office 7 0 30 account refl refl refl sheet
      (some filed) panel refl refl

-- The one sale counts, with its commission of 70.00.
commission_earned : sheet.pay.commission ≡ money 7_000
unfolding sales_by_rep statement_in sales_of find in_range pay_of statement
commission_earned = refl

abbrev ascii : Casing
ascii = record { to_upper = λ t. t; to_lower = λ t. t; same_label = same_text }

-- The key "REP" is taken, and the next one is "REP_2".
free_key_ends_example :
    (key : Text) × (free_key ascii field_rep office.staff.roles ≡ some key)
    × (find_where (has_role_key key) office.staff.roles ≡ none)
    × (has_key key built_in_keys ≡ false)
free_key_ends_example = free_key_ends ascii field_rep office.staff.roles

second_key :
    free_key ascii field_rep office.staff.roles ≡ some (b'R' ∷ b'E' ∷ b'P' ∷ b'_' ∷ b'2' ∷ [])
unfolding free_key decimal role_key
second_key = refl

remove_role-orphans_example :
    let staff = (remove_role env field_rep checker office).1.staff in
    (find_where (has_role_key field_rep) staff.roles ≡ none)
    × (find_where (λ a. same_text a.role field_rep) staff.accounts ≡ none)
    × (find_where (λ i. same_text i.role field_rep) staff.invitations ≡ none)
unfolding same_text role_key remove_role
remove_role-orphans_example = remove_role-orphans env field_rep checker office refl refl
