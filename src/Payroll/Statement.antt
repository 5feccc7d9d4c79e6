-- ===== src/Payroll/Statement.antt =====
-- backend/src/payroll/payroll.service.ts: `statement`, `statementFor`, `run`, `lifetimeEarned`,
-- `periodSales`, `salesFor`. Names, avatars and the wording of the profile are left out.
use vfw.Prelude.{ℕ, Bool, not, ◌&&◌, Option, none, some, List, map, length, ◌==◌, if◌then◌else◌}
use vfw.Decimal.{Decimals, zero_amount, plus_all}
use vfw.Acl.{AuthUser, can, payroll_view_all}
use vfw.Store.{Db}
use vfw.Store.Access.{is_active}
use vfw.Store.Staff.{Account, PayType, CommissionTier, PayrollInvoice, Reimbursement}
use vfw.Store.Table.{find, filter, find_where}
use vfw.Store.Call.{Call, forbidden, not_found, pure, get, guard, or_throw, ◌>>=◌, ◌>>◌}
use vfw.Attendance.{find_person, Summary, summarise}
use vfw.Payroll.{
  PayrollQuery, Range, period_range, resolve_period, subject, account_id, fx_rates, base_pay,
  attendance_of, hour_worker, is_approved,
}
use vfw.Payroll.Tiers.{BreakdownEntry, compute_tier_bonus, tier_table}
use vfw.Payroll.Earnings.{RepSales, sales_by_rep, sales_of, no_sales}

pub record Pay (D : Type 0) : Type 0 where
  pub pay_type : PayType
  pub base_rate : D
  pub base_hours : Option D
  pub base : D
  pub earns_commission : Bool
  pub commission : D
  pub commission_unpaid : D
  pub tier_bonus : D
  pub tier_bonus_breakdown : List (BreakdownEntry D)
  pub reimbursement : D
  pub gross : D

-- `map.get(id) ?? fresh`
abbrev pub or_fresh : {A : Type 0} → A → Option A → A
or_fresh fresh none = fresh
or_fresh fresh (some x) = x

module _ {D : Type 0} where
  -- `userId_periodStart_periodEnd`
  abbrev pub is_period : ℕ → ℕ → ℕ → PayrollInvoice D → Bool
  is_period user from to i = i.user_id == user && i.period_start == from && i.period_end == to

  abbrev pub is_repaid : ℕ → ℕ → ℕ → Reimbursement D → Bool
  is_repaid user from to r = r.user_id == user && r.period_start == from && r.period_end == to

  -- The accounts that `run` reads.
  abbrev pub is_on_payroll : Account D → Bool
  is_on_payroll a = not a.deleted && not a.hidden && is_active a.status

module _ ⦃d : Decimals⦄ where
  open d use {Decimal, plus, to_places}

  pub record Statement : Type 0 where
    pub user_id : ℕ
    pub commission_pct : Decimal
    pub lifetime_earned : Decimal
    pub attendance : Summary
    pub sales_count : ℕ
    pub revenue : Decimal
    pub invoiced : Decimal
    pub pay : Pay Decimal

  -- `lifetimeEarnedByUser`, for one of them.
  unfoldable pub lifetime_earned : ℕ → List (PayrollInvoice Decimal) → Decimal
  unfolding filter
  lifetime_earned user rows =
      plus_all zero_amount
        (map (λ i. i.pay.gross) (filter (λ i. i.user_id == user && is_approved i.status) rows))

  -- `reimbursementsByUser`, for one of them.
  unfoldable pub repaid : ℕ → ℕ → ℕ → List (Reimbursement Decimal) → Decimal
  unfolding find_where
  repaid user from to rows = elim (find_where (is_repaid user from to) rows) [
    | none ↦ zero_amount
    | some r ↦ r.amount
  ]

  -- The `pay` of `statement`.
  unfoldable pub pay_of :
      Account Decimal
      → RepSales Decimal
      → Summary
      → List (CommissionTier Decimal)
      → Decimal
      → Pay Decimal
  unfolding base_pay compute_tier_bonus
  pay_of person sales summary tiers reimbursement =
      let base = to_places 2 (base_pay person.pay_type person.base_rate summary.hours) in
      let commission = to_places 2 sales.commission in
      let bonus = compute_tier_bonus sales.revenue tiers in
      let reimbursed = to_places 2 reimbursement in
      record {
        pay_type = person.pay_type;
        base_rate = to_places 2 person.base_rate;
        base_hours = if hour_worker person.pay_type then some summary.hours else none;
        base = to_places 2 base;
        earns_commission = person.earns_commission;
        commission = to_places 2 commission;
        commission_unpaid = to_places 2 sales.commission_unpaid;
        tier_bonus = to_places 2 bonus.0;
        tier_bonus_breakdown = bonus.1;
        reimbursement = to_places 2 reimbursed;
        gross = to_places 2 (plus (plus (plus base commission) bonus.0) reimbursed);
      }

  -- `statement`
  unfoldable pub statement :
      Account Decimal
      → RepSales Decimal
      → Summary
      → Decimal
      → List (CommissionTier Decimal)
      → Decimal
      → Statement
  unfolding pay_of
  statement person sales summary lifetime tiers reimbursement = record {
    user_id = person.id;
    commission_pct = to_places 2 person.commission_pct;
    lifetime_earned = to_places 2 lifetime;
    attendance = summary;
    sales_count = sales.count;
    revenue = to_places 2 sales.revenue;
    invoiced = to_places 2 sales.invoiced;
    pay = pay_of person sales summary tiers reimbursement;
  }

  -- The statement of one person for a period, off the rows as they stand.
  unfoldable pub statement_in :
      ℕ → ℕ → Range → List (RepSales Decimal) → Db Decimal → Account Decimal → Statement
  unfolding statement sales_of summarise attendance_of lifetime_earned tier_table repaid
  statement_in from to range sales db person =
      statement person (or_fresh (no_sales person.id) (sales_of person.id sales))
        (summarise (attendance_of person.id range db.staff.attendance))
        (lifetime_earned person.id db.staff.payroll_invoices) (tier_table db.staff.tiers)
        (repaid person.id from to db.staff.reimbursements)

  -- `statementFor`
  unfoldable pub statement_for :
      ℕ × ℕ → PayrollQuery → AuthUser → Call Decimal (Statement × Option (PayrollInvoice Decimal))
  unfolding subject resolve_period period_range find fx_rates sales_by_rep statement_in find_where
  statement_for month query actor = do
    user ← subject query.user_id actor
    period ← resolve_period month query
    range ← period_range period.0 period.1
    db ← get
    person ← or_throw not_found (find account_id user db.staff.accounts)
    fx ← fx_rates
    let sales = sales_by_rep range fx none db.submissions
    pure (
      statement_in period.0 period.1 range sales db person,
      find_where (is_period user period.0 period.1) db.staff.payroll_invoices,
    )

  pub record Totals : Type 0 where
    pub people : ℕ
    pub base : Decimal
    pub commission : Decimal
    pub commission_unpaid : Decimal
    pub tier_bonus : Decimal
    pub reimbursement : Decimal
    pub gross : Decimal
    pub hours : Decimal

  -- `total`
  abbrev pub total : (Statement → Decimal) → List Statement → Decimal
  total pick rows = to_places 2 (plus_all zero_amount (map pick rows))

  -- `run`
  unfoldable pub run : ℕ × ℕ → PayrollQuery → AuthUser → Call Decimal (List Statement × Totals)
  unfolding can resolve_period period_range fx_rates sales_by_rep statement_in filter
  run month query actor = do
    guard (can payroll_view_all actor) forbidden
    period ← resolve_period month query
    range ← period_range period.0 period.1
    db ← get
    let people = filter is_on_payroll db.staff.accounts
    fx ← fx_rates
    let sales = sales_by_rep range fx none db.submissions
    let rows = map (statement_in period.0 period.1 range sales db) people
    pure (
      rows,
      record {
        people = length rows;
        base = total (λ r. r.pay.base) rows;
        commission = total (λ r. r.pay.commission) rows;
        commission_unpaid = total (λ r. r.pay.commission_unpaid) rows;
        tier_bonus = total (λ r. r.pay.tier_bonus) rows;
        reimbursement = total (λ r. r.pay.reimbursement) rows;
        gross = total (λ r. r.pay.gross) rows;
        hours = total (λ r. r.attendance.hours) rows;
      },
    )

  -- `periodSales`, before its clients are sorted and its figures are written with two places.
  unfoldable pub period_sales : ℕ → ℕ → ℕ → Call Decimal (RepSales Decimal)
  unfolding find_person fx_rates period_range sales_by_rep sales_of
  period_sales user from to = do
    db ← get
    person ← or_throw not_found (find_person user db.staff.accounts)
    fx ← fx_rates
    range ← period_range from to
    pure (
        or_fresh (no_sales user) (sales_of user (sales_by_rep range fx (some user) db.submissions)))

  -- `salesFor`
  unfoldable pub sales_for : ℕ × ℕ → PayrollQuery → AuthUser → Call Decimal (RepSales Decimal)
  unfolding subject resolve_period period_sales
  sales_for month query actor = do
    user ← subject query.user_id actor
    period ← resolve_period month query
    period_sales user period.0 period.1
