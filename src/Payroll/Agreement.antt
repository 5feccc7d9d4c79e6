-- ===== src/Payroll/Agreement.antt =====
-- The two screens that show what somebody sold (backend/src/payroll/payroll.service.ts): the statement,
-- which reads everyone's sales, and `salesFor`, which reads only theirs.
use vfw.Prelude.{ℕ, ◌+◌, ◌≡◌, Option, some, arith}
use vfw.Decimal.{Decimals}
use vfw.Acl.{AuthUser}
use vfw.Store.{Db}
use vfw.Store.Staff.{PayrollInvoice, Account}
use vfw.Store.Table.{find, find_key}
use vfw.Store.Call.{ok}
use vfw.Payroll.{
  PayrollQuery, Range, day_start, rate_in, subject, resolve_period, account_id, fx_rates,
  period_range,
}
use vfw.Payroll.Earnings.{RepSales}
use vfw.Payroll.Earnings.Narrowing.{narrowed}
use vfw.Payroll.Statement.{
  Statement, statement, statement_in, pay_of, statement_for, period_sales, sales_for,
}

module _ ⦃d : Decimals⦄ where
  open d use {Decimal, to_places}

  module _ (month : ℕ × ℕ) (query : PayrollQuery) (actor : AuthUser) (db : Db Decimal) where
    -- The statement of a person for a period and the panel of their sales for it give the same number of
    -- sales, and the same revenue, invoiced total and unpaid commission to two places. Both requests
    -- are answered; the person and the period are those that the request is resolved to.
    pub statement_for-sales_for :
        (user from to : ℕ) (person : Account Decimal)
        → subject query.user_id actor db ≡ (ok user, db)
        → resolve_period month query db ≡ (ok (from, to), db)
        → find account_id user db.staff.accounts ≡ some person
        → (st : Statement) (invoice : Option (PayrollInvoice Decimal)) (r : RepSales Decimal)
        → (statement_for month query actor db).0 ≡ ok (st, invoice)
        → (sales_for month query actor db).0 ≡ ok r
        → (st.sales_count ≡ r.count)
          × (st.revenue ≡ to_places 2 r.revenue)
          × (st.invoiced ≡ to_places 2 r.invoiced)
          × (st.pay.commission_unpaid ≡ to_places 2 r.commission_unpaid)
    unfolding statement_for sales_for period_sales fx_rates period_range statement_in statement
        pay_of
    statement_for-sales_for user from to person whose when found st invoice r one other =
        let range : Range = record { gte = day_start from; lt = day_start (to + 1) } in
        let same = narrowed range (rate_in db.settings) user db.submissions in
        let is_user = find_key account_id user db.staff.accounts person found in
        ground (arith, same, is_user)
