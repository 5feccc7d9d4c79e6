-- ===== src/Payroll.antt =====
-- backend/src/payroll/payroll.service.ts: what people earned in a period, and the statements that they
-- submit for it. Dates are days counted from the epoch, already parsed; the calendar month in progress
-- is what JavaScript's Date says, as a pair of days.
pub mod Tiers
pub mod Earnings
pub mod Statement
pub mod Agreement
pub mod Invoices
pub mod Reimbursements
pub mod TierAdmin
use vfw.Prelude.{
  ℕ, ◌+◌, ◌*◌, ◌/◌, Bool, true, false, not, ◌&&◌, Option, none, some, List, ltb, leb, ◌==◌,
}
use vfw.Decimal.{Decimals, zero_amount, of_int, lte}
use vfw.Pricing.{Currency, usd, cad, gbp, eur, jpy}
use vfw.Acl.{AuthUser, can, payroll_view_all}
use vfw.Store.{Settings}
use vfw.Attendance.{find_person}
use vfw.Store.Staff.{
  Account, PayType, commission_only, salary, hourly, AttendanceEntry, PayrollInvoiceStatus,
  approved,
}
use vfw.Store.Table.{filter}
use vfw.Store.Call.{
  Call, Result, bad_request, not_found, forbidden, pure, get, guard, or_throw, ◌>>=◌, ◌>>◌,
}

-- `PayrollQueryDto`
pub record PayrollQuery : Type 0 where
  pub from : Option ℕ
  pub to : Option ℕ
  pub user_id : Option ℕ

-- An instant is a number of milliseconds, a day the number of whole days in it.
unfoldable pub day_start : ℕ → ℕ
day_start day = day * 86_400_000

-- `dayKey(new Date())`
unfoldable pub day_of : ℕ → ℕ
day_of now = now / 86_400_000

-- `gte` and `lt` of `periodRange`: an instant is in the days from the first to the last.
pub record Range : Type 0 where
  pub gte : ℕ
  pub lt : ℕ

unfoldable pub in_range : Range → ℕ → Bool
in_range range t = leb range.gte t && ltb t range.lt

-- A column that may be missing is then in no range.
abbrev pub in_range? : Range → Option ℕ → Bool
in_range? range none = false
in_range? range (some t) = in_range range t

abbrev pub hour_worker : PayType → Bool
hour_worker hourly = true
hour_worker _ = false

abbrev pub is_approved : PayrollInvoiceStatus → Bool
is_approved approved = true
is_approved _ = false

module _ {D : Type 0} where
  -- `periodRange`
  unfoldable pub period_range : ℕ → ℕ → Call D Range
  unfolding day_start
  period_range from to = do
    guard (leb from to) bad_request
    pure (record { gte = day_start from; lt = day_start (to + 1) })

  -- `resolvePeriod`, with the month that `defaultPeriod` finds.
  unfoldable pub resolve_period : ℕ × ℕ → PayrollQuery → Call D (ℕ × ℕ)
  resolve_period month query = elim query.from [
    | some from ↦ elim query.to [
      | some to ↦ pure (from, to)
      | none ↦ λ db. (Result.err bad_request, db)
    ]
    | none ↦ elim query.to [ some _ ↦ λ db. (Result.err bad_request, db) | none ↦ pure month ]
  ]

  abbrev pub account_id : Account D → ℕ
  account_id a = a.id

  -- `subject`
  unfoldable pub subject : Option ℕ → AuthUser → Call D ℕ
  unfolding find_person can
  subject none actor = pure actor.id
  subject (some id) actor = elim (id == actor.id) [
    | true ↦ pure actor.id
    | false ↦
        guard (can payroll_view_all actor) forbidden
        >> (get >>= λ db.
            or_throw not_found (find_person id db.staff.accounts) >>= λ person. pure person.id)
  ]

module _ ⦃d : Decimals⦄ where
  open d use {Decimal, is_negative, plus, times, divided_by, to_places}

  -- `decimal`
  unfoldable pub decimal : Option Decimal → Call Decimal Decimal
  decimal raw = do
    value ← or_throw bad_request raw
    guard (not (is_negative value)) bad_request
    pure value

  abbrev pub one : Decimal
  one = of_int 1

  abbrev pub has_rate : Settings Decimal → Currency → Bool
  has_rate settings currency = elim (settings.fx_rate currency) [
    | none ↦ false
    | some rate ↦ not (lte rate zero_amount)
  ]

  abbrev pub rate_of : Settings Decimal → Currency → Decimal
  rate_of settings currency = elim (settings.fx_rate currency) [ none ↦ one | some rate ↦ rate ]

  abbrev pub rate_in : Settings Decimal → Currency → Decimal
  rate_in settings cad = one
  rate_in settings usd = rate_of settings usd
  rate_in settings gbp = rate_of settings gbp
  rate_in settings eur = rate_of settings eur
  rate_in settings jpy = rate_of settings jpy

  -- `fxRates`
  unfoldable pub fx_rates : Call Decimal (Currency → Decimal)
  fx_rates = do
    db ← get
    guard (has_rate db.settings usd) bad_request
    guard (has_rate db.settings gbp) bad_request
    guard (has_rate db.settings eur) bad_request
    guard (has_rate db.settings jpy) bad_request
    pure (rate_in db.settings)

  -- `basePay`
  unfoldable pub base_pay : PayType → Decimal → Decimal → Decimal
  base_pay salary base_rate hours = base_rate
  base_pay hourly base_rate hours = times base_rate hours
  base_pay commission_only base_rate hours = zero_amount

  -- `attendanceByUser`, for one of them: the days of the period.
  unfoldable pub attendance_of :
      ℕ → Range → List (AttendanceEntry Decimal) → List (AttendanceEntry Decimal)
  unfolding filter in_range day_start
  attendance_of user range = filter (λ e. e.user_id == user && in_range range (day_start e.date))
