-- ===== src/Payroll/Earnings.antt =====
-- backend/src/payroll/payroll.service.ts: `salesByRep`, what the sales of a period come to in Canadian
-- dollars. A JavaScript Map is the list of its values, each with its key, in the order of insertion.
pub mod Narrowing
use vfw.Prelude.{
  ℕ, ◌+◌, Bool, true, false, ◌&&◌, Option, none, some, List, [], ◌∷◌, ◌==◌, if◌then◌else◌,
}
use vfw.Decimal.{Decimals, zero_amount}
use vfw.Pricing.{Currency, PayStatus, paid}
use vfw.Store.{Submission, SubmissionStatus, approved, exported}
use vfw.Store.Table.{find, filter}
use vfw.Payroll.{Range, in_range?}

pub record ClientSales (D : Type 0) : Type 0 where
  pub contact_id : ℕ
  pub deals : ℕ
  pub revenue : D
  pub invoiced : D
  pub collected : D
  pub outstanding : D

pub record RepSales (D : Type 0) : Type 0 where
  pub rep_id : ℕ
  pub count : ℕ
  pub revenue : D
  pub invoiced : D
  pub collected : D
  pub outstanding : D
  pub commission : D
  pub commission_unpaid : D
  pub clients : List (ClientSales D)

-- `map.set(k, f(map.get(k) ?? fresh))`, for values that hold their key.
unfoldable pub update_at : {A : Type 0} → (A → ℕ) → ℕ → A → (A → A) → List A → List A
update_at key k fresh f [] = f fresh ∷ []
update_at key k fresh f (x ∷ xs) = if key x == k then f x ∷ xs else x ∷ update_at key k fresh f xs

-- `status: { in: ['APPROVED', 'EXPORTED'] }`
abbrev pub is_earned : SubmissionStatus → Bool
is_earned approved = true
is_earned exported = true
is_earned _ = false

abbrev pub is_paid : PayStatus → Bool
is_paid paid = true
is_paid _ = false

module _ {D : Type 0} where
  abbrev pub rep_key : RepSales D → ℕ
  rep_key r = r.rep_id

  abbrev pub client_key : ClientSales D → ℕ
  client_key c = c.contact_id

  -- `where: { status, approvedAt: range }`
  abbrev pub counts_in : Range → Submission D → Bool
  counts_in range s = is_earned s.status && in_range? range s.approved_at

module _ ⦃d : Decimals⦄ where
  open d use {Decimal, plus, times, max}

  abbrev pub no_client : ℕ → ClientSales Decimal
  no_client id = record {
    contact_id = id;
    deals = 0;
    revenue = zero_amount;
    invoiced = zero_amount;
    collected = zero_amount;
    outstanding = zero_amount;
  }

  -- `zero()`
  abbrev pub no_sales : ℕ → RepSales Decimal
  no_sales id = record {
    rep_id = id;
    count = 0;
    revenue = zero_amount;
    invoiced = zero_amount;
    collected = zero_amount;
    outstanding = zero_amount;
    commission = zero_amount;
    commission_unpaid = zero_amount;
    clients = [];
  }

  abbrev pub add_client :
      (Currency → Decimal) → Submission Decimal → ClientSales Decimal → ClientSales Decimal
  add_client fx s c =
      let rate = fx s.figures.currency in
      record c {
        deals = c.deals + 1;
        revenue = plus c.revenue (times s.figures.taxable rate);
        invoiced = plus c.invoiced (times s.figures.total rate);
        collected = plus c.collected (times s.figures.paid_amount rate);
        outstanding = plus c.outstanding (max (times s.figures.balance rate) zero_amount);
      }

  -- The body of the loop of `salesByRep`, on the figures of the seller.
  unfoldable pub add_sale :
      (Currency → Decimal) → Submission Decimal → RepSales Decimal → RepSales Decimal
  unfolding update_at
  add_sale fx s acc =
      let rate = fx s.figures.currency in
      let commission = times s.figures.commission_amount rate in
      record acc {
        count = acc.count + 1;
        revenue = plus acc.revenue (times s.figures.taxable rate);
        invoiced = plus acc.invoiced (times s.figures.total rate);
        collected = plus acc.collected (times s.figures.paid_amount rate);
        outstanding = plus acc.outstanding (max (times s.figures.balance rate) zero_amount);
        commission = plus acc.commission commission;
        commission_unpaid =
            if is_paid s.figures.pay_status
            then acc.commission_unpaid
            else plus acc.commission_unpaid commission;
        clients =
            update_at client_key s.contact_id (no_client s.contact_id) (add_client fx s)
              acc.clients;
      }

  unfoldable pub add_sales :
      (Currency → Decimal)
      → List (Submission Decimal)
      → List (RepSales Decimal)
      → List (RepSales Decimal)
  unfolding update_at add_sale
  add_sales fx [] acc = acc
  add_sales fx (s ∷ rest) acc =
      add_sales fx rest (update_at rep_key s.rep_id (no_sales s.rep_id) (add_sale fx s) acc)

  -- `where: { ...(repId ? { repId } : {}) }`
  abbrev pub by_rep : Option ℕ → Submission Decimal → Bool
  by_rep none s = true
  by_rep (some id) s = s.rep_id == id

  -- `salesByRep`
  unfoldable pub sales_by_rep :
      Range → (Currency → Decimal) → Option ℕ → List (Submission Decimal) → List (RepSales Decimal)
  unfolding add_sales filter
  sales_by_rep range fx rep_id sales =
      add_sales fx (filter (λ s. counts_in range s && by_rep rep_id s) sales) []

  unfoldable pub sales_of : ℕ → List (RepSales Decimal) → Option (RepSales Decimal)
  unfolding find
  sales_of id rows = find rep_key id rows
