-- ===== src/Examples/Plans.antt =====
-- Payments and instalments of the sale of Examples.antt.
use vfw.Prelude.{◌≡◌, refl, true, none, some, List, [], ◌∷◌, arith}
use vfw.Prelude.Int.{pos, ◌-ℤ◌}
use vfw.Decimal.{plus_all, zero_amount}
use vfw.Decimal.Fixed.{fixed, fixed-IsExact}
use vfw.Pricing.{compute, discount_of, taxes, percent_of}
use vfw.Acl.{default_permissions}
use vfw.Store.{Submission, Installment}
use vfw.Store.Table.{find, filter}
use vfw.Store.Call.{ok, err, conflict}
use vfw.Submissions.{sale_id}
use vfw.Submissions.Ledger.{
  PaymentDto, add_payment, hand_payment, payments_of, price_existing, with_priced,
}
use vfw.Submissions.Ledger.Derived.{IsInStep, add_payment-IsInStep}
use vfw.Installments.{
  MarkDto, LineDto, installment_id, mark_payment, reversal, mark_commit, unmark_commit,
  new_installments, set_plan,
}
use vfw.Installments.Marking.{marked, linked, mark_once}
use vfw.Installments.Reversal.{unmark-mark}
use vfw.Installments.Plan.{amounts, planned, others, set_plan_covers}
use vfw.Examples.{Amount, sale, figures, holding, env, seller, maker, checker, installment, money}

abbrev cash : PaymentDto Amount
cash = record { amount = money 20_000; method = "Cash"; reference = none }

add_payment-IsInStep_example :
    let (r, db') = add_payment env 10 cash maker (holding sale) in
    (t : Submission Amount) × (r ≡ ok t)
    × (find sale_id 10 db'.submissions ≡ some t)
    × (db'.payments ≡ hand_payment env 10 cash maker sale ∷ [])
    × IsInStep fixed-IsExact db'.payments t
unfolding find compute discount_of taxes percent_of ◌-ℤ◌
add_payment-IsInStep_example =
    add_payment-IsInStep env 10 cash maker (holding sale) fixed-IsExact sale refl
      (λ e. ground arith) (omega arith, omega arith)

abbrev by_default : MarkDto
by_default = record { method = none; reference = none }

mark_once_example :
    let db' = (mark_commit env 10 by_default maker sale installment (holding sale)).1 in
    (db'.payments ≡ mark_payment env 10 by_default maker sale installment ∷ [])
    × (mark_commit env 10 by_default checker sale installment db' ≡ (err conflict, db'))
unfolding find
mark_once_example =
    mark_once 10 (holding sale) sale installment env env by_default by_default maker checker refl
      refl refl

unmark-mark_example :
    let posted = mark_payment env 10 by_default maker sale installment in
    let t = with_priced (price_existing figures (payments_of 10 (posted ∷ []))) sale in
    let settled = linked env maker (marked env maker installment) in
    let back = reversal env 10 checker t settled in
    let db'' =
      (unmark_commit env 10 checker t settled
        (mark_commit env 10 by_default maker sale installment (holding sale)).1).1 in
    (find installment_id 60 db''.installments ≡ some installment)
    × (db''.payments ≡ posted ∷ back ∷ [])
    × (fixed-IsExact.cents back.amount ≡ pos 0 -ℤ fixed-IsExact.cents posted.amount)
unfolding find
unmark-mark_example =
    unmark-mark fixed-IsExact 10 (holding sale) sale installment env env by_default maker checker
      refl refl refl refl refl refl refl

-- Two lines of 300.00 for the balance of 600.00.
abbrev half : LineDto Amount
half = record { label = none; due_date = 3_000; amount = money 30_000; method = none }

abbrev new_lines : List (Installment Amount)
new_lines = new_installments env sale 1 0 (half ∷ half ∷ [])

set_plan_covers_example :
    let after = (set_plan env 10 (half ∷ half ∷ []) seller (holding sale)).1.installments in
    (amounts (planned 10 after) ≡ money 30_000 ∷ money 30_000 ∷ [])
    × (fixed.equals (plus_all zero_amount (amounts (planned 10 after))) figures.balance ≡ true)
    × (others 10 after ≡ others 10 (installment ∷ []))
unfolding find filter set_plan new_installments default_permissions
set_plan_covers_example =
    set_plan_covers fixed-IsExact env 10 (half ∷ half ∷ []) seller (holding sale) sale new_lines
      refl refl
