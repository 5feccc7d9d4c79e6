-- ===== src/Submissions/Ledger/Derived.antt =====
-- The stored payment figures and the ledger (backend/src/submissions/submissions.service.ts).
use mathlib.Core.Path.{subst}
use vfw.Prelude.{
  ℕ, ◌≡◌, ◌≢◌, ◌↔◌, ◌∙◌, ap, sym, refl, some, List, [], ◌∷◌, ◌++◌, map, arith, ◌==◌, Bool-cases,
  inl, inr, if◌then◌else◌,
}
use vfw.Prelude.Int.{pos, ◌-ℤ◌, ◌≤ℤ◌}
use vfw.Decimal.{Decimals, r2, plus_all}
use vfw.Decimal.Laws.{IsExact, Fits}
use vfw.Decimal.Cents.{cents-r2}
use vfw.Pricing.{paid, unpaid, compute}
use vfw.Pricing.Totals.{compute_balance}
use vfw.Pricing.Status.{pay_status_by_balance}
use vfw.Acl.{AuthUser}
use vfw.Store.{Submission, Payment, Figures, rejected, Db, Env}
use vfw.Store.Table.{find, filter, modify, find-modify, find_key}
use vfw.Store.Call.{ok}
use vfw.Submissions.{sale_id}
use vfw.Submissions.Ledger.{
  PaymentDto, stored_input, payments_of, price_existing, with_priced, hand_payment, add_payment,
}

module _ ⦃d : Decimals⦄ where
  open d use {Decimal, plus}

  -- What was received for a sale: a start, and every payment of the ledger that is for it.
  abbrev pub received : ℕ → Decimal → List (Payment Decimal) → Decimal
  received id start [] = start
  received id start (p ∷ ps) =
      received id (if p.submission_id == id then plus start p.amount else start) ps

  -- What the priced columns of a sale add up to; payments do not enter into it.
  abbrev pub priced_total : Figures Decimal → Decimal
  priced_total f = (compute (stored_input f [])).total

  received_all :
      (id : ℕ) (start : Decimal) (ps : List (Payment Decimal))
      → plus_all start (map (λ p. p.amount) (payments_of id ps)) ≡ received id start ps
  unfolding payments_of filter
  received_all id start [] = refl
  received_all id start (p ∷ ps) = elim (Bool-cases (p.submission_id == id)) [
    | inl own ↦ rw own (received_all id (plus start p.amount) ps)
    | inr other ↦ rw other (received_all id start ps)
  ]

  compute-paid :
      (id : ℕ) (f : Figures Decimal) (ps : List (Payment Decimal))
      → (compute (stored_input f (payments_of id ps))).paid_amount ≡ r2 (received id f.deposit ps)
  unfolding compute
  compute-paid id f ps = ap r2 (received_all id f.deposit ps)

  compute-total :
      (f : Figures Decimal) (ps : List (Payment Decimal))
      → (compute (stored_input f ps)).total ≡ priced_total f
  unfolding compute
  compute-total f ps = refl

  -- The payment figures of a sale, in cents, say what was received and what is left of the total.
  abbrev pub IsInStep : IsExact → List (Payment Decimal) → Submission Decimal → Type 0
  IsInStep laws ledger s =
      let f = s.figures in
      let got = laws.cents (received s.id f.deposit ledger) in
      let due = laws.cents (priced_total f) in
      (laws.cents f.paid_amount ≡ got)
      × (laws.cents f.balance ≡ due -ℤ got)
      × ((f.pay_status ≡ paid) ↔ ((pos 1 ≤ℤ due) × (due -ℤ got ≤ℤ pos 0)))
      × ((f.pay_status ≡ unpaid) ↔ (got ≤ℤ pos 0))

  with_priced-IsInStep :
      (laws : IsExact) (ledger : List (Payment Decimal)) (s : Submission Decimal)
      → Fits (
          laws.cents (priced_total s.figures)
          -ℤ laws.cents (received s.id s.figures.deposit ledger))
      → IsInStep laws ledger (with_priced (price_existing s.figures (payments_of s.id ledger)) s)
  unfolding price_existing
  with_priced-IsInStep laws ledger s fits =
      let input = stored_input s.figures (payments_of s.id ledger) in
      let got = laws.cents (received s.id s.figures.deposit ledger) in
      let paid_e : laws.cents (compute input).paid_amount ≡ got =
        ap laws.cents (compute-paid s.id s.figures ledger) ∙ cents-r2 laws _ in
      let due_e : laws.cents (compute input).total ≡ laws.cents (priced_total s.figures) =
        ap laws.cents (compute-total s.figures (payments_of s.id ledger)) in
      let fits' : Fits
          (laws.cents (compute input).total -ℤ laws.cents (compute input).paid_amount) =
        rw (paid_e, due_e) fits in
      let left : laws.cents (compute input).balance ≡ laws.cents (priced_total s.figures) -ℤ got =
        rw (sym paid_e, sym due_e) (compute_balance laws input fits') in
      let reads = rw (left, paid_e, due_e) at (pay_status_by_balance laws input fits') in
      (cents-r2 laws _ ∙ paid_e, cents-r2 laws _ ∙ left, reads.0, reads.1)

  module _ (env : Env) (id : ℕ) (dto : PaymentDto Decimal) (user : AuthUser) (db : Db Decimal) where
    add_payment-ledger :
        (s : Submission Decimal)
        → find sale_id id db.submissions ≡ some s
        → let (r, db') = add_payment env id dto user db in
          let row = hand_payment env id dto user s in
          let ledger = db.payments ++ (row ∷ []) in
          let f = with_priced (price_existing s.figures (payments_of id ledger)) in
          s.status ≢ rejected
          → (r ≡ ok (f s))
            × (db'.payments ≡ ledger)
            × (db'.submissions ≡ modify sale_id id f db.submissions)
    unfolding add_payment
    add_payment-ledger s found live = ground arith

    -- A payment on a sale that is not rejected is added to the ledger and answered with the sale as it
    -- then stands in the table. Its paid amount is, to the cent, the deposit and all payments of the
    -- ledger for this sale, the new one among them; its balance is what is left of the total that its
    -- priced columns add up to; and it reads paid exactly when that total is positive and nothing is
    -- left of it, unpaid exactly when nothing, or less, was received. What is left has to stay within
    -- the 20 digits of a decimal.
    pub add_payment-IsInStep :
        (laws : IsExact) (s : Submission Decimal)
        → find sale_id id db.submissions ≡ some s
        → s.status ≢ rejected
        → let ledger = db.payments ++ (hand_payment env id dto user s ∷ []) in
          Fits (
            laws.cents (priced_total s.figures)
            -ℤ laws.cents (received s.id s.figures.deposit ledger))
          → let (r, db') = add_payment env id dto user db in
            (t : Submission Decimal) × (r ≡ ok t)
            × (find sale_id id db'.submissions ≡ some t)
            × (db'.payments ≡ ledger)
            × IsInStep laws db'.payments t
    add_payment-IsInStep laws s found live fits =
        let (answer, ledger, rows) = add_payment-ledger s found live in
        let after = db.payments ++ (hand_payment env id dto user s ∷ []) in
        let f = λ (n : ℕ). with_priced (price_existing s.figures (payments_of n after)) in
        let is_id : s.id ≡ id = find_key sale_id id db.submissions s found in
        let step =
          subst (λ n. IsInStep laws after (f n s)) is_id (with_priced-IsInStep laws after s fits) in
        (
          f id s,
          answer,
          rw (rows, find-modify sale_id id id (f id) db.submissions (λ _. refl))
              (ground (arith, found)),
          ledger,
          subst (λ ps. IsInStep laws ps (f id s)) (sym ledger) step,
        )
