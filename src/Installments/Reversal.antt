-- ===== src/Installments/Reversal.antt =====
-- A mark that is taken back (backend/src/submissions/installments/installments.service.ts).
use vfw.Prelude.{ℕ, ◌≡◌, refl, none, some, [], ◌∷◌, ◌++◌, arith, ap, sym, ◌∙◌}
use vfw.Prelude.Int.{pos, ◌-ℤ◌}
use vfw.Decimal.{Decimals, r2}
use vfw.Decimal.Laws.{IsExact}
use vfw.Decimal.Cents.{IsWhole, cents-r2}
use vfw.Acl.{AuthUser}
use vfw.Store.{Submission, Installment, due, Db, Env}
use vfw.Store.Table.{find, find-modify}
use vfw.Submissions.{sale_id}
use vfw.Submissions.Ledger.{payments_of, price_existing, with_priced}
use vfw.Installments.{MarkDto, installment_id, mark_payment, reversal, mark_commit, unmark_commit}
use vfw.Installments.Marking.{
  marked, linked, unmarked, marked_row, mark_commit-installments, unmark_commit-effect,
}

module _ ⦃d : Decimals⦄ (laws : IsExact) where
  open d use {Decimal, negated}
  open laws use {cents, negated_cents, cents-of_cents}

  reversal_cents : (x : Decimal) → IsWhole laws x → cents (r2 (negated x)) ≡ pos 0 -ℤ cents (r2 x)
  reversal_cents x whole =
      cents-r2 laws (negated x)
      ∙ (ap (λ y. cents (negated y)) whole
          ∙ (ap cents (negated_cents (cents x))
              ∙ (cents-of_cents (pos 0 -ℤ cents x) ∙ ap (λ c. pos 0 -ℤ c) (sym (cents-r2 laws x)))))

  module _ (id : ℕ) (db : Db Decimal) (s : Submission Decimal) (i : Installment Decimal) where
    -- Marking a due instalment that was never paid and taking that back leaves the instalment as it was,
    -- and on the ledger the payment of the mark and one more, of the opposite amount in hundredths. The
    -- amount has two places.
    pub unmark-mark :
        (env env' : Env) (dto : MarkDto) (user user' : AuthUser)
        → find sale_id id db.submissions ≡ some s
        → find installment_id i.id db.installments ≡ some i
        → i.status ≡ due
        → i.paid_at ≡ none
        → i.paid_by ≡ none
        → i.payment_id ≡ none
        → IsWhole laws i.amount
        → let posted = mark_payment env id dto user s i in
          let t =
            with_priced
              (price_existing s.figures (payments_of id (db.payments ++ (posted ∷ []))))
              s in
          let paid = linked env user (marked env user i) in
          let back = reversal env' id user' t paid in
          let db'' =
            (unmark_commit env' id user' t paid (mark_commit env id dto user s i db).1).1 in
          (find installment_id i.id db''.installments ≡ some i)
          × (db''.payments ≡ (db.payments ++ (posted ∷ [])) ++ (back ∷ []))
          × (cents back.amount ≡ pos 0 -ℤ cents posted.amount)
    unmark-mark env env' dto user user' found at_i still a b c whole =
        let later = (mark_commit env id dto user s i db).1 in
        let posted = mark_payment env id dto user s i in
        let f =
          with_priced (price_existing s.figures (payments_of id (db.payments ++ (posted ∷ [])))) in
        let paid = linked env user (marked env user i) in
        let (_, ledger, sales) = mark_commit-installments env id dto user db s i found at_i still in
        let hit : find sale_id id later.submissions ≡ some (f s) =
          rw (sales, find-modify sale_id id id f db.submissions (λ _. refl))
            (ground (arith, found)) in
        let hit_i = marked_row env id dto user db s i found at_i still in
        let (rows, ledger') =
          unmark_commit-effect env' id dto user' later (f s) paid env.new_id hit hit_i refl refl in
        (
          rw
              (
                rows,
                find-modify installment_id i.id i.id unmarked later.installments (λ _. refl),
                hit_i,
              )
              (ground (arith, a, b, c, still)),
          rw (ledger', ledger) refl,
          reversal_cents i.amount whole,
        )
