-- ===== src/Installments/Marking.antt =====
-- Two people who mark the same instalment
-- (backend/src/submissions/installments/installments.service.ts).
use vfw.Prelude.{ℕ, ◌≡◌, refl, none, some, [], ◌∷◌, ◌++◌, arith}
use vfw.Decimal.{Decimals}
use vfw.Acl.{AuthUser}
use vfw.Store.{Submission, Installment, due, settled, Db, Env}
use vfw.Store.Table.{find, modify, find-modify}
use vfw.Store.Call.{err, conflict}
use vfw.Submissions.{sale_id}
use vfw.Installments.{MarkDto, installment_id, mark_payment, reversal, mark_commit, unmark_commit}
use vfw.Submissions.Ledger.{payments_of, price_existing, with_priced}

module _ ⦃d : Decimals⦄ where
  open d use {Decimal}

  module _ (env : Env) (user : AuthUser) where
    abbrev pub marked : Installment Decimal → Installment Decimal
    marked x = record x { status = settled; paid_at = some env.now; paid_by = some user.id }

    abbrev pub linked : Installment Decimal → Installment Decimal
    linked x = record x { payment_id = some env.new_id }

  -- What `unmark` writes.
  abbrev pub unmarked : Installment Decimal → Installment Decimal
  unmarked x = record x { status = due; paid_at = none; paid_by = none; payment_id = none }

  module _ (env : Env) (id : ℕ) (dto : MarkDto) (user : AuthUser) (db : Db Decimal)
      (s : Submission Decimal) (i : Installment Decimal) where
    pub mark_commit-installments :
        find sale_id id db.submissions ≡ some s
        → find installment_id i.id db.installments ≡ some i
        → i.status ≡ due
        → let db' = (mark_commit env id dto user s i db).1 in
          (db'.installments
            ≡ modify installment_id i.id
                (linked env user)
                (modify installment_id i.id (marked env user) db.installments))
          × (db'.payments ≡ db.payments ++ (mark_payment env id dto user s i ∷ []))
          × (db'.submissions
              ≡ modify sale_id id
                  (with_priced (
                    price_existing s.figures
                      (payments_of id (db.payments ++ (mark_payment env id dto user s i ∷ [])))))
                  db.submissions)
    unfolding mark_commit
    mark_commit-installments found at_i still = ground arith

    pub marked_row :
        find sale_id id db.submissions ≡ some s
        → find installment_id i.id db.installments ≡ some i
        → i.status ≡ due
        → find installment_id i.id (mark_commit env id dto user s i db).1.installments
          ≡ some (linked env user (marked env user i))
    marked_row found at_i still =
        rw
          (
            (mark_commit-installments found at_i still).0,
            find-modify installment_id i.id i.id (linked env user)
                (modify installment_id i.id (marked env user) db.installments) (λ _. refl),
            find-modify installment_id i.id i.id (marked env user) db.installments (λ _. refl),
            at_i,
          )
          (ground arith)

  module _ (env : Env) (id : ℕ) (dto : MarkDto) (user : AuthUser) (db : Db Decimal)
      (s : Submission Decimal) (i : Installment Decimal) where
    mark_commit_taken :
        (x : Installment Decimal)
        → find installment_id i.id db.installments ≡ some x
        → x.status ≡ settled
        → mark_commit env id dto user s i db ≡ (err conflict, db)
    unfolding mark_commit
    mark_commit_taken x at_x gone = ground arith

    pub unmark_commit-effect :
        (payment : ℕ)
        → find sale_id id db.submissions ≡ some s
        → find installment_id i.id db.installments ≡ some i
        → i.status ≡ settled
        → i.payment_id ≡ some payment
        → let (r, db') = unmark_commit env id user s i db in
          (db'.installments ≡ modify installment_id i.id unmarked db.installments)
          × (db'.payments ≡ db.payments ++ (reversal env id user s i ∷ []))
    unfolding unmark_commit
    unmark_commit-effect payment found at_i gone posted = ground arith

module _ ⦃d : Decimals⦄ where
  open d use {Decimal}

  module _ (id : ℕ) (db : Db Decimal) (s : Submission Decimal) (i : Installment Decimal) where
    -- Two people who have both read a due instalment and mark it one after the other: the first posts
    -- one payment of the instalment's amount, and the second is told of the conflict and changes
    -- nothing, so the money is on the ledger once.
    pub mark_once :
        (env env' : Env) (dto dto' : MarkDto) (user user' : AuthUser)
        → find sale_id id db.submissions ≡ some s
        → find installment_id i.id db.installments ≡ some i
        → i.status ≡ due
        → let db' = (mark_commit env id dto user s i db).1 in
          (db'.payments ≡ db.payments ++ (mark_payment env id dto user s i ∷ []))
          × (mark_commit env' id dto' user' s i db' ≡ (err conflict, db'))
    mark_once env env' dto dto' user user' found at_i still =
        let (rows, ledger, _) = mark_commit-installments env id dto user db s i found at_i still in
        let later = (mark_commit env id dto user s i db).1 in
        let hit = marked_row env id dto user db s i found at_i still in
        (
          ledger,
          mark_commit_taken env' id dto' user' later s i (linked env user (marked env user i)) hit
              refl,
        )
