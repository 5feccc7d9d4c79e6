-- ===== src/Payroll/Invoices/Frozen.antt =====
-- Approved pay (backend/src/payroll/payroll.service.ts).
use Prim.Native.String.{String}
use vfw.Prelude.{
  ℕ, ◌≡◌, ◌∙◌, ap, refl, Bool, true, false, none, some, List, [], ◌∷◌, arith, inl, inr,
  Option-cases, Bool-cases,
}
use vfw.Decimal.{Decimals}
use vfw.Acl.{AuthUser}
use vfw.Store.{Db, Env}
use vfw.Store.Staff.{PayrollInvoice}
use vfw.Store.Table.{find, find-modify, find-append, modify_where, find_where}
use vfw.Payroll.{
  decimal, PayrollQuery, is_approved, subject, resolve_period, period_range, fx_rates,
}
use vfw.Store.Call.{Result-cases}
use vfw.Payroll.Statement.{Statement, is_period, statement_for}
use vfw.Payroll.Invoices.{
  SubmitDto, EditDto, invoice_id, approved?, resubmitted, edited, approved_by, rejected_by,
  new_invoice, upsert_invoice, submit_mine, edit_invoice, approve_invoice, reject_invoice,
}
use vfw.Payroll.Reimbursements.{ReimbursementDto, set_reimbursement}
use vfw.Payroll.TierAdmin.{
  TierDto, TierChangeDto, new_threshold, new_bonus, create_tier, update_tier, delete_tier,
}

-- A write to the first row that meets a test leaves a row of another kind where it was.
find-modify_where :
    {A : Type 0} (key : A → ℕ) (kind : A → Bool) (p : A → Bool) (k : ℕ) (f : A → A) (xs : List A)
    → ((x : A) → key (f x) ≡ key x)
    → (v m : A) → find_where p xs ≡ some m
    → kind m ≡ false
    → kind v ≡ true
    → find key k xs ≡ some v
    → find key k (modify_where p f xs) ≡ some v
unfolding find find_where modify_where
find-modify_where key kind p k f [] keeps v m first other this found = ground arith
find-modify_where key kind p k f (x ∷ xs) keeps v m first other this found =
    ground (arith, keeps x, find-modify_where key kind p k f xs keeps v m)

module _ ⦃d : Decimals⦄ where
  open d use {Decimal}

  statement_for-reads :
      (month : ℕ × ℕ) (query : PayrollQuery) (actor : AuthUser) (db : Db Decimal)
      → (statement_for month query actor db).1 ≡ db
  unfolding statement_for subject resolve_period period_range fx_rates
  statement_for-reads month query actor db = ground arith

  -- The query of `submitMine`.
  abbrev own_period : SubmitDto → PayrollQuery
  own_period dto = record { from = some dto.from; to = some dto.to; user_id = none }

  -- The requests that write what payroll keeps.
  pub data Request : Type 0 where
    submit : ℕ × ℕ → Env → SubmitDto → AuthUser → Request
    reimburse : ReimbursementDto Decimal → AuthUser → Request
    edit : ℕ → EditDto Decimal → AuthUser → Request
    approve : Env → ℕ → AuthUser → Request
    reject : Env → ℕ → String → AuthUser → Request
    add_tier : Env → TierDto Decimal → AuthUser → Request
    change_tier : ℕ → TierChangeDto Decimal → AuthUser → Request
    drop_tier : ℕ → AuthUser → Request

  abbrev pub serve : Request → Db Decimal → Db Decimal
  serve (submit month env dto actor) db = (submit_mine month env dto actor db).1
  serve (reimburse dto actor) db = (set_reimbursement dto actor db).1
  serve (edit id dto actor) db = (edit_invoice id dto actor db).1
  serve (approve env id actor) db = (approve_invoice env id actor db).1
  serve (reject env id reason actor) db = (reject_invoice env id reason actor db).1
  serve (add_tier env dto actor) db = (create_tier env dto actor db).1
  serve (change_tier id dto actor) db = (update_tier id dto actor db).1
  serve (drop_tier id actor) db = (delete_tier id actor db).1

  abbrev pub serve_all : List Request → Db Decimal → Db Decimal
  serve_all [] db = db
  serve_all (r ∷ rs) db = serve_all rs (serve r db)

  abbrev pub invoices : Db Decimal → List (PayrollInvoice Decimal)
  invoices db = db.staff.payroll_invoices

  module _ (k : ℕ) (v : PayrollInvoice Decimal) (done : is_approved v.status ≡ true)
      (db : Db Decimal) (found : find invoice_id k (invoices db) ≡ some v) where
    edit_keeps :
        (id : ℕ) (dto : EditDto Decimal) (actor : AuthUser)
        → find invoice_id k (invoices (edit_invoice id dto actor db).1) ≡ some v
    unfolding edit_invoice
    edit_keeps id dto actor =
        let seen = find-modify invoice_id id k (edited dto) (invoices db) (λ _. refl) in
        ground (arith, seen)

    approve_keeps :
        (env : Env) (id : ℕ) (actor : AuthUser)
        → find invoice_id k (invoices (approve_invoice env id actor db).1) ≡ some v
    unfolding approve_invoice
    approve_keeps env id actor =
        let seen = find-modify invoice_id id k (approved_by env actor) (invoices db) (λ _. refl) in
        ground (arith, seen)

    reject_keeps :
        (env : Env) (id : ℕ) (reason : String) (actor : AuthUser)
        → find invoice_id k (invoices (reject_invoice env id reason actor db).1) ≡ some v
    unfolding reject_invoice
    reject_keeps env id reason actor =
        let seen =
          find-modify invoice_id id k (rejected_by env reason actor) (invoices db) (λ _. refl) in
        ground (arith, seen)

    -- The row of the period, where it is not approved, is another one.
    upsert_keeps :
        (env : Env) (dto : SubmitDto) (actor : AuthUser) (st : Statement)
        → approved? (find_where (is_period actor.id dto.from dto.to) (invoices db)) ≡ false
        → find invoice_id k (invoices (upsert_invoice env dto actor st db).1) ≡ some v
    unfolding upsert_invoice
    upsert_keeps env dto actor st fresh =
        let theirs : PayrollInvoice Decimal → Bool = is_period actor.id dto.from dto.to in
        elim (Option-cases (find_where theirs (invoices db))) [
          | inl none_yet ↦
              let kept =
                find-append invoice_id k (invoices db) (new_invoice env dto actor st ∷ []) v
                  found in
              ground (arith, none_yet, kept)
          | inr (m, there) ↦
              let other : is_approved m.status ≡ false = rw there at fresh in
              let kept =
                find-modify_where invoice_id (λ i. is_approved i.status) theirs k
                  (resubmitted env st) (invoices db) (λ _. refl) v m there other done found in
              ground (arith, there, kept)
        ]

    submit_keeps :
        (month : ℕ × ℕ) (env : Env) (dto : SubmitDto) (actor : AuthUser)
        → find invoice_id k (invoices (submit_mine month env dto actor db).1) ≡ some v
    unfolding submit_mine
    submit_keeps month env dto actor =
        let still = statement_for-reads month (own_period dto) actor db in
        elim (Bool-cases
          (approved? (find_where (is_period actor.id dto.from dto.to) (invoices db)))) [
            | inl decided ↦ ground (arith, decided)
            | inr open_row ↦ elim (Result-cases (statement_for month (own_period dto) actor db).0) [
              | inl (e, refused) ↦ ground (arith, open_row, still, refused)
              | inr (sheet, drawn) ↦
                  let kept = upsert_keeps env dto actor sheet.0 open_row in
                  ground (arith, open_row, still, drawn, kept)
            ]
          ]

    reimburse_keeps :
        (dto : ReimbursementDto Decimal) (actor : AuthUser)
        → invoices (set_reimbursement dto actor db).1 ≡ invoices db
    unfolding set_reimbursement
    reimburse_keeps dto actor = ground arith

    create_keeps :
        (env : Env) (dto : TierDto Decimal) (actor : AuthUser)
        → invoices (create_tier env dto actor db).1 ≡ invoices db
    unfolding create_tier decimal
    create_keeps env dto actor = ground arith

    change_keeps :
        (id : ℕ) (dto : TierChangeDto Decimal) (actor : AuthUser)
        → invoices (update_tier id dto actor db).1 ≡ invoices db
    unfolding update_tier new_threshold new_bonus decimal
    change_keeps id dto actor = ground arith

    drop_keeps : (id : ℕ) (actor : AuthUser) → invoices (delete_tier id actor db).1 ≡ invoices db
    unfolding delete_tier
    drop_keeps id actor = ground arith

    serve_keeps : (r : Request) → find invoice_id k (invoices (serve r db)) ≡ some v
    serve_keeps (submit month env dto actor) = submit_keeps month env dto actor
    serve_keeps (reimburse dto actor) = ap (find invoice_id k) (reimburse_keeps dto actor) ∙ found
    serve_keeps (edit id dto actor) = edit_keeps id dto actor
    serve_keeps (approve env id actor) = approve_keeps env id actor
    serve_keeps (reject env id reason actor) = reject_keeps env id reason actor
    serve_keeps (add_tier env dto actor) =
        ap (find invoice_id k) (create_keeps env dto actor) ∙ found
    serve_keeps (change_tier id dto actor) =
        ap (find invoice_id k) (change_keeps id dto actor) ∙ found
    serve_keeps (drop_tier id actor) = ap (find invoice_id k) (drop_keeps id actor) ∙ found

  -- A payroll invoice that is approved stays as it is, figures, review and all, whatever payroll requests
  -- follow, by anyone and in any order: submissions, reimbursements, edits, decisions and changes to
  -- the commission tiers.
  pub approved-Frozen :
      (k : ℕ) (v : PayrollInvoice Decimal) (rs : List Request) (db : Db Decimal)
      → find invoice_id k (invoices db) ≡ some v
      → is_approved v.status ≡ true
      → find invoice_id k (invoices (serve_all rs db)) ≡ some v
  approved-Frozen k v [] db found done = found
  approved-Frozen k v (r ∷ rs) db found done =
      approved-Frozen k v rs (serve r db) (serve_keeps k v done db found r) done
