-- ===== src/Submissions/Editing/Decided.antt =====
-- Who may edit a sale, and what an edit does to its status
-- (backend/src/submissions/submissions.service.ts).
use vfw.Prelude.{ℕ, ◌≡◌, true, false, none, some, arith, not, ◌||◌, if◌then◌else◌}
use vfw.Decimal.{Decimals}
use vfw.Acl.{AuthUser, can, submission_edit_any}
use vfw.Store.{Submission, Db, Env, pending}
use vfw.Store.Table.{find}
use vfw.Store.Call.{ok}
use vfw.Submissions.{sale_id}
use vfw.Submissions.Sale.{Catalogue, SaleDto}
use vfw.Submissions.Editing.{update, may_edit, is_decided, is_dead}

module _ ⦃d : Decimals⦄ where
  open d use {Decimal}

  module _ (env : Env) (cat : Catalogue Decimal) (id : ℕ) (dto : SaleDto Decimal) (user : AuthUser)
      (db : Db Decimal) where
    update_gates :
        (s t : Submission Decimal)
        → find sale_id id db.submissions ≡ some s
        → (update env cat id dto user db).0 ≡ ok t
        → (may_edit user s ≡ true)
          × (not (is_decided s.status) || can submission_edit_any user ≡ true)
          × (is_dead s.status ≡ false)
    unfolding update
    update_gates s t found done = ground arith

    update_awaits :
        (s t : Submission Decimal)
        → find sale_id id db.submissions ≡ some s
        → (update env cat id dto user db).0 ≡ ok t
        → (t.status ≡ (if is_decided s.status then s.status else pending))
          × (t.override_requested_by ≡ none)
    unfolding update
    update_awaits s t found done = ground arith

    update_keeps :
        (s t : Submission Decimal)
        → find sale_id id db.submissions ≡ some s
        → (update env cat id dto user db).0 ≡ ok t
        → (t.approved_by ≡ s.approved_by) × (t.invoice_no ≡ s.invoice_no) × (t.rep_id ≡ s.rep_id)
    unfolding update
    update_keeps s t found done = ground arith

    -- An edit that succeeds was made by a user who may edit the sale, and who may edit any sale if
    -- this one was approved or exported; a decided sale keeps its status, any other one awaits a
    -- decision, no rejected or voided one is edited, no request for a second signature is left, and
    -- the approval, the invoice number and the owner stay as they were.
    pub update_status :
        (s t : Submission Decimal)
        → find sale_id id db.submissions ≡ some s
        → (update env cat id dto user db).0 ≡ ok t
        → (may_edit user s ≡ true)
          × (not (is_decided s.status) || can submission_edit_any user ≡ true)
          × (is_dead s.status ≡ false)
          × (t.status ≡ (if is_decided s.status then s.status else pending))
          × (t.override_requested_by ≡ none)
          × (t.approved_by ≡ s.approved_by)
          × (t.invoice_no ≡ s.invoice_no)
          × (t.rep_id ≡ s.rep_id)
    update_status s t found done =
        let (mine, any, live) = update_gates s t found done in
        let (awaits, asks) = update_awaits s t found done in
        let (signed, number, owner) = update_keeps s t found done in
        (mine, any, live, awaits, asks, signed, number, owner)
