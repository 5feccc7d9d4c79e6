-- ===== src/Submissions/Lifecycle/Runs.antt =====
-- Whole runs: any sequence of the calls of backend/src/submissions/submissions.service.ts that write a
-- sale, by whatever users.
use Prim.Native.String.{String}
use vfw.Prelude.{ℕ, ◌≡◌, ◌≢◌, none, ◌⊎◌, inl, inr, refl, Option, some, arith, List, [], ◌∷◌}
use vfw.Decimal.{Decimals}
use vfw.Acl.{AuthUser}
use vfw.Store.{Submission, SubmissionStatus, Text, Db, Env, approved, rejected, exported}
use vfw.Store.Table.{find}
use vfw.Submissions.{sale_id}
use vfw.Submissions.Review.{ApproveDto}
use vfw.Submissions.Review
use vfw.Submissions.Ledger.{PaymentDto}
use vfw.Submissions.Ledger
use vfw.Submissions.Fields.{PatchDto}
use vfw.Submissions.Fields
use vfw.Submissions.Voiding
use vfw.Submissions.Invoice
use vfw.Submissions.Export.{QuickBooks}
use vfw.Submissions.Export
use vfw.Submissions.Sale.{Catalogue, SaleDto}
use vfw.Submissions.Editing
use vfw.Submissions.Entry
use vfw.Submissions.Lifecycle
use vfw.Submissions.Lifecycle.{
  stage, ◌⟶◌, ◌⟶*◌, here, next, IsSound, Evolves, Evolves-refl, Evolves-IsSound, Evolves-trans,
}
use vfw.Submissions.Lifecycle.Decisions.{
  void-Evolves, unvoid-Evolves, approve-Evolves, reject-Evolves, return_to_sales-Evolves,
}
use vfw.Submissions.Lifecycle.Records.{
  patch-Evolves, generate_invoice-Evolves, set_invoice_no-Evolves, add_payment-Evolves,
}
use vfw.Submissions.Lifecycle.Handover.{export-Evolves}
use vfw.Submissions.Lifecycle.Amend.{create-Evolves, update-Evolves}

-- A request, and what it brings along.
pub data Request (D : Type 0) : Type 0 where
  create : SaleDto D → Request D
  update : ℕ → SaleDto D → Request D
  approve : ℕ → ApproveDto → Request D
  reject : ℕ → String → Request D
  return_to_sales : ℕ → String → Request D
  void : ℕ → Request D
  unvoid : ℕ → Request D
  patch : ℕ → PatchDto → Request D
  add_payment : ℕ → PaymentDto D → Request D
  generate_invoice : ℕ → Request D
  set_invoice_no : ℕ → Text → Request D
  export : ℕ → Option String → Request D

-- A request at its moment: who makes it, and what the outside says then.
pub record Step (D : Type 0) : Type 0 where
  pub env : Env
  pub user : AuthUser
  pub catalogue : Catalogue D
  pub quickbooks : QuickBooks D
  pub request : Request D

-- No edge leaves a rejected or an exported sale, and the one out of an approved sale is the export.
stays_final : {x y : SubmissionStatus} → x ⟶* y → (x ≡ rejected) ⊎ (x ≡ exported) → y ≡ x
stays_final here e = refl
stays_final (next Lifecycle.submit way) e = ground arith
stays_final (next Lifecycle.resubmit way) e = ground arith
stays_final (next Lifecycle.approve way) e = ground arith
stays_final (next Lifecycle.reject way) e = ground arith
stays_final (next Lifecycle.return way) e = ground arith
stays_final (next Lifecycle.export way) e = ground arith

stays_approved : {x y : SubmissionStatus} → x ⟶* y → x ≡ approved → (y ≡ approved) ⊎ (y ≡ exported)
stays_approved here e = inl e
stays_approved (next Lifecycle.submit way) e = ground arith
stays_approved (next Lifecycle.resubmit way) e = ground arith
stays_approved (next Lifecycle.approve way) e = ground arith
stays_approved (next Lifecycle.reject way) e = ground arith
stays_approved (next Lifecycle.return way) e = ground arith
stays_approved (next Lifecycle.export way) e = inr (stays_final way (inr refl))

module _ ⦃d : Decimals⦄ (to_number : Text → Option ℕ) where
  open d use {Decimal}

  -- The database after a request.
  unfoldable pub perform :
      Env
      → AuthUser
      → Catalogue Decimal
      → QuickBooks Decimal
      → Request Decimal
      → Db Decimal
      → Db Decimal
  unfolding Review.approve Ledger.add_payment Voiding.void Editing.update Entry.create Export.export
      Invoice.set_invoice_no
  perform env user cat qbo (Request.create dto) db = (Entry.create env cat dto user db).1
  perform env user cat qbo (Request.update id dto) db = (Editing.update env cat id dto user db).1
  perform env user cat qbo (Request.approve id dto) db = (Review.approve env id dto user db).1
  perform env user cat qbo (Request.reject id reason) db = (Review.reject env id reason user db).1
  perform env user cat qbo (Request.return_to_sales id note) db =
      (Review.return_to_sales env id note user db).1
  perform env user cat qbo (Request.void id) db = (Voiding.void env id user db).1
  perform env user cat qbo (Request.unvoid id) db = (Voiding.unvoid id user db).1
  perform env user cat qbo (Request.patch id dto) db = (Fields.patch id dto user db).1
  perform env user cat qbo (Request.add_payment id dto) db =
      (Ledger.add_payment env id dto user db).1
  perform env user cat qbo (Request.generate_invoice id) db =
      (Invoice.generate_invoice id user db).1
  perform env user cat qbo (Request.set_invoice_no id number) db =
      (Invoice.set_invoice_no to_number id number user db).1
  perform env user cat qbo (Request.export id doc_type) db =
      (Export.export env qbo id doc_type user db).1

  unfoldable pub run : List (Step Decimal) → Db Decimal → Db Decimal
  unfolding perform
  run [] db = db
  run (x ∷ xs) db = run xs (perform x.env x.user x.catalogue x.quickbooks x.request db)

  perform-Evolves :
      (env : Env) (user : AuthUser) (cat : Catalogue Decimal) (qbo : QuickBooks Decimal)
      (r : Request Decimal) (db : Db Decimal)
      → Evolves db.submissions (perform env user cat qbo r db).submissions
  unfolding perform
  perform-Evolves env user cat qbo (Request.create dto) db = create-Evolves env cat dto user db
  perform-Evolves env user cat qbo (Request.update id dto) db =
      update-Evolves env cat id dto user db
  perform-Evolves env user cat qbo (Request.approve id dto) db = approve-Evolves env id user db dto
  perform-Evolves env user cat qbo (Request.reject id reason) db =
      reject-Evolves env id user db reason
  perform-Evolves env user cat qbo (Request.return_to_sales id note) db =
      return_to_sales-Evolves env id user db note
  perform-Evolves env user cat qbo (Request.void id) db = void-Evolves env id user db
  perform-Evolves env user cat qbo (Request.unvoid id) db = unvoid-Evolves id user db
  perform-Evolves env user cat qbo (Request.patch id dto) db = patch-Evolves id user db dto
  perform-Evolves env user cat qbo (Request.add_payment id dto) db =
      add_payment-Evolves env id user db dto
  perform-Evolves env user cat qbo (Request.generate_invoice id) db =
      generate_invoice-Evolves id user db
  perform-Evolves env user cat qbo (Request.set_invoice_no id number) db =
      set_invoice_no-Evolves id user db to_number number
  perform-Evolves env user cat qbo (Request.export id doc_type) db =
      export-Evolves env qbo id doc_type user db

  run-Evolves :
      (xs : List (Step Decimal)) (db : Db Decimal) → Evolves db.submissions (run xs db).submissions
  unfolding run
  run-Evolves [] db = Evolves-refl db.submissions
  run-Evolves (x ∷ xs) db =
      Evolves-trans _ _ _ (perform-Evolves x.env x.user x.catalogue x.quickbooks x.request db)
        (run-Evolves xs (perform x.env x.user x.catalogue x.quickbooks x.request db))

  -- After any sequence of requests, successful or not, every sound sale is still there and sound, and
  -- the status it has, or goes back to from a void, was reached along the edges of the lifecycle.
  pub run_keeps_IsSound :
      (xs : List (Step Decimal)) (db : Db Decimal) (id : ℕ) (s : Submission Decimal)
      → find sale_id id db.submissions ≡ some s
      → IsSound s
      → (t : Submission Decimal) × (find sale_id id (run xs db).submissions ≡ some t)
        × (stage s ⟶* stage t)
        × IsSound t
  run_keeps_IsSound xs db id s found sound =
      let (t, there, moves) = (run-Evolves xs db).0 id s found in
      (t, there, (moves sound).0, (moves sound).1)

  -- If every sale of the table is sound, every one is after any sequence of requests, those included
  -- that the requests enter. A table without sales is such a table.
  pub run-IsSound :
      (xs : List (Step Decimal)) (db : Db Decimal)
      → ((j : ℕ) (s : Submission Decimal) → find sale_id j db.submissions ≡ some s → IsSound s)
      → (id : ℕ) (t : Submission Decimal) → find sale_id id (run xs db).submissions ≡ some t
      → IsSound t
  run-IsSound xs db sound id t found =
      Evolves-IsSound db.submissions (run xs db).submissions (run-Evolves xs db) id t found
        (sound id)

  -- A decision is final: after any sequence of requests, a sound sale that was rejected or exported is
  -- still that, or voided from that.
  pub decisions_are_final :
      (xs : List (Step Decimal)) (db : Db Decimal) (id : ℕ) (s : Submission Decimal)
      → find sale_id id db.submissions ≡ some s
      → IsSound s
      → (stage s ≡ rejected) ⊎ (stage s ≡ exported)
      → (t : Submission Decimal) × (find sale_id id (run xs db).submissions ≡ some t)
        × (stage t ≡ stage s)
  decisions_are_final xs db id s found sound decided =
      let (t, there, way, _) = run_keeps_IsSound xs db id s found sound in
      (t, there, stays_final way decided)

  -- After any sequence of requests, a sound sale that was approved is approved or exported, or voided
  -- from one of these, and says who approved it.
  pub approval_lasts :
      (xs : List (Step Decimal)) (db : Db Decimal) (id : ℕ) (s : Submission Decimal)
      → find sale_id id db.submissions ≡ some s
      → IsSound s
      → stage s ≡ approved
      → (t : Submission Decimal) × (find sale_id id (run xs db).submissions ≡ some t)
        × ((stage t ≡ approved) ⊎ (stage t ≡ exported))
        × (t.approved_by ≢ none)
  approval_lasts xs db id s found sound was =
      let (t, there, way, still) = run_keeps_IsSound xs db id s found sound in
      (t, there, stays_approved way was, still.signed (stays_approved way was))
