-- ===== src/Submissions/Lifecycle/Handover.antt =====
-- `export` of backend/src/submissions/submissions.service.ts as steps of the lifecycle.
use Prim.Native.String.{String}
use vfw.Prelude.{ℕ, ◌≡◌, ◌≢◌, ◌⊎◌, inl, inr, refl, ap, Option, none, some, arith, Option-cases}
use vfw.Acl.{AuthUser}
use vfw.Store.{Submission, Text, Db, Env, approved, exported}
use vfw.Store.Table.{find, modify, find-modify}
use vfw.Store.Call.{ok, err, HttpError, Result-cases}
use vfw.Submissions.{sale_id}
use vfw.Submissions.Invoice.{with_number, next_no, invoice_brand}
use vfw.Submissions.Export.{
  Posted, QuickBooks, with_stub, with_posting, with_sync_error, number_of, doc_type_of, prepare,
  record_stub, record_post, export, accepted, refused,
}
use vfw.Submissions.Lifecycle
use vfw.Submissions.Lifecycle.{Evolves, Evolves-trans, standing, ◌⟶*◌, here, next}
use vfw.Submissions.Lifecycle.Moves.{Moves, same_rows, written, evolves, keeps_standing}

module _ {D : Type 0} (id : ℕ) (db : Db D) where
  prepare-rows :
      (s : Submission D)
      → find sale_id id db.submissions ≡ some s
      → let ys = (prepare id db).1.submissions in
        (ys ≡ db.submissions)
        ⊎ (ys
            ≡ modify sale_id id
                (with_number (next_no (invoice_brand s.city) db.settings))
                db.submissions)
  unfolding prepare
  prepare-rows s found = ground arith

  pub prepare-Evolves : Evolves db.submissions (prepare id db).1.submissions
  unfolding prepare
  prepare-Evolves =
      evolves id db (prepare id db).1 (λ missing. ground arith)
        λ s found. elim (prepare-rows s found) [
          | inl same ↦ inl same
          | inr rows ↦
              let number = next_no (invoice_brand s.city) db.settings in
              inr (
                with_number number,
                λ _. refl,
                keeps_standing s (with_number number s) refl refl refl refl refl,
                rows,
              )
        ]

  prepare_sale :
      (s p : Submission D)
      → find sale_id id db.submissions ≡ some s
      → (prepare id db).0 ≡ ok p
      → (s.status ≡ approved)
        × (((p ≡ s) × ((prepare id db).1.submissions ≡ db.submissions))
            ⊎ let f = with_number (next_no (invoice_brand s.city) db.settings) in
              (p ≡ f s) × ((prepare id db).1.submissions ≡ modify sale_id id f db.submissions))
  unfolding prepare
  prepare_sale s p found done = ground arith

  prepare_missing :
      (p : Submission D) → find sale_id id db.submissions ≡ none → (prepare id db).0 ≢ ok p
  unfolding prepare
  prepare_missing p missing done = ground arith

  -- What `prepare` returns is the row that then stands in the table, and it is approved.
  pub prepare_found :
      (p : Submission D)
      → (prepare id db).0 ≡ ok p
      → (find sale_id id (prepare id db).1.submissions ≡ some p) × (p.status ≡ approved)
  prepare_found p done = elim (Option-cases (find sale_id id db.submissions)) [
    | inl missing ↦ elim (prepare_missing p missing done) [ ]
    | inr (s, found) ↦
        let (was, rows) = prepare_sale s p found done in
        elim rows [
          | inl (same, kept) ↦ (rw (kept, same) found, rw same was)
          | inr (new, wrote) ↦
              let f = with_number (next_no (invoice_brand s.city) db.settings) in
              (
                rw (wrote, new, find-modify sale_id id id f db.submissions (λ _. refl))
                    (ground (arith, found)),
                rw new was,
              )
        ]
  ]

  -- An approved sale that is exported is as sound as it was.
  exported-Moves :
      (p q : Submission D)
      → p.status ≡ approved
      → q.status ≡ exported
      → q.voided_from ≡ p.voided_from
      → q.override_requested_by ≡ p.override_requested_by
      → q.approved_by ≡ p.approved_by
      → q.qb_doc_number ≢ none
      → Moves p q
  exported-Moves p q was now a b c e h =
      (rw (was, now) (next Lifecycle.export here), ground (arith, h.asks, h.signed, h.live))

module _ {D : Type 0} (env : Env) (id : ℕ) (user : AuthUser) (db : Db D) (p : Submission D) where
  record_stub-Evolves :
      (number : Text)
      → find sale_id id db.submissions ≡ some p
      → p.status ≡ approved
      → Evolves db.submissions (record_stub env id user number db).1.submissions
  unfolding record_stub
  record_stub-Evolves number found was =
      written id (with_stub env number) db (record_stub env id user number db).1 p (λ _. refl) found
        (exported-Moves id db p (with_stub env number p) was refl refl refl refl (λ e. cc))
        (ground arith)

  record_post-Evolves :
      (answer : Posted)
      → find sale_id id db.submissions ≡ some p
      → p.status ≡ approved
      → Evolves db.submissions (record_post env id user answer db).1.submissions
  unfolding record_post
  record_post-Evolves (accepted number qbo_id) found was =
      written id (with_posting env number qbo_id) db
        (record_post env id user (accepted number qbo_id) db).1 p (λ _. refl) found
        (exported-Moves id db p (with_posting env number qbo_id p) was refl refl refl refl
          (λ e. cc))
        (ground arith)
  record_post-Evolves (refused message) found was =
      written id (with_sync_error message) db (record_post env id user (refused message) db).1 p
        (λ _. refl) found (keeps_standing p (with_sync_error message p) refl refl refl refl refl)
        (ground arith)

module _ {D : Type 0} (env : Env) (qbo : QuickBooks D) (id : ℕ) (doc_type : Option String)
    (user : AuthUser) (db : Db D) where
  export_failed-rows :
      (e : HttpError)
      → (prepare id db).0 ≡ err e
      → (export env qbo id doc_type user db).1 ≡ (prepare id db).1
  unfolding export
  export_failed-rows e failed = ground arith

  -- After the first phase, a call records the sale as exported or the refusal, or throws.
  export-phases :
      (p : Submission D)
      → (prepare id db).0 ≡ ok p
      → let db₁ = (prepare id db).1 in
        let db₂ = (export env qbo id doc_type user db).1 in
        (db₂ ≡ (record_stub env id user (number_of p.invoice_no) db₁).1)
        ⊎ (db₂ ≡ db₁)
        ⊎ (db₂
            ≡ (record_post env id user
                (qbo.post p (doc_type_of doc_type p.figures.pay_status) (number_of p.invoice_no))
                db₁).1)
  unfolding export
  export-phases p done = ground arith

  after_prepare-Evolves :
      (p : Submission D)
      → (prepare id db).0 ≡ ok p
      → Evolves (prepare id db).1.submissions (export env qbo id doc_type user db).1.submissions
  after_prepare-Evolves p done =
      let db₁ = (prepare id db).1 in
      let (found, was) = prepare_found id db p done in
      let answer =
        qbo.post p (doc_type_of doc_type p.figures.pay_status) (number_of p.invoice_no) in
      elim (export-phases p done) [
        | inl e ↦ rw e (record_stub-Evolves env id user db₁ p (number_of p.invoice_no) found was)
        | inr (inl e) ↦
            same_rows db₁ (export env qbo id doc_type user db).1 (ap (λ x. x.submissions) e)
        | inr (inr e) ↦ rw e (record_post-Evolves env id user db₁ p answer found was)
      ]

  pub export-Evolves : Evolves db.submissions (export env qbo id doc_type user db).1.submissions
  export-Evolves = elim (Result-cases (prepare id db).0) [
    | inl (e, failed) ↦ rw (export_failed-rows e failed) (prepare-Evolves id db)
    | inr (p, done) ↦ Evolves-trans _ _ _ (prepare-Evolves id db) (after_prepare-Evolves p done)
  ]
