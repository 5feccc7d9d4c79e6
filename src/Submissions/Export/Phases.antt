-- ===== src/Submissions/Export/Phases.antt =====
-- The phases of `export` (backend/src/submissions/submissions.service.ts), on a sale that the table
-- holds.
use Prim.Native.String.{String}
use vfw.Prelude.{
  ℕ, ◌≡◌, ◌≢◌, refl, sym, ap, ◌∙◌, true, false, ◌&&◌, Option, none, some, if◌then◌else◌, arith, inl,
  inr,
}
use vfw.Acl.{AuthUser}
use vfw.Store.{Submission, approved, exported, Text, Db, Env}
use vfw.Store.Table.{find, modify, find-modify}
use vfw.Store.Call.{ok, err, HttpError, bad_request, Result-cases}
use vfw.Submissions.{sale_id}
use vfw.Submissions.Invoice.{has_number, next_no, invoice_brand}
use vfw.Submissions.Invoice.Rules.{has_number-next_no}
use vfw.Submissions.Export.{
  accepted, refused, QuickBooks, doc_type_of, number_of, with_sync_error, with_posting, prepare,
  record_stub, record_post, export,
}
use vfw.Submissions.Lifecycle.Handover.{prepare_found}

module _ {D : Type 0} (id : ℕ) (db : Db D) where
  prepare_number :
      (s p : Submission D)
      → find sale_id id db.submissions ≡ some s
      → (prepare id db).0 ≡ ok p
      → (number : Text) → next_no (invoice_brand s.city) db.settings ≡ number
      → has_number (some number) ≡ true
      → (has_number p.invoice_no ≡ true)
        × (p.is_test_data ≡ s.is_test_data)
        × (p.invoice_no ≡ (if has_number s.invoice_no then s.invoice_no else some number))
  unfolding prepare
  prepare_number s p found done number next real = ground arith

  prepare_again :
      (s : Submission D)
      → find sale_id id db.submissions ≡ some s
      → s.status ≡ approved
      → has_number s.invoice_no ≡ true
      → prepare id db ≡ (ok s, db)
  unfolding prepare
  prepare_again s found was real = ground arith

module _ {D : Type 0} (env : Env) (qbo : QuickBooks D) (id : ℕ) (doc_type : Option String)
    (user : AuthUser) where
  module _ (db : Db D) where
    export_not_prepared :
        (e : HttpError) (t : Submission D)
        → (prepare id db).0 ≡ err e
        → (export env qbo id doc_type user db).0 ≢ ok t
    unfolding export
    export_not_prepared e t failed done = ground arith

    after_prepare :
        (p t : Submission D)
        → (prepare id db).0 ≡ ok p
        → find sale_id id (prepare id db).1.submissions ≡ some p
        → (export env qbo id doc_type user db).0 ≡ ok t
        → (t.status ≡ exported)
          × (t.qb_doc_number ≢ none)
          × (t.qbo_sync_error ≡ none)
          × (t.invoice_no ≡ p.invoice_no)
          × (qbo.is_connected && (p.is_test_data && qbo.is_production) ≡ false)
    unfolding export record_stub record_post
    after_prepare p t done found ended = ground arith

    post_refused :
        (p : Submission D) (message : String)
        → (prepare id db).0 ≡ ok p
        → find sale_id id (prepare id db).1.submissions ≡ some p
        → qbo.is_connected ≡ true
        → p.is_test_data && qbo.is_production ≡ false
        → qbo.post p (doc_type_of doc_type p.figures.pay_status) (number_of p.invoice_no)
          ≡ refused message
        → let (r, db') = export env qbo id doc_type user db in
          (r ≡ err bad_request)
          × (db'.submissions
              ≡ modify sale_id id (with_sync_error message) (prepare id db).1.submissions)
          × (db'.settings ≡ (prepare id db).1.settings)
    unfolding export record_post
    post_refused p message done found connected allowed answer = ground arith

    post_accepted :
        (p : Submission D) (doc_number qbo_id : Text)
        → (prepare id db).0 ≡ ok p
        → find sale_id id (prepare id db).1.submissions ≡ some p
        → qbo.is_connected ≡ true
        → p.is_test_data && qbo.is_production ≡ false
        → qbo.post p (doc_type_of doc_type p.figures.pay_status) (number_of p.invoice_no)
          ≡ accepted doc_number qbo_id
        → (export env qbo id doc_type user db).0 ≡ ok (with_posting env doc_number qbo_id p)
    unfolding export record_post
    post_accepted p doc_number qbo_id done found connected allowed answer = ground arith

module _ {D : Type 0} (id : ℕ) (user user' : AuthUser) (env env' : Env) (doc_type : Option String)
    (db : Db D) (s : Submission D) where
  -- An approved sale that has a number and is not test data, and that QuickBooks refuses, stays
  -- approved, with the message and its number, and the call is a bad request; a second call, when
  -- QuickBooks is connected and accepts, posts the same number, takes none from the sequences, and
  -- ends in an exported sale without the message.
  pub export_retry :
      (qbo qbo' : QuickBooks D) (message : String) (doc_number qbo_id : Text)
      → find sale_id id db.submissions ≡ some s
      → s.status ≡ approved
      → has_number s.invoice_no ≡ true
      → qbo.is_connected ≡ true
      → qbo'.is_connected ≡ true
      → s.is_test_data ≡ false
      → let doc = doc_type_of doc_type s.figures.pay_status in
        let number = number_of s.invoice_no in
        let kept = with_sync_error message s in
        qbo.post s doc number ≡ refused message
        → qbo'.post kept doc number ≡ accepted doc_number qbo_id
        → let (r, db') = export env qbo id doc_type user db in
          (r ≡ err bad_request)
          × (find sale_id id db'.submissions ≡ some kept)
          × (db'.settings ≡ db.settings)
          × ((export env' qbo' id doc_type user' db').0
              ≡ ok (with_posting env' doc_number qbo_id kept))
  export_retry qbo qbo' message doc_number qbo_id found was real up up' live no_way at_last =
      let first = prepare_again id db s found was real in
      let (r, rows, settings) =
        post_refused env qbo id doc_type user db s message (ap (λ x. x.0) first) (rw first found) up
          (rw live refl) no_way in
      let later = (export env qbo id doc_type user db).1 in
      let kept = with_sync_error message s in
      let hit : find sale_id id later.submissions ≡ some kept =
        rw
          (
            rows,
            first,
            find-modify sale_id id id (with_sync_error message) db.submissions (λ _. refl),
          )
          (ground (arith, found)) in
      let second = prepare_again id later kept hit was real in
      (
        r,
        hit,
        rw (settings, first) refl,
        post_accepted env' qbo' id doc_type user' later kept doc_number qbo_id
            (ap (λ x. x.0) second) (rw second hit) up' (rw live refl) at_last,
      )

module _ {D : Type 0} (env : Env) (qbo : QuickBooks D) (id : ℕ) (doc_type : Option String)
    (user : AuthUser) (db : Db D) where
  prepare_status :
      (s t : Submission D)
      → find sale_id id db.submissions ≡ some s
      → (prepare id db).0 ≡ ok t
      → s.status ≡ approved
  unfolding prepare
  prepare_status s t found done = ground arith

  -- An export that succeeds found an approved sale and ends in an exported one that has an invoice
  -- number, its own if it had one and the next of its sequence otherwise, a document number, and no
  -- message of a refusal; a sale that is test data was not sent to a production company.
  pub export_success :
      (s t : Submission D)
      → find sale_id id db.submissions ≡ some s
      → (export env qbo id doc_type user db).0 ≡ ok t
      → (s.status ≡ approved)
        × (t.status ≡ exported)
        × (has_number t.invoice_no ≡ true)
        × (t.invoice_no ≡ (
            if has_number s.invoice_no
            then s.invoice_no
            else some (next_no (invoice_brand s.city) db.settings)))
        × (t.qb_doc_number ≢ none)
        × (t.qbo_sync_error ≡ none)
        × (qbo.is_connected && (s.is_test_data && qbo.is_production) ≡ false)
  export_success s t found ended = elim (Result-cases (prepare id db).0) [
    | inl (e, failed) ↦ elim (export_not_prepared env qbo id doc_type user db e t failed ended) [ ]
    | inr (p, done) ↦
        let was = prepare_status s p found done in
        let (there, ready) = prepare_found id db p done in
        let (real, test, own) =
          prepare_number id db s p found done (next_no (invoice_brand s.city) db.settings) refl
            (has_number-next_no (invoice_brand s.city) db.settings) in
        let (now, doc, clean, number, safe) =
          after_prepare env qbo id doc_type user db p t done there ended in
        (was, now, rw number real, number ∙ own, doc, clean, rw (sym test) safe)
  ]
