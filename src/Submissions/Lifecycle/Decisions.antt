-- ===== src/Submissions/Lifecycle/Decisions.antt =====
-- The decisions and the soft delete of backend/src/submissions/submissions.service.ts as steps of
-- the lifecycle.
use Prim.Native.String.{String}
use vfw.Prelude.{ℕ, ◌≡◌, ◌≢◌, ◌⊎◌, inl, inr, refl, some, arith, Option-cases}
use vfw.Decimal.{Decimals}
use vfw.Acl.{AuthUser}
use vfw.Store.{Submission, pending, voided, Db, Env}
use vfw.Store.Table.{find, modify}
use vfw.Submissions.{sale_id}
use vfw.Submissions.Review.{
  ApproveDto, with_request, with_approval, with_rejection, with_return, approve, reject,
  return_to_sales,
}
use vfw.Submissions.Voiding.{with_void, with_restore, void, unvoid}
use vfw.Submissions.Lifecycle.{Evolves}
use vfw.Submissions.Lifecycle.Moves.{
  same_rows, written, evolves, with_request-Moves, with_approval-Moves, with_rejection-Moves,
  with_return-Moves, void-Moves, unvoid-Moves,
}

module _ {D : Type 0} where
  pub void-Evolves :
      (env : Env) (id : ℕ) (user : AuthUser) (db : Db D)
      → Evolves db.submissions (void env id user db).1.submissions
  unfolding void
  void-Evolves env id user db = elim (Option-cases (find sale_id id db.submissions)) [
    | inl missing ↦ same_rows db (void env id user db).1 (ground arith)
    | inr (s, found) ↦ elim (void-rows s found) [
      | inl same ↦ same_rows db (void env id user db).1 same
      | inr (live, e) ↦
          written id (with_void env user s.status) db (void env id user db).1 s (λ _. refl) found
            (void-Moves env user s live) e
    ]
  ]
    where
      void-rows :
          (s : Submission D)
          → find sale_id id db.submissions ≡ some s
          → let ys = (void env id user db).1.submissions in
            (ys ≡ db.submissions)
            ⊎ ((s.status ≢ voided)
                × (ys ≡ modify sale_id id (with_void env user s.status) db.submissions))
      void-rows s found = ground arith

  pub unvoid-Evolves :
      (id : ℕ) (user : AuthUser) (db : Db D)
      → Evolves db.submissions (unvoid id user db).1.submissions
  unfolding unvoid
  unvoid-Evolves id user db = elim (Option-cases (find sale_id id db.submissions)) [
    | inl missing ↦ same_rows db (unvoid id user db).1 (ground arith)
    | inr (s, found) ↦ elim (unvoid-rows s found) [
      | inl same ↦ same_rows db (unvoid id user db).1 same
      | inr (dead, e) ↦
          written id (with_restore s.voided_from) db (unvoid id user db).1 s (λ _. refl) found
            (unvoid-Moves s dead) e
    ]
  ]
    where
      unvoid-rows :
          (s : Submission D)
          → find sale_id id db.submissions ≡ some s
          → let ys = (unvoid id user db).1.submissions in
            (ys ≡ db.submissions)
            ⊎ ((s.status ≡ voided)
                × (ys ≡ modify sale_id id (with_restore s.voided_from) db.submissions))
      unvoid-rows s found = ground arith

module _ ⦃d : Decimals⦄ where
  open d use {Decimal}

  module _ (env : Env) (id : ℕ) (user : AuthUser) (db : Db Decimal) where
    approve-rows :
        (dto : ApproveDto) (s : Submission Decimal)
        → find sale_id id db.submissions ≡ some s
        → let ys = (approve env id dto user db).1.submissions in
          (ys ≡ db.submissions)
          ⊎ ((s.status ≡ pending) × (ys ≡ modify sale_id id (with_request env user) db.submissions))
          ⊎ ((s.status ≡ pending)
              × (ys ≡ modify sale_id id (with_approval env dto user) db.submissions))
    unfolding approve
    approve-rows dto s found = ground arith

    pub approve-Evolves :
        (dto : ApproveDto) → Evolves db.submissions (approve env id dto user db).1.submissions
    unfolding approve
    approve-Evolves dto = elim (Option-cases (find sale_id id db.submissions)) [
      | inl missing ↦ same_rows db (approve env id dto user db).1 (ground arith)
      | inr (s, found) ↦ elim (approve-rows dto s found) [
        | inl same ↦ same_rows db (approve env id dto user db).1 same
        | inr (inl (e, rows)) ↦
            written id (with_request env user) db (approve env id dto user db).1 s (λ _. refl) found
              (with_request-Moves env user s e) rows
        | inr (inr (e, rows)) ↦
            written id (with_approval env dto user) db (approve env id dto user db).1 s (λ _. refl)
              found (with_approval-Moves env dto user s e) rows
      ]
    ]

    reject-rows :
        (reason : String) (s : Submission Decimal)
        → find sale_id id db.submissions ≡ some s
        → let ys = (reject env id reason user db).1.submissions in
          (ys ≡ db.submissions)
          ⊎ ((s.status ≡ pending)
              × (ys ≡ modify sale_id id (with_rejection env reason) db.submissions))
    unfolding reject
    reject-rows reason s found = ground arith

    pub reject-Evolves :
        (reason : String) → Evolves db.submissions (reject env id reason user db).1.submissions
    unfolding reject
    reject-Evolves reason =
        evolves id db (reject env id reason user db).1 (λ missing. ground arith)
          λ s found. elim (reject-rows reason s found) [
            | inl same ↦ inl same
            | inr (e, rows) ↦
                inr
                  (with_rejection env reason, λ _. refl, with_rejection-Moves env reason s e, rows)
          ]

    return_to_sales-rows :
        (note : String) (s : Submission Decimal)
        → find sale_id id db.submissions ≡ some s
        → let ys = (return_to_sales env id note user db).1.submissions in
          (ys ≡ db.submissions)
          ⊎ ((s.status ≡ pending) × (ys ≡ modify sale_id id (with_return note) db.submissions))
    unfolding return_to_sales
    return_to_sales-rows note s found = ground arith

    pub return_to_sales-Evolves :
        (note : String) → Evolves db.submissions (return_to_sales env id note user db).1.submissions
    unfolding return_to_sales
    return_to_sales-Evolves note =
        evolves id db (return_to_sales env id note user db).1 (λ missing. ground arith)
          λ s found. elim (return_to_sales-rows note s found) [
            | inl same ↦ inl same
            | inr (e, rows) ↦ inr (with_return note, λ _. refl, with_return-Moves note s e, rows)
          ]
