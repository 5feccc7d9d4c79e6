-- ===== src/Submissions/Lifecycle/Moves.antt =====
-- How one call on one sale of backend/src/submissions/submissions.service.ts takes the table of sales
-- along the edges of the lifecycle.
use Prim.Native.String.{String}
use vfw.Prelude.{ℕ, ◌≡◌, ◌≢◌, ◌⊎◌, inl, inr, Option, none, some, arith, Option-cases}
use vfw.Acl.{AuthUser}
use vfw.Store.{Submission, SubmissionStatus, pending, voided, Db, Env}
use vfw.Store.Table.{find, modify}
use vfw.Submissions.{sale_id}
use vfw.Submissions.Review.{ApproveDto, with_request, with_approval, with_rejection, with_return}
use vfw.Submissions.Voiding.{with_void, with_restore, restore_to}
use vfw.Submissions.Lifecycle
use vfw.Submissions.Lifecycle.{
  standing, stage, ◌⟶◌, ◌⟶*◌, IsSound, Evolves, Evolves-refl, Evolves-trans, Evolves-modify, here,
  next,
}

standing_live :
    (x : SubmissionStatus) (from : Option SubmissionStatus) → x ≢ voided → standing x from ≡ x
standing_live x from live = ground arith

module _ {D : Type 0} where
  abbrev pub Moves : Submission D → Submission D → Type 0
  Moves s t = IsSound s → (stage s ⟶* stage t) × IsSound t

  pub one_step : (s t : Submission D) → stage s ⟶ stage t → (IsSound s → IsSound t) → Moves s t
  one_step s t e sound h = (next e here, sound h)

  -- A call that found no sale, or that wrote nothing.
  pub same_rows :
      (db db' : Db D) → db'.submissions ≡ db.submissions → Evolves db.submissions db'.submissions
  same_rows db db' e = rw e (Evolves-refl db.submissions)

  -- A call that wrote the sale it found.
  pub written :
      (id : ℕ) (f : Submission D → Submission D) (db db' : Db D) (s : Submission D)
      → ((x : Submission D) → (f x).id ≡ x.id)
      → find sale_id id db.submissions ≡ some s
      → Moves s (f s)
      → db'.submissions ≡ modify sale_id id f db.submissions
      → Evolves db.submissions db'.submissions
  written id f db db' s keeps found moves e =
      rw e (Evolves-modify id f db.submissions s keeps found moves)

  -- The two ends of a call on one sale: no such sale, or a row that stays or moves.
  pub evolves :
      (id : ℕ) (db db' : Db D)
      → (find sale_id id db.submissions ≡ none → db'.submissions ≡ db.submissions)
      → ((s : Submission D)
          → find sale_id id db.submissions ≡ some s
          → (db'.submissions ≡ db.submissions)
            ⊎ ((f : Submission D → Submission D) × ((x : Submission D) → (f x).id ≡ x.id)
                × Moves s (f s)
                × (db'.submissions ≡ modify sale_id id f db.submissions)))
      → Evolves db.submissions db'.submissions
  evolves id db db' none_there there = elim (Option-cases (find sale_id id db.submissions)) [
    | inl missing ↦ same_rows db db' (none_there missing)
    | inr (s, found) ↦ elim (there s found) [
      | inl same ↦ same_rows db db' same
      | inr (f, keeps, moves, rows) ↦ written id f db db' s keeps found moves rows
    ]
  ]

  pub with_request-Moves :
      (env : Env) (user : AuthUser) (s : Submission D)
      → s.status ≡ pending
      → Moves s (with_request env user s)
  with_request-Moves env user s e h = (here, ground arith)

  pub with_approval-Moves :
      (env : Env) (dto : ApproveDto) (user : AuthUser) (s : Submission D)
      → s.status ≡ pending
      → Moves s (with_approval env dto user s)
  with_approval-Moves env dto user s e h = (rw e (next Lifecycle.approve here), ground arith)

  pub with_rejection-Moves :
      (env : Env) (reason : String) (s : Submission D)
      → s.status ≡ pending
      → Moves s (with_rejection env reason s)
  with_rejection-Moves env reason s e h = (rw e (next Lifecycle.reject here), ground arith)

  pub with_return-Moves :
      (note : String) (s : Submission D) → s.status ≡ pending → Moves s (with_return note s)
  with_return-Moves note s e h = (rw e (next Lifecycle.return here), ground arith)

  -- Any row written with the same status, the same memory of a void, and no mark taken away.
  pub keeps_standing :
      (s t : Submission D)
      → t.status ≡ s.status
      → t.voided_from ≡ s.voided_from
      → t.override_requested_by ≡ s.override_requested_by
      → t.approved_by ≡ s.approved_by
      → t.qb_doc_number ≡ s.qb_doc_number
      → Moves s t
  keeps_standing s t a b c e f h = (rw (a, b) here, ground arith)

  pub void-Moves :
      (env : Env) (user : AuthUser) (s : Submission D)
      → s.status ≢ voided
      → Moves s (with_void env user s.status s)
  void-Moves env user s live h = (rw (standing_live s.status s.voided_from live) here, ground arith)

  pub unvoid-Moves : (s : Submission D) → s.status ≡ voided → Moves s (with_restore s.voided_from s)
  unvoid-Moves s dead h = (
    rw (dead, standing_live (restore_to s.voided_from) none (ground (arith, h.remembers))) here,
    ground (arith, h.remembers),
  )
