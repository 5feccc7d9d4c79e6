-- ===== src/Submissions/Voiding.antt =====
-- backend/src/submissions/submissions.service.ts: `void` and `unvoid`, the soft delete.
pub mod Restore
use vfw.Prelude.{ℕ, ◌==◌, not, Option, none, some}
use vfw.Acl.{AuthUser}
use vfw.Store.{Submission, SubmissionStatus, draft, voided, voided_action, restored, Env}
use vfw.Store.Call.{Call, bad_request, pure, guard, transaction, ◌>>=◌, ◌>>◌}
use vfw.Submissions.{status_index, ◌is◌, load, save, log}

-- `submission.voidedFrom ?? DRAFT`
abbrev pub restore_to : Option SubmissionStatus → SubmissionStatus
restore_to none = draft
restore_to (some s) = s

module _ {D : Type 0} where
  -- The data that `void` and `unvoid` write, from the row that was read.
  abbrev pub with_void : Env → AuthUser → SubmissionStatus → Submission D → Submission D
  with_void env user from t = record t {
    status = voided;
    voided_from = some from;
    voided_at = some env.now;
    voided_by = some user.id;
  }

  abbrev pub with_restore : Option SubmissionStatus → Submission D → Submission D
  with_restore from t = record t {
    status = restore_to from;
    voided_from = none;
    voided_at = none;
    voided_by = none;
  }

  unfoldable pub void : Env → ℕ → AuthUser → Call D (Submission D)
  unfolding load status_index save log
  void env id user = transaction do
    s ← load id
    guard (not (s.status is voided)) bad_request
    updated ← save id (with_void env user s.status)
    log id user voided_action none
    pure updated

  unfoldable pub unvoid : ℕ → AuthUser → Call D (Submission D)
  unfolding load status_index save log
  unvoid id user = transaction do
    s ← load id
    guard (s.status is voided) bad_request
    updated ← save id (with_restore s.voided_from)
    log id user restored none
    pure updated
