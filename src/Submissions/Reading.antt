-- ===== src/Submissions/Reading.antt =====
-- backend/src/submissions/submissions.service.ts: the reads, `scopeFor`, `list`, `listVoided`,
-- `findOne`, `queue` and `ledger`. Lists come in the order of the table: the `orderBy` clauses are not
-- modelled.
pub mod Scope
use vfw.Prelude.{ℕ, ◌==◌, Bool, true, false, ◌||◌, ◌&&◌, not, List, if◌then◌else◌}
use vfw.Acl.{AuthUser, can, submission_view_all, submission_void, submission_queue_view}
use vfw.Store.{Submission, SubmissionStatus, pending, returned, exported, voided, Db}
use vfw.Store.Table.{filter}
use vfw.Store.Call.{Call, not_found, forbidden, pure, get, guard, ◌>>=◌, ◌>>◌}
use vfw.Submissions.{status_index, ◌is◌, load}

module _ {D : Type 0} where
  -- `scopeFor`, as the test that its `where` clause makes of a row.
  unfoldable pub in_scope : AuthUser → Submission D → Bool
  unfolding can
  in_scope user s = can submission_view_all user || s.rep_id == user.id

  unfoldable pub list : AuthUser → Call D (List (Submission D))
  unfolding in_scope filter status_index
  list user = do
    pure (filter (λ s. in_scope user s && not (s.status is voided)) (← get).submissions)

  unfoldable pub list_voided : AuthUser → Call D (List (Submission D))
  unfolding can filter status_index
  list_voided user = do
    guard (can submission_void user) forbidden
    pure (filter (λ s. s.status is voided) (← get).submissions)

  unfoldable pub find_one : ℕ → AuthUser → Call D (Submission D)
  unfolding load in_scope
  find_one id user = do s ← load id; guard (in_scope user s) not_found; pure s

  unfoldable pub queue : AuthUser → Call D (List (Submission D))
  unfolding can in_scope filter status_index
  queue user = do
    guard (can submission_queue_view user) forbidden
    pure (
        filter (λ s. in_scope user s && (s.status is pending || s.status is returned))
          (← get).submissions)

  unfoldable pub ledger : AuthUser → Call D (List (Submission D))
  unfolding in_scope filter status_index
  ledger user = do pure (filter (λ s. in_scope user s && s.status is exported) (← get).submissions)
