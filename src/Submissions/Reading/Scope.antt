-- ===== src/Submissions/Reading/Scope.antt =====
-- What a user gets to see (backend/src/submissions/submissions.service.ts).
use vfw.Prelude.{ℕ, ◌≡◌, none, some, ◌||◌, ◌==◌, if◌then◌else◌, arith}
use vfw.Acl.{AuthUser, can, submission_view_all}
use vfw.Store.{Submission, Db}
use vfw.Store.Table.{find}
use vfw.Store.Call.{ok}
use vfw.Submissions.{sale_id}
use vfw.Submissions.Reading.{in_scope, find_one}

module _ {D : Type 0} (id : ℕ) (user : AuthUser) where
  -- A sale is read by a user who may see all sales or made this one; for any other user the answer is
  -- the one for a sale that does not exist.
  find_one_scoped :
      (db db' : Db D) (s : Submission D)
      → find sale_id id db.submissions ≡ some s
      → find sale_id id db'.submissions ≡ none
      → (find_one id user db).0 ≡ (
          if can submission_view_all user || s.rep_id == user.id
          then ok s
          else (find_one id user db').0)
  unfolding find_one in_scope
  find_one_scoped db db' s found missing = ground arith
