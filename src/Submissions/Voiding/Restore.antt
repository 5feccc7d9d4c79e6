-- ===== src/Submissions/Voiding/Restore.antt =====
-- What a void and its undoing leave behind (backend/src/submissions/submissions.service.ts).
use vfw.Prelude.{ℕ, ◌≡◌, ◌≢◌, refl, none, some, arith}
use vfw.Acl.{AuthUser}
use vfw.Store.{Submission, voided, Db, Env}
use vfw.Store.Table.{find, modify, find-modify, find-modify_back}
use vfw.Store.Call.{ok}
use vfw.Submissions.{sale_id}
use vfw.Submissions.Voiding.{void, unvoid, with_void, with_restore}

module _ {D : Type 0} (id : ℕ) where
  void-writes :
      (env : Env) (user : AuthUser) (db : Db D) (s : Submission D)
      → find sale_id id db.submissions ≡ some s
      → s.status ≢ voided
      → (void env id user db).1.submissions
        ≡ modify sale_id id (with_void env user s.status) db.submissions
  unfolding void
  void-writes env user db s found live = ground arith

  unvoid-writes :
      (user : AuthUser) (db : Db D) (s : Submission D)
      → find sale_id id db.submissions ≡ some s
      → s.status ≡ voided
      → let (r, db') = unvoid id user db in
        (r ≡ ok (with_restore s.voided_from s))
        × (db'.submissions ≡ modify sale_id id (with_restore s.voided_from) db.submissions)
  unfolding unvoid
  unvoid-writes user db s found dead = ground arith

module _ {D : Type 0} (id : ℕ) (db : Db D) (s : Submission D) where
  -- Voiding a sale that is not voided and carries no trace of a void, and undoing that, whoever does
  -- either and whenever, answers with the sale as it was and leaves every row of the table as it was.
  pub unvoid-void :
      (env : Env) (user user' : AuthUser) (j : ℕ)
      → find sale_id id db.submissions ≡ some s
      → s.status ≢ voided
      → s.voided_from ≡ none
      → s.voided_at ≡ none
      → s.voided_by ≡ none
      → let (r, db') = unvoid id user' (void env id user db).1 in
        (r ≡ ok s) × (find sale_id j db'.submissions ≡ find sale_id j db.submissions)
  unvoid-void env user user' j found live a b c =
      let away = (void env id user db).1 in
      let gone = with_void env user s.status s in
      let wrote = void-writes id env user db s found live in
      let hit : find sale_id id away.submissions ≡ some gone =
        rw
          (
            wrote,
            find-modify sale_id id id (with_void env user s.status) db.submissions (λ _. refl),
          )
          (ground (arith, found)) in
      let (back, rows) = unvoid-writes id user' away gone hit refl in
      let same : with_restore (some s.status) gone ≡ s = ground arith in
      (
        rw back (rw same refl),
        rw (rows, wrote)
            (find-modify_back sale_id id j (with_void env user s.status)
              (with_restore (some s.status)) db.submissions s (λ _. refl) (λ _. refl) found same),
      )
