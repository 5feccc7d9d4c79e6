-- ===== src/Submissions.antt =====
-- backend/src/submissions/submissions.service.ts: what its methods share. Each child models a group
-- of methods, and each grandchild holds what is proved of them.
pub mod Review
pub mod Ledger
pub mod Lifecycle
pub mod Editing
pub mod Entry
pub mod Sale
pub mod Contact
pub mod Export
pub mod Fields
pub mod Reading
pub mod Invoice
pub mod Voiding
use Prim.Native.String.{String}
use text.Mathlib.Text.{◌==◌ as str_eq}
use vfw.Prelude.{ℕ, ◌==◌, ◌||◌, Bool, true, false, Option, none, some, List, [], ◌∷◌}
use vfw.Decimal.{Decimals}
use vfw.Acl.{AuthUser}
use vfw.Store.{Submission, SubmissionStatus, AuditAction, AuditEntry, Db}
use vfw.Store.Table.{find, modify}
use vfw.Store.Call.{Call, not_found, pure, get, put, or_throw, ◌>>=◌, ◌>>◌}

-- Statuses are compared by their place in the enum.
unfoldable pub status_index : SubmissionStatus → ℕ
status_index SubmissionStatus.draft = 0
status_index SubmissionStatus.pending = 1
status_index SubmissionStatus.returned = 2
status_index SubmissionStatus.approved = 3
status_index SubmissionStatus.rejected = 4
status_index SubmissionStatus.exported = 5
status_index SubmissionStatus.voided = 6

infix 50 ◌is◌
abbrev pub ◌is◌ : SubmissionStatus → SubmissionStatus → Bool
s is t = status_index s == status_index t

-- The foreign key on `glCode`: a code that is written has to be one of the accounts.
unfoldable pub names_account : String → List String → Bool
names_account code [] = false
names_account code (a ∷ rest) = str_eq a code || names_account code rest

abbrev pub has_account : Option String → List String → Bool
has_account none accounts = true
has_account (some code) accounts = names_account code accounts

module _ {D : Type 0} where
  -- The key column of `model Submission`.
  abbrev pub sale_id : Submission D → ℕ
  sale_id s = s.id

  -- `submission.findUnique({ where: { id } })`, and a 404 where there is none.
  unfoldable pub load : ℕ → Call D (Submission D)
  unfolding find
  load id = do or_throw not_found (find sale_id id (← get).submissions)

  -- `submission.update({ where: { id }, data })`, which returns the new row.
  unfoldable pub save : ℕ → (Submission D → Submission D) → Call D (Submission D)
  unfolding find modify
  save id change = do
    db ← get
    s ← or_throw not_found (find sale_id id db.submissions)
    put (record db { submissions = modify sale_id id change db.submissions })
    pure (change s)

  -- `audit.log`, the newest entry first.
  unfoldable pub log : ℕ → AuthUser → AuditAction → Option ℕ → Call D (Unit {0})
  log id user action requested_by = do
    db ← get
    put (record db {
      audit =
          record {
            submission_id = some id;
            actor_id = user.id;
            action = action;
            requested_by = requested_by;
          }
          ∷ db.audit;
    })
