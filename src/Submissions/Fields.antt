-- ===== src/Submissions/Fields.antt =====
-- backend/src/submissions/submissions.service.ts: `patch`, the accounting fields.
use Prim.Native.String.{String}
use text.Mathlib.Text.{◌==◌ as str_eq}
use vfw.Prelude.{ℕ, Bool, true, false, ◌||◌, not, Option, none, some, if◌then◌else◌}
use vfw.Acl.{AuthUser}
use vfw.Store.{Submission, reclassified}
use vfw.Store.Call.{Call, bad_request, server_error, pure, get, guard, transaction, ◌>>=◌, ◌>>◌}
use vfw.Submissions.{load, save, log, has_account, names_account}

-- A field that is `undefined` is `none`.
pub record PatchDto : Type 0 where
  pub gl_account : Option String
  pub cost_centre : Option String
  pub department : Option String

-- `dto.x !== undefined && dto.x !== submission.x`
abbrev pub differs : Option String → Option String → Bool
differs none stored = false
differs (some new) none = true
differs (some new) (some old) = not (str_eq new old)

-- `dto.x || null`
abbrev pub or_null : Option String → Option String
or_null none = none
or_null (some text) = if str_eq text "" then none else some text

-- A changed field takes the new value, any other stays.
abbrev pub patched : Option String → Option String → Option String
patched new stored = if differs new stored then or_null new else stored

module _ {D : Type 0} where
  abbrev pub any_change : PatchDto → Submission D → Bool
  any_change dto s =
      differs dto.gl_account s.gl_code
      || differs dto.cost_centre s.cost_centre
      || differs dto.department s.department

  abbrev pub with_fields : PatchDto → Submission D → Submission D → Submission D
  with_fields dto s t = record t {
    gl_code = patched dto.gl_account s.gl_code;
    cost_centre = patched dto.cost_centre s.cost_centre;
    department = patched dto.department s.department;
  }

  -- The account that `connect` looks up.
  abbrev pub connected : PatchDto → Submission D → Option String
  connected dto s = if differs dto.gl_account s.gl_code then or_null dto.gl_account else none

  unfoldable pub patch : ℕ → PatchDto → AuthUser → Call D (Submission D)
  unfolding load save log names_account
  patch id dto user = do
    s ← load id
    guard (any_change dto s) bad_request
    transaction do
      db ← get
      guard (has_account (connected dto s) db.gl_accounts) server_error
      updated ← save id (with_fields dto s)
      log id user reclassified none
      pure updated
