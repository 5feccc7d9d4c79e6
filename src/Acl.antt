-- ===== src/Acl.antt =====
-- backend/src/common/acl.ts: the permissions, the built-in roles, the default matrix and the one
-- test `can` that every guarded call goes through.
use vfw.Prelude.{ℕ, Bool, false, ◌||◌, List, [], ◌∷◌, if◌then◌else◌, ◌==◌}

-- `keyof typeof ACL`: `submission.create` is `submission_create`.
pub data Permission : Type 0 where
  submission_create submission_edit_own submission_edit_any submission_view_all : Permission
  submission_queue_view submission_approve submission_reject submission_return : Permission
  submission_void accounting_fields quickbooks_export invoice_generate : Permission
  installment_plan installment_mark reports_view leaderboard_view : Permission
  contacts_view contacts_create feedback_view feedback_record : Permission
  internal_comment internal_view messaging_use : Permission
  email_view_own email_view_all email_send admin_manage : Permission
  attendance_mark attendance_view_team payroll_view_own payroll_view_all : Permission
  payroll_submit payroll_approve payroll_manage_tiers activity_view : Permission

pub data BuiltInRole : Type 0 where
  sales intern acct mgr admin : BuiltInRole

-- Permissions and role keys are strings in the source: here a place in the list of constructors,
-- so that a comparison is one of numbers.
unfoldable pub index : Permission → ℕ
index submission_create = 0
index submission_edit_own = 1
index submission_edit_any = 2
index submission_view_all = 3
index submission_queue_view = 4
index submission_approve = 5
index submission_reject = 6
index submission_return = 7
index submission_void = 8
index accounting_fields = 9
index quickbooks_export = 10
index invoice_generate = 11
index installment_plan = 12
index installment_mark = 13
index reports_view = 14
index leaderboard_view = 15
index contacts_view = 16
index contacts_create = 17
index feedback_view = 18
index feedback_record = 19
index internal_comment = 20
index internal_view = 21
index messaging_use = 22
index email_view_own = 23
index email_view_all = 24
index email_send = 25
index admin_manage = 26
index attendance_mark = 27
index attendance_view_team = 28
index payroll_view_own = 29
index payroll_view_all = 30
index payroll_submit = 31
index payroll_approve = 32
index payroll_manage_tiers = 33
index activity_view = 34

unfoldable pub role_index : BuiltInRole → ℕ
role_index sales = 0
role_index intern = 1
role_index acct = 2
role_index mgr = 3
role_index admin = 4

-- The members of `BUILT_IN_ROLES` as the texts that they are.
unfoldable pub role_key : BuiltInRole → List ℕ
role_key sales = b'S' ∷ b'A' ∷ b'L' ∷ b'E' ∷ b'S' ∷ []
role_key intern = b'I' ∷ b'N' ∷ b'T' ∷ b'E' ∷ b'R' ∷ b'N' ∷ []
role_key acct = b'A' ∷ b'C' ∷ b'C' ∷ b'T' ∷ []
role_key mgr = b'M' ∷ b'G' ∷ b'R' ∷ []
role_key admin = b'A' ∷ b'D' ∷ b'M' ∷ b'I' ∷ b'N' ∷ []

-- `xs.includes(x)`, for keys that are compared by their number.
abbrev pub includes {ℓ} : {A : Type ℓ} → (A → ℕ) → List A → A → Bool
includes key [] x = false
includes key (y ∷ ys) x = key y == key x || includes key ys x

abbrev everyone : List BuiltInRole
everyone = sales ∷ intern ∷ acct ∷ mgr ∷ admin ∷ []

abbrev accounting : List BuiltInRole
accounting = acct ∷ admin ∷ []

abbrev oversight : List BuiltInRole
oversight = acct ∷ mgr ∷ admin ∷ []

-- The constant `ACL`: the built-in roles that hold each permission by default.
unfoldable pub acl : Permission → List BuiltInRole
acl submission_create = everyone
acl submission_edit_own = everyone
acl submission_edit_any = accounting
acl submission_view_all = oversight
acl submission_queue_view = sales ∷ acct ∷ admin ∷ []
acl submission_approve = accounting
acl submission_reject = accounting
acl submission_return = accounting
acl submission_void = accounting
acl accounting_fields = accounting
acl quickbooks_export = accounting
acl invoice_generate = accounting
acl installment_plan = everyone
acl installment_mark = everyone
acl reports_view = oversight
acl leaderboard_view = admin ∷ []
acl contacts_view = sales ∷ acct ∷ mgr ∷ admin ∷ []
acl contacts_create = sales ∷ acct ∷ admin ∷ []
acl feedback_view = mgr ∷ admin ∷ acct ∷ []
acl feedback_record = mgr ∷ admin ∷ acct ∷ sales ∷ []
acl internal_comment = oversight
acl internal_view = oversight
acl messaging_use = everyone
acl email_view_own = everyone
acl email_view_all = oversight
acl email_send = accounting
acl admin_manage = accounting
acl attendance_mark = everyone
acl attendance_view_team = oversight
acl payroll_view_own = everyone
acl payroll_view_all = accounting
acl payroll_submit = everyone
acl payroll_approve = accounting
acl payroll_manage_tiers = accounting
acl activity_view = accounting

-- `Object.keys(ACL)`, in the order of the source.
abbrev pub all_permissions : List Permission
all_permissions =
    submission_create ∷ submission_edit_own ∷ submission_edit_any ∷ submission_view_all
    ∷ submission_queue_view ∷ submission_approve ∷ submission_reject ∷ submission_return
    ∷ submission_void ∷ accounting_fields ∷ quickbooks_export ∷ invoice_generate ∷ installment_plan
    ∷ installment_mark ∷ reports_view ∷ leaderboard_view ∷ contacts_view ∷ contacts_create
    ∷ feedback_view ∷ feedback_record ∷ internal_comment ∷ internal_view ∷ messaging_use
    ∷ email_view_own ∷ email_view_all ∷ email_send ∷ admin_manage ∷ attendance_mark
    ∷ attendance_view_team ∷ payroll_view_own ∷ payroll_view_all ∷ payroll_submit ∷ payroll_approve
    ∷ payroll_manage_tiers ∷ activity_view ∷ []

-- `xs.filter(p)`, with a Boolean test.
abbrev pub keep {ℓ} : {A : Type ℓ} → (A → Bool) → List A → List A
keep p [] = []
keep p (x ∷ xs) = if p x then x ∷ keep p xs else keep p xs

-- `defaultPermissions`
unfoldable pub default_permissions : BuiltInRole → List Permission
unfolding acl role_index
default_permissions role = keep (λ p. includes role_index (acl p) role) all_permissions

-- The signed-in user as `verifySession` built it, with the permissions of the role.
pub record AuthUser : Type 0 where
  pub id : ℕ
  -- The key of the role.
  pub role : List ℕ
  pub permissions : List Permission

unfoldable pub can : Permission → AuthUser → Bool
unfolding index
can permission who = includes index who.permissions permission
