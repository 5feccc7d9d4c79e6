-- ===== src/Submissions/Review/SignOff.antt =====
-- The two-person rule of `approve` (backend/src/submissions/submissions.service.ts).
use vfw.Prelude.{ℕ, ◌≡◌, ◌≢◌, refl, true, none, some, if◌then◌else◌, ◌==◌, not, ◌||◌, arith}
use vfw.Decimal.{Decimals}
use vfw.Acl.{AuthUser}
use vfw.Store.{Submission, pending, approved, Db, Env}
use vfw.Store.Table.{find, modify, find-modify}
use vfw.Store.Call.{ok, err, bad_request, server_error}
use vfw.Submissions.{sale_id, has_account}
use vfw.Submissions.Review.{
  ApproveDto, with_request, with_approval, decided, override_requested, discount_question, approve,
}

module _ ⦃d : Decimals⦄ where
  open d use {Decimal}

  module _ (env : Env) (id : ℕ) (dto : ApproveDto) (user : AuthUser) (db : Db Decimal)
      (s : Submission Decimal) where
    -- A sale whose discount exceeds the threshold is approved only on a request that somebody else
    -- recorded, and then it is pending no more: one person alone cannot carry it through.
    pub approve_needs_two :
        (t : Submission Decimal)
        → find sale_id id db.submissions ≡ some s
        → (discount_question s db).exceeds_threshold ≡ true
        → (approve env id dto user db).0 ≡ ok (decided t)
        → (s.override_requested_by ≢ none)
          × (s.override_requested_by ≢ some user.id)
          × (t.status ≡ approved)
          × (t.approved_by ≡ some user.id)
          × (t.override_requested_by ≡ none)
    unfolding approve
    approve_needs_two t found exceeds done = ground arith

  module _ (id : ℕ) (db : Db Decimal) (s : Submission Decimal) where
    -- The first call on a pending sale above the threshold answers that a request was recorded: the
    -- row carries who asked, and is otherwise, like every other row, as it was.
    approve-request :
        (env : Env) (dto : ApproveDto) (user : AuthUser)
        → find sale_id id db.submissions ≡ some s
        → s.status ≡ pending
        → (discount_question s db).exceeds_threshold ≡ true
        → s.override_requested_by ≡ none
        → let (r, db') = approve env id dto user db in
          (r ≡ ok (override_requested (with_request env user s)))
          × (db'.submissions ≡ modify sale_id id (with_request env user) db.submissions)
          × (db'.settings ≡ db.settings)
          × (db'.gl_accounts ≡ db.gl_accounts)
    unfolding approve
    approve-request env dto user found still exceeds fresh = ground arith

    approve-second :
        (env : Env) (dto : ApproveDto) (user : AuthUser) (requester : ℕ)
        → find sale_id id db.submissions ≡ some s
        → s.status ≡ pending
        → (discount_question s db).exceeds_threshold ≡ true
        → s.override_requested_by ≡ some requester
        → (approve env id dto user db).0 ≡ (
            if requester == user.id
            then err bad_request
            else if not (not s.package_customized || dto.acknowledge_custom_package)
            then err bad_request
            else if has_account dto.gl_account db.gl_accounts
            then ok (decided (with_approval env dto user s))
            else err server_error)
    unfolding approve
    approve-second env dto user requester found still exceeds asked = ground arith

  module _ (id : ℕ) (db : Db Decimal) (s : Submission Decimal) where
    -- Two calls in a row on a pending sale above the threshold that nobody has asked about: the first
    -- records a request and the second approves the sale for a different user who acknowledges a
    -- customized package and names no account or one that exists. It is refused as a bad request for
    -- the same user, or without the acknowledgement, and otherwise fails as a server error where it
    -- names an account that does not exist.
    pub approve_twice :
        (env₁ env₂ : Env) (dto₁ dto₂ : ApproveDto) (maker checker : AuthUser)
        → find sale_id id db.submissions ≡ some s
        → s.status ≡ pending
        → (discount_question s db).exceeds_threshold ≡ true
        → s.override_requested_by ≡ none
        → let (first, db') = approve env₁ id dto₁ maker db in
          let asked = with_request env₁ maker s in
          (first ≡ ok (override_requested asked))
          × ((approve env₂ id dto₂ checker db').0 ≡ (
              if maker.id == checker.id
              then err bad_request
              else if not (not s.package_customized || dto₂.acknowledge_custom_package)
              then err bad_request
              else if has_account dto₂.gl_account db.gl_accounts
              then ok (decided (with_approval env₂ dto₂ checker asked))
              else err server_error))
    approve_twice env₁ env₂ dto₁ dto₂ maker checker found still exceeds fresh =
        let (first, rows, same, accounts) =
          approve-request id db s env₁ dto₁ maker found still exceeds fresh in
        let later = (approve env₁ id dto₁ maker db).1 in
        let asked = with_request env₁ maker s in
        let hit : find sale_id id later.submissions ≡ some asked =
          rw (rows, find-modify sale_id id id (with_request env₁ maker) db.submissions (λ _. refl))
            (ground (arith, found)) in
        let question : (discount_question asked later).exceeds_threshold ≡ true = rw same exceeds in
        (
          first,
          rw accounts at
              (approve-second id later asked env₂ dto₂ checker maker.id hit still question refl),
        )
