-- ===== src/Examples/Decisions.antt =====
-- Decisions on the sale of Examples.antt, and runs of requests.
use vfw.Prelude.{ℕ, ◌≡◌, ◌≢◌, ◌⊎◌, inl, refl, false, Option, none, some, List, [], ◌∷◌, arith}
use vfw.Decimal.Fixed.{fixed}
use vfw.Pricing.{discount_approval}
use vfw.Acl.{AuthUser}
use vfw.Store.{Submission, pending, approved, exported, rejected, Text}
use vfw.Store.Table.{find}
use vfw.Store.Call.{ok}
use vfw.Submissions.{sale_id, names_account}
use vfw.Submissions.Review.{
  ApproveDto, approve, decided, override_requested, with_request, with_approval,
}
use vfw.Submissions.Review.SignOff.{approve_needs_two, approve_twice}
use vfw.Submissions.Export.{QuickBooks, Posted}
use vfw.Submissions.Lifecycle.{stage, ◌⟶*◌, IsSound}
use vfw.Submissions.Lifecycle.Runs.{
  Request, Step, run, run_keeps_IsSound, decisions_are_final, approval_lasts,
}
use vfw.Examples.{
  Amount, sale, sale-IsSound, approved_sale, approved_sale-IsSound, holding, env, maker, checker,
  seller, catalogue, dto,
}

abbrev plain : ApproveDto
plain = record { gl_account = none; cost_centre = none; acknowledge_custom_package = false }

abbrev offline : QuickBooks Amount
offline = record {
  is_connected = false;
  is_production = false;
  post = λ s doc number. Posted.refused "";
}

abbrev by : AuthUser → Request Amount → Step Amount
by user r = record {
  env = env;
  user = user;
  catalogue = catalogue;
  quickbooks = offline;
  request = r;
}

-- A reader of numbers that knows none.
abbrev unread : Text → Option ℕ
unread t = none

-- The request of one, the approval of the other, the export, a void and an edit.
abbrev requests : List (Step Amount)
requests =
    by maker (Request.approve 10 plain)
    ∷ by checker (Request.approve 10 plain)
    ∷ by checker (Request.export 10 none)
    ∷ by maker (Request.void 10)
    ∷ by seller (Request.update 10 dto)
    ∷ []

run_keeps_IsSound_example :
    (t : Submission Amount) × (find sale_id 10 (run unread requests (holding sale)).submissions
      ≡ some t)
    × (pending ⟶* stage t)
    × IsSound t
unfolding find
run_keeps_IsSound_example =
    run_keeps_IsSound unread requests (holding sale) 10 sale refl sale-IsSound

abbrev rejected_sale : Submission Amount
rejected_sale = record sale { status = rejected }

rejected_sale-IsSound : IsSound rejected_sale
rejected_sale-IsSound = record {
  remembers = λ e. ground arith;
  live = λ e. refl;
  asks = λ e. ground arith;
  signed = λ e. ground arith;
  posted = λ e. ground arith;
}

decisions_are_final_example :
    (t : Submission Amount) × (find sale_id 10
        (run unread requests (holding rejected_sale)).submissions
      ≡ some t)
    × (stage t ≡ rejected)
unfolding find
decisions_are_final_example =
    decisions_are_final unread requests (holding rejected_sale) 10 rejected_sale refl
      rejected_sale-IsSound (inl refl)

approval_lasts_example :
    (t : Submission Amount) × (find sale_id 10
        (run unread requests (holding approved_sale)).submissions
      ≡ some t)
    × ((stage t ≡ approved) ⊎ (stage t ≡ exported))
    × (t.approved_by ≢ none)
unfolding find
approval_lasts_example =
    approval_lasts unread requests (holding approved_sale) 10 approved_sale refl
      approved_sale-IsSound refl

-- Somebody else has asked.
abbrev asked_sale : Submission Amount
asked_sale = with_request env maker sale

approve_needs_two_example :
    (asked_sale.override_requested_by ≢ none)
    × (asked_sale.override_requested_by ≢ some checker.id)
    × ((with_approval env plain checker asked_sale).status ≡ approved)
    × ((with_approval env plain checker asked_sale).approved_by ≡ some checker.id)
    × ((with_approval env plain checker asked_sale).override_requested_by ≡ none)
unfolding find discount_approval approve
approve_needs_two_example =
    approve_needs_two env 10 plain checker (holding asked_sale) asked_sale
      (with_approval env plain checker asked_sale) refl refl refl

-- The second approval names an account.
abbrev booked : ApproveDto
booked = record plain { gl_account = some "4050" }

approve_twice_example :
    let (first, db') = approve env 10 plain maker (holding sale) in
    (first ≡ ok (override_requested asked_sale))
    × ((approve env 10 booked checker db').0
        ≡ ok (decided (with_approval env booked checker asked_sale)))
unfolding find discount_approval names_account
approve_twice_example =
    approve_twice 10 (holding sale) sale env env plain booked maker checker refl refl refl refl
