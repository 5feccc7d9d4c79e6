-- ===== src/Submissions/Lifecycle/Amend.antt =====
-- `update` and `create` of backend/src/submissions/submissions.service.ts as steps of the lifecycle.
use Prim.Native.String.{String}
use vfw.Submissions.Entry.{create, new_sale}
use vfw.Prelude.{
  ℕ, [], ◌∷◌, ◌++◌, ◌≡◌, ◌≢◌, ◌⊎◌, inl, inr, refl, false, Option, none, some, if◌then◌else◌, arith,
}
use vfw.Decimal.{Decimals}
use vfw.Acl.{AuthUser}
use vfw.Store.{
  Submission, Db, Env, SubmissionStatus, approved, exported, pending, draft, returned, rejected,
  voided, Contact, ContactDetails,
}
use vfw.Store.Table.{find, modify}
use vfw.Store.Call.{ok, err, HttpError, Result-cases}
use vfw.Submissions.{sale_id, status_index}
use vfw.Submissions.Sale.{Catalogue, SaleDto, ResolvedSale, resolve_sale}
use vfw.Submissions.Contact.{resolve_contact}
use vfw.Submissions.Editing.{update, edited, is_dead, is_decided, kept_tax}
use vfw.Submissions.Lifecycle
use vfw.Submissions.Lifecycle.{
  Evolves, Evolves-trans, Evolves-append, IsSound, standing, ◌⟶*◌, here, next,
}
use vfw.Submissions.Lifecycle.Moves.{Moves, same_rows, evolves}

-- Where an edit leaves a sale that is neither rejected nor voided.
way_of_edit :
    (x : SubmissionStatus) (from : Option SubmissionStatus)
    → is_dead x ≡ false
    → standing x from ⟶* standing (if is_decided x then x else pending) from
unfolding status_index
way_of_edit draft from alive = next Lifecycle.submit here
way_of_edit returned from alive = next Lifecycle.resubmit here
way_of_edit pending from alive = here
way_of_edit approved from alive = here
way_of_edit exported from alive = here
way_of_edit rejected from alive = cc
way_of_edit voided from alive = cc

module _ ⦃d : Decimals⦄ where
  open d use {Decimal}

  resolve_contact-rows :
      (env : Env) (brand : String) (details : ContactDetails) (user : AuthUser) (db : Db Decimal)
      → (resolve_contact env brand details user db).1.submissions ≡ db.submissions
  unfolding resolve_contact
  resolve_contact-rows env brand details user db = ground arith

  resolve_contact_ok :
      (env : Env) (brand : String) (details : ContactDetails) (user : AuthUser) (db : Db Decimal)
      (e : HttpError)
      → (resolve_contact env brand details user db).0 ≢ err e
  unfolding resolve_contact
  resolve_contact_ok env brand details user db e failed = ground arith

  new_sale-IsSound :
      (env : Env) (dto : SaleDto Decimal) (sale : ResolvedSale Decimal) (contact : Contact)
      (user : AuthUser)
      → IsSound (new_sale env dto sale contact user)
  new_sale-IsSound env dto sale contact user = record {
    remembers = λ e. ground arith;
    live = λ e. refl;
    asks = λ e. refl;
    signed = λ e. ground arith;
    posted = λ e. ground arith;
  }

  edited-Moves :
      (env : Env) (dto : SaleDto Decimal) (sale : ResolvedSale Decimal) (contact : Contact)
      (s : Submission Decimal)
      → is_dead s.status ≡ false
      → Moves s (edited env dto sale contact s)
  unfolding status_index
  edited-Moves env dto sale contact s alive h = (
    way_of_edit s.status s.voided_from alive,
    ground (arith, h.remembers, h.live, h.signed, h.posted),
  )

  module _ (env : Env) (cat : Catalogue Decimal) (id : ℕ) (dto : SaleDto Decimal) (user : AuthUser)
      (db : Db Decimal) where
    update_refused-rows :
        (s : Submission Decimal) (e : HttpError)
        → find sale_id id db.submissions ≡ some s
        → resolve_sale cat dto s.rep_id (some (kept_tax s.figures)) ≡ err e
        → (update env cat id dto user db).1.submissions ≡ db.submissions
    unfolding update
    update_refused-rows s e found failed = ground arith

    update-rows :
        (s : Submission Decimal) (sale : ResolvedSale Decimal) (contact : Contact)
        → find sale_id id db.submissions ≡ some s
        → resolve_sale cat dto s.rep_id (some (kept_tax s.figures)) ≡ ok sale
        → (resolve_contact env dto.brand dto.details user db).0 ≡ ok contact
        → (resolve_contact env dto.brand dto.details user db).1.submissions ≡ db.submissions
        → let ys = (update env cat id dto user db).1.submissions in
          (ys ≡ db.submissions)
          ⊎ ((is_dead s.status ≡ false)
              × (ys ≡ modify sale_id id (edited env dto sale contact) db.submissions))
    unfolding update
    update-rows s sale contact found sold done same = ground arith

    pub update-Evolves : Evolves db.submissions (update env cat id dto user db).1.submissions
    unfolding update
    update-Evolves =
        evolves id db (update env cat id dto user db).1 (λ missing. ground arith)
          λ s found.
            elim (Result-cases (resolve_sale cat dto s.rep_id (some (kept_tax s.figures)))) [
              | inl (e, failed) ↦ inl (update_refused-rows s e found failed)
              | inr (sale, sold) ↦
                  elim (Result-cases (resolve_contact env dto.brand dto.details user db).0) [
                    | inl (e, failed) ↦
                        elim (resolve_contact_ok env dto.brand dto.details user db e failed) [ ]
                    | inr (contact, done) ↦
                        elim (update-rows s sale contact found sold done
                          (resolve_contact-rows env dto.brand dto.details user db)) [
                            | inl same ↦ inl same
                            | inr (alive, rows) ↦ inr (
                              edited env dto sale contact,
                              λ _. refl,
                              edited-Moves env dto sale contact s alive,
                              rows,
                            )
                          ]
                  ]
            ]

  module _ (env : Env) (cat : Catalogue Decimal) (dto : SaleDto Decimal) (user : AuthUser)
      (db : Db Decimal) where
    create_refused-rows :
        (e : HttpError)
        → resolve_sale cat dto user.id none ≡ err e
        → (create env cat dto user db).1.submissions ≡ db.submissions
    unfolding create
    create_refused-rows e failed = ground arith

    create-rows :
        (sale : ResolvedSale Decimal) (contact : Contact)
        → resolve_sale cat dto user.id none ≡ ok sale
        → (resolve_contact env dto.brand dto.details user db).0 ≡ ok contact
        → (resolve_contact env dto.brand dto.details user db).1.submissions ≡ db.submissions
        → (create env cat dto user db).1.submissions
          ≡ db.submissions ++ (new_sale env dto sale contact user ∷ [])
    unfolding create
    create-rows sale contact sold done same = ground arith

    pub create-Evolves : Evolves db.submissions (create env cat dto user db).1.submissions
    create-Evolves = elim (Result-cases (resolve_sale cat dto user.id none)) [
      | inl (e, failed) ↦ same_rows db (create env cat dto user db).1 (create_refused-rows e failed)
      | inr (sale, sold) ↦
          elim (Result-cases (resolve_contact env dto.brand dto.details user db).0) [
            | inl (e, failed) ↦
                elim (resolve_contact_ok env dto.brand dto.details user db e failed) [ ]
            | inr (contact, done) ↦
                rw
                  (create-rows sale contact sold done
                    (resolve_contact-rows env dto.brand dto.details user db))
                  (Evolves-append db.submissions (new_sale env dto sale contact user)
                    (new_sale-IsSound env dto sale contact user))
          ]
    ]
