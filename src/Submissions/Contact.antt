-- ===== src/Submissions/Contact.antt =====
-- backend/src/submissions/submissions.service.ts: `resolveContact`, which finds or makes the contact of a
-- sale, and who may overwrite one.
pub mod Ownership
use Prim.Native.String.{String}
use text.Mathlib.Text.{◌==◌ as str_eq}
use vfw.Prelude.{
  ℕ, ◌==◌, ◌&&◌, ◌||◌, Bool, false, Option, none, some, List, [], ◌∷◌, ◌++◌, if◌then◌else◌,
}
use vfw.Acl.{AuthUser, can, submission_view_all}
use vfw.Store.{Submission, Contact, ContactDetails, Db, Env}
use vfw.Store.Table.{modify, or_else}
use vfw.Store.Call.{Call, pure, get, put, ◌>>=◌, ◌>>◌}

-- `contact.findUnique({ where: { brand } })`
unfoldable pub find_brand : String → List Contact → Option Contact
find_brand brand [] = none
find_brand brand (c ∷ cs) = if str_eq c.brand brand then some c else find_brand brand cs

-- `submission.count({ where: { contactId, repId } }) > 0`
unfoldable pub has_sold_to : {D : Type 0} → ℕ → ℕ → List (Submission D) → Bool
has_sold_to contact_id rep_id [] = false
has_sold_to contact_id rep_id (s ∷ ss) =
    (s.contact_id == contact_id && s.rep_id == rep_id) || has_sold_to contact_id rep_id ss

-- `contact.update` with the details that were sent: a column that was left out stays.
abbrev pub with_details : ContactDetails → ContactDetails → ContactDetails
with_details sent stored = record {
  designer = sent.designer;
  company = or_else sent.company stored.company;
  email = or_else sent.email stored.email;
  phone = or_else sent.phone stored.phone;
  country = or_else sent.country stored.country;
}

module _ {D : Type 0} where
  -- `mayEdit` of `resolveContact`
  unfoldable pub may_edit_contact : AuthUser → Contact → Db D → Bool
  unfolding can has_sold_to
  may_edit_contact user c db =
      can submission_view_all user
      || c.created_by == user.id
      || has_sold_to c.id user.id db.submissions

  -- `resolveContact`. The upsert of a new brand has nobody to race with here.
  unfoldable pub resolve_contact : Env → String → ContactDetails → AuthUser → Call D Contact
  unfolding find_brand may_edit_contact modify
  resolve_contact env brand details user = do
    db ← get
    elim (find_brand brand db.contacts) [
      | none ↦
          let created : Contact = record {
            id = env.new_id;
            brand = brand;
            details = details;
            created_by = user.id;
            is_test_data = env.test_data_mode;
          } in
          put (record db { contacts = db.contacts ++ (created ∷ []) }) >> pure created
      | some c ↦
          if may_edit_contact user c db
          then put (record db {
            contacts =
                modify (λ x. x.id) c.id (λ x. record x { details = with_details details x.details })
                  db.contacts;
          })
            >> pure (record c { details = with_details details c.details })
          else pure c
    ]
