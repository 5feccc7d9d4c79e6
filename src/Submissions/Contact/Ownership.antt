-- ===== src/Submissions/Contact/Ownership.antt =====
-- Whose contact a sale may overwrite (backend/src/submissions/submissions.service.ts).
use Prim.Native.String.{String}
use vfw.Prelude.{ℕ, ◌≡◌, false, some, arith}
use vfw.Decimal.{Decimals}
use vfw.Acl.{AuthUser}
use vfw.Store.{Contact, ContactDetails, Db, Env}
use vfw.Store.Call.{ok}
use vfw.Submissions.Sale.{Catalogue, SaleDto}
use vfw.Submissions.Contact.{find_brand, may_edit_contact, resolve_contact}
use vfw.Submissions.Entry.{create}
use vfw.Submissions.Editing.{update}

module _ {D : Type 0} where
  resolve_contact_foreign :
      (env : Env) (brand : String) (details : ContactDetails) (user : AuthUser) (db : Db D)
      (c : Contact)
      → find_brand brand db.contacts ≡ some c
      → may_edit_contact user c db ≡ false
      → resolve_contact env brand details user db ≡ (ok c, db)
  unfolding resolve_contact
  resolve_contact_foreign env brand details user db c found shut = ground arith

module _ ⦃d : Decimals⦄ where
  open d use {Decimal}

  module _ (env : Env) (cat : Catalogue Decimal) (dto : SaleDto Decimal) (user : AuthUser)
      (db : Db Decimal) (c : Contact) where
    create-contacts :
        resolve_contact env dto.brand dto.details user db ≡ (ok c, db)
        → (create env cat dto user db).1.contacts ≡ db.contacts
    unfolding create
    create-contacts kept = ground arith

    update-contacts :
        (id : ℕ)
        → resolve_contact env dto.brand dto.details user db ≡ (ok c, db)
        → (update env cat id dto user db).1.contacts ≡ db.contacts
    unfolding update
    update-contacts id kept = ground arith

    -- Neither entering a sale nor editing one changes a contact, where the brand's contact is one that
    -- the user may not edit: somebody else's, whom the user has never sold to, and the user does not
    -- see all sales.
    foreign_contact_kept :
        (id : ℕ)
        → find_brand dto.brand db.contacts ≡ some c
        → may_edit_contact user c db ≡ false
        → ((create env cat dto user db).1.contacts ≡ db.contacts)
          × ((update env cat id dto user db).1.contacts ≡ db.contacts)
    foreign_contact_kept id found shut =
        let kept = resolve_contact_foreign env dto.brand dto.details user db c found shut in
        (create-contacts kept, update-contacts id kept)
