-- ===== src/Portal/Links.antt =====
-- How long a link of backend/src/portal/portal.service.ts opens, and what it shows.
use Prim.Native.String.{String}
use vfw.Prelude.{
  ℕ, ◌+◌, ◌==◌, ◌&&◌, not, ◌≡◌, ◌∙◌, ap, Bool, true, false, some, List, [], ◌∷◌, ◌++◌, refl, arith,
  ltb, none, Option, Option-cases, Bool-cases, inl, inr, if◌then◌else◌,
}
use vfw.Prelude.Digits.{same_text_refl}
use vfw.Decimal.{Decimals, r2}
use vfw.Acl.{AuthUser}
use vfw.Store.{Submission, SubmissionStatus, voided, Contact, Text, Db, Env}
use vfw.Store.Portal.{PortalToken}
use vfw.Store.Table.{find, find_where, filter, find_key}
use vfw.Store.Call.{ok, err, not_found}
use vfw.Payments.{live_token, resolve_contact_id}
use vfw.Auth.{Platform}
use vfw.Submissions.{status_index, ◌is◌}
use vfw.Portal.{
  SignatureRequest, Signature, PortalSubmission, PortalData, latest_signature, link_ttl, has_link,
  contact_key, fresh_link, issue_link, send_link, portal_of, get_portal_data,
}

-- A link with a new token is the one that its token finds, for as long as it lives.
fresh_opens :
    (now : ℕ) (link : PortalToken) (rows : List PortalToken)
    → find_where (has_link link.token) rows ≡ none
    → live_token now link.token (rows ++ (link ∷ []))
      ≡ (if ltb now link.expires_at then some link.contact_id else none)
unfolding find_where live_token
fresh_opens now link [] h = ground (arith, same_text_refl link.token)
fresh_opens now link (t ∷ rest) h = ground (arith, fresh_opens now link rest)

module _ {D : Type 0} where
  sent_inv :
      (platform : Platform) (env : Env) (token : Text) (mailed : Bool) (contact_id : ℕ)
      (user : AuthUser) (db : Db D) (address : String)
      → (send_link platform env token mailed contact_id user db).0 ≡ ok address
      → (contact : Contact) × (find contact_key contact_id db.contacts ≡ some contact)
        × (find_where (has_link token) db.portal.tokens ≡ none)
        × ((send_link platform env token mailed contact_id user db).1.portal.tokens
            ≡ db.portal.tokens ++ (fresh_link env token contact_id ∷ []))
        × ((send_link platform env token mailed contact_id user db).1.contacts ≡ db.contacts)
        × ((send_link platform env token mailed contact_id user db).1.submissions ≡ db.submissions)
  unfolding send_link issue_link
  sent_inv platform env token mailed contact_id user db address done =
      elim (Option-cases (find contact_key contact_id db.contacts)) [
        | inl gone ↦ ground arith
        | inr (contact, there) ↦
            (contact, there, ground arith, ground arith, ground arith, ground arith)
      ]

abbrev pub is_live : SubmissionStatus → Bool
is_live voided = false
is_live _ = true

live_lem : (s : SubmissionStatus) → not (s is voided) ≡ is_live s
unfolding status_index
live_lem SubmissionStatus.draft = refl
live_lem SubmissionStatus.pending = refl
live_lem SubmissionStatus.returned = refl
live_lem SubmissionStatus.approved = refl
live_lem SubmissionStatus.rejected = refl
live_lem SubmissionStatus.exported = refl
live_lem SubmissionStatus.voided = refl

-- The request for a signature that was sent last, of the requests with the last one first.
abbrev pub newest : ℕ → List SignatureRequest → Option Signature
newest id [] = none
newest id (r ∷ rest) =
    if r.submission_id == id
    then some (record { status = r.status; sent_at = r.sent_at; completed_at = r.completed_at })
    else newest id rest

newest_lem : (id : ℕ) (rs : List SignatureRequest) → latest_signature id rs ≡ newest id rs
unfolding latest_signature find_where
newest_lem id [] = refl
newest_lem id (r ∷ rest) = elim (Bool-cases (r.submission_id == id)) [
  | inl own ↦ rw own refl
  | inr other ↦ rw other (newest_lem id rest)
]

-- Sixty days in milliseconds.
abbrev pub sixty_days : ℕ
sixty_days = 5_184_000_000

module _ ⦃d : Decimals⦄ where
  open d use {Decimal}

  opens :
      (later : Env) (requests : List SignatureRequest) (c : ℕ) (cs : Text) (id : ℕ) (alive : Bool)
      (contact : Contact) (db : Db Decimal)
      → live_token later.now (c ∷ cs) db.portal.tokens ≡ (if alive then some id else none)
      → find contact_key id db.contacts ≡ some contact
      → (get_portal_data later requests (c ∷ cs) db).0
        ≡ (if alive then ok (portal_of requests contact db.submissions) else err not_found)
  unfolding get_portal_data resolve_contact_id
  opens later requests c cs id true contact db live there = rw live (ground arith)
  opens later requests c cs id false contact db live there = rw live refl

  -- What the page of a contact shows, written out: the contact's own sales that are not voided, in the order
  -- of the table, each with what its row says.
  abbrev pub shown : List SignatureRequest → Submission Decimal → PortalSubmission Decimal
  shown requests s = record {
    id = s.id;
    status = s.status;
    currency = s.figures.currency;
    total = r2 s.figures.total;
    paid_amount = r2 s.figures.paid_amount;
    balance = r2 s.figures.balance;
    pay_status = s.figures.pay_status;
    invoice_no = s.invoice_no;
    signature = newest s.id requests;
  }

  abbrev pub page :
      List SignatureRequest → ℕ → List (Submission Decimal) → List (PortalSubmission Decimal)
  page requests contact_id [] = []
  page requests contact_id (s ∷ rest) =
      if s.contact_id == contact_id && is_live s.status
      then shown requests s ∷ page requests contact_id rest
      else page requests contact_id rest

  abbrev pub seen : List SignatureRequest → Contact → ℕ → Db Decimal → PortalData Decimal
  seen requests contact contact_id db = record {
    brand = contact.brand;
    designer = contact.details.designer;
    company = contact.details.company;
    submissions = page requests contact_id db.submissions;
  }

  portal_of-page :
      (requests : List SignatureRequest) (contact : Contact) (sales : List (Submission Decimal))
      → (portal_of requests contact sales).submissions ≡ page requests contact.id sales
  unfolding portal_of filter status_index
  portal_of-page requests contact [] = refl
  portal_of-page requests contact (s ∷ rest) =
      ground
        (arith, portal_of-page requests contact rest, live_lem s.status, newest_lem s.id requests)

  link_opens_as_coded :
      (platform : Platform) (env : Env) (c : ℕ) (cs : Text) (mailed : Bool) (contact_id : ℕ)
      (user : AuthUser) (db : Db Decimal) (address : String) (contact : Contact) (later : Env)
      (requests : List SignatureRequest)
      → find contact_key contact_id db.contacts ≡ some contact
      → (send_link platform env (c ∷ cs) mailed contact_id user db).0 ≡ ok address
      → (get_portal_data later requests
          (c ∷ cs)
          (send_link platform env (c ∷ cs) mailed contact_id user db).1).0
        ≡ (if ltb later.now (env.now + link_ttl)
            then ok (portal_of requests contact db.submissions)
            else err not_found)
  link_opens_as_coded platform env c cs mailed contact_id user db address contact later requests
        there done =
      let (contact', there', new, links, same_contacts, same_sales) =
        sent_inv platform env (c ∷ cs) mailed contact_id user db address done in
      let db' = (send_link platform env (c ∷ cs) mailed contact_id user db).1 in
      let live =
        ap (live_token later.now (c ∷ cs)) links
        ∙ fresh_opens later.now (fresh_link env (c ∷ cs) contact_id) db.portal.tokens new in
      let at_contact = ap (find contact_key contact_id) same_contacts ∙ there in
      opens later requests c cs contact_id (ltb later.now (env.now + link_ttl)) contact db' live
        at_contact
      ∙ ap
          (λ sales.
            if ltb later.now (env.now + link_ttl)
            then ok (portal_of requests contact sales)
            else err not_found)
          same_sales

  -- A link that `sendLink` has mailed shows to anyone who has it, until sixty days have passed, the brand and
  -- the names of the contact it was sent to and the contact's sales that are not voided, no others, with
  -- the figures of their rows and the newest request for a signature; after that it shows nothing. The
  -- token that is drawn is not blank.
  pub link_opens :
      (platform : Platform) (env : Env) (c : ℕ) (cs : Text) (mailed : Bool) (contact_id : ℕ)
      (user : AuthUser) (db : Db Decimal) (address : String) (contact : Contact) (later : Env)
      (requests : List SignatureRequest)
      → find contact_key contact_id db.contacts ≡ some contact
      → (send_link platform env (c ∷ cs) mailed contact_id user db).0 ≡ ok address
      → (get_portal_data later requests
          (c ∷ cs)
          (send_link platform env (c ∷ cs) mailed contact_id user db).1).0
        ≡ (if ltb later.now (env.now + sixty_days)
            then ok (seen requests contact contact_id db)
            else err not_found)
  link_opens platform env c cs mailed contact_id user db address contact later requests there done =
      let id : contact.id ≡ contact_id =
        find_key contact_key contact_id db.contacts contact there in
      let listed = portal_of-page requests contact db.submissions in
      let shows : portal_of requests contact db.submissions ≡ seen requests contact contact.id db =
        unfold portal_of in
        λ i. record (seen requests contact contact.id db) { submissions = listed i } in
      link_opens_as_coded platform env c cs mailed contact_id user db address contact later requests
        there done
      ∙ ap (λ p. if ltb later.now (env.now + link_ttl) then ok p else err not_found)
          (shows ∙ ap (λ n. seen requests contact n db) id)
