-- ===== src/Portal.antt =====
-- backend/src/portal/portal.service.ts: the link that opens the sales of a contact. The columns that serve
-- display alone (reference, show, names) are left out of what it shows; the requests for signatures are
-- the rows that the DocuSign service leaves, in the order in which a query asks for them, and the link
-- to a stored file is a parameter.
pub mod Links
use Prim.Native.String.{String}
use vfw.Prelude.{
  ℕ, ◌+◌, ◌*◌, ◌==◌, ◌&&◌, Bool, true, false, not, Option, none, some, List, [], ◌∷◌, ◌++◌, map,
  if◌then◌else◌,
}
use vfw.Prelude.Words.{same_text}
use vfw.Decimal.{Decimals, r2}
use vfw.Acl.{AuthUser}
use vfw.Pricing.{Currency, PayStatus}
use vfw.Store.{Submission, SubmissionStatus, voided, Contact, Text, Db, Env, portal_link_sent}
use vfw.Store.Portal.{PortalToken}
use vfw.Store.Table.{find, find_where, filter, map_some}
use vfw.Store.Audit.{log_action}
use vfw.Store.Call.{
  Call, bad_request, not_found, server_error, unavailable, pure, get, guard, or_throw, transaction,
  ◌>>=◌, ◌>>◌,
}
use vfw.Roles.{nothing?}
use vfw.Submissions.{◌is◌, sale_id}
use vfw.Payments.{resolve_contact_id}
use vfw.Submissions.Fields.{or_null}
use vfw.Auth.{Platform, write}

-- `enum SignatureRequestStatus`
pub data SignatureStatus : Type 0 where
  sent delivered completed declined cancelled : SignatureStatus

pub record SignedDocument : Type 0 where
  pub storage_key : String
  pub filename : String

-- `model SignatureRequest`
pub record SignatureRequest : Type 0 where
  pub submission_id : ℕ
  pub status : SignatureStatus
  pub sent_at : ℕ
  pub completed_at : Option ℕ
  pub signed_document : Option SignedDocument

pub record Signature : Type 0 where
  pub status : SignatureStatus
  pub sent_at : ℕ
  pub completed_at : Option ℕ

-- `PortalSubmission`
pub record PortalSubmission (D : Type 0) : Type 0 where
  pub id : ℕ
  pub status : SubmissionStatus
  pub currency : Currency
  pub total : D
  pub paid_amount : D
  pub balance : D
  pub pay_status : PayStatus
  pub invoice_no : Option Text
  pub signature : Option Signature

-- `PortalData`
pub record PortalData (D : Type 0) : Type 0 where
  pub brand : String
  pub designer : String
  pub company : Option String
  pub submissions : List (PortalSubmission D)

-- `PORTAL_TOKEN_TTL_DAYS` in milliseconds
abbrev pub link_ttl : ℕ
link_ttl = 60 * 86_400_000

abbrev pub has_link : Text → PortalToken → Bool
has_link token t = same_text t.token token

abbrev pub is_completed : SignatureStatus → Bool
is_completed completed = true
is_completed _ = false

abbrev pub signature_of : SignatureRequest → Signature
signature_of r = record { status = r.status; sent_at = r.sent_at; completed_at = r.completed_at }

-- The newest request of a sale, of the requests with the one that was sent last first.
unfoldable pub latest_signature : ℕ → List SignatureRequest → Option Signature
unfolding find_where
latest_signature id requests =
    map_some signature_of (find_where (λ r. r.submission_id == id) requests)

-- A completed request whose signed copy is stored.
abbrev pub is_signed : ℕ → SignatureRequest → Bool
is_signed id r = r.submission_id == id && is_completed r.status && not (nothing? r.signed_document)

abbrev pub contact_key : Contact → ℕ
contact_key c = c.id

abbrev pub fresh_link : Env → Text → ℕ → PortalToken
fresh_link env token contact_id = record {
  token = token;
  contact_id = contact_id;
  expires_at = env.now + link_ttl;
}

module _ {D : Type 0} where
  abbrev pub with_links : List PortalToken → Db D → Db D
  with_links rows db = record db { portal = record db.portal { tokens = rows } }

  -- The transaction of `sendLink`. The token is the key of its table.
  unfoldable pub issue_link : Env → Text → ℕ → AuthUser → Call D (Unit {0})
  unfolding find_where same_text log_action
  issue_link env token contact_id user = transaction do
    db ← get
    guard (nothing? (find_where (has_link token) db.portal.tokens)) server_error
    write λ db'. with_links (db'.portal.tokens ++ (fresh_link env token contact_id ∷ [])) db'
    log_action none user.id portal_link_sent

  -- `sendLink`, given the token that is drawn and whether the mail goes out.
  unfoldable pub send_link : Platform → Env → Text → Bool → ℕ → AuthUser → Call D String
  unfolding find issue_link
  send_link platform env token mailed contact_id user = do
    db ← get
    contact ← or_throw not_found (find contact_key contact_id db.contacts)
    address ← or_throw bad_request (or_null contact.details.email)
    guard platform.email_configured unavailable
    issue_link env token contact_id user
    guard mailed unavailable
    pure address

  -- The sales of a contact that are not voided.
  abbrev pub is_open_to : ℕ → Submission D → Bool
  is_open_to contact_id s = s.contact_id == contact_id && not (s.status is voided)

  -- `signedContractUrl`, of the requests with the one that was completed last first.
  unfoldable pub signed_contract_url :
      (SignedDocument → String) → Env → List SignatureRequest → Text → ℕ → Call D (String × String)
  unfolding resolve_contact_id find_where
  signed_contract_url presign env requests token id = do
    contact_id ← resolve_contact_id env token
    db ← get
    s ←
        or_throw not_found
          (find_where (λ s. s.id == id && s.contact_id == contact_id) db.submissions)
    r ← or_throw not_found (find_where (is_signed s.id) requests)
    document ← or_throw not_found r.signed_document
    pure (presign document, document.filename)

module _ ⦃d : Decimals⦄ where
  open d use {Decimal}

  abbrev pub shown_sale : List SignatureRequest → Submission Decimal → PortalSubmission Decimal
  shown_sale requests s = record {
    id = s.id;
    status = s.status;
    currency = s.figures.currency;
    total = r2 s.figures.total;
    paid_amount = r2 s.figures.paid_amount;
    balance = r2 s.figures.balance;
    pay_status = s.figures.pay_status;
    invoice_no = s.invoice_no;
    signature = latest_signature s.id requests;
  }

  -- What a contact is shown.
  unfoldable pub portal_of :
      List SignatureRequest → Contact → List (Submission Decimal) → PortalData Decimal
  unfolding latest_signature filter
  portal_of requests contact sales = record {
    brand = contact.brand;
    designer = contact.details.designer;
    company = contact.details.company;
    submissions = map (shown_sale requests) (filter (is_open_to contact.id) sales);
  }

  -- `getPortalData`
  unfoldable pub get_portal_data :
      Env → List SignatureRequest → Text → Call Decimal (PortalData Decimal)
  unfolding resolve_contact_id find portal_of
  get_portal_data env requests token = do
    contact_id ← resolve_contact_id env token
    db ← get
    contact ← or_throw server_error (find contact_key contact_id db.contacts)
    pure (portal_of requests contact db.submissions)
