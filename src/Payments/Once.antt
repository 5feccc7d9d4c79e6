-- ===== src/Payments/Once.antt =====
-- Deliveries one after another (backend/src/payments/payments.service.ts, `postPayment`).
use mathlib.Core.Option.{some-injective}
use vfw.Prelude.{
  ℕ, ◌≡◌, ◌∙◌, refl, sym, ap, true, false, Option, none, some, List, [], ◌∷◌, ◌++◌, arith,
  Bool-cases, Option-cases, inl, inr,
}
use vfw.Decimal.{Decimals}
use vfw.Store.{Submission, Payment, Db, Env}
use vfw.Store.Staff.{Account}
use vfw.Prelude.Words.{same_text}
use vfw.Store.Portal.{Checkout, awaited, completed}
use vfw.Store.Table.{find, modify, find-modify, All, map_some}
use vfw.Submissions.{sale_id}
use vfw.Submissions.Ledger.{payments_of, price_existing, with_priced}
use vfw.Payments.{StripeSession}
use vfw.Payments.Claim.{find_status, completed_row, is_confirmed, unconfirmed, replayed, posted}
use vfw.Payments.Webhook.{
  system_user_email, find_email, add_account, session_key, checkout_id, claimed, paid_by,
  system_user, system_user_id, card_payment, post_payment,
}

-- A completed session as it arrives.
pub record Delivery : Type 0 where
  pub env : Env
  pub session : StripeSession

abbrev or_new : ℕ → Option ℕ → ℕ
or_new n none = n
or_new n (some u) = u

module _ ⦃d : Decimals⦄ where
  open d use {Decimal}

  -- Completed sessions that Stripe delivers one after another.
  abbrev pub deliver : Delivery → Db Decimal → Db Decimal
  deliver d db = (post_payment d.env d.session db).1

  abbrev pub deliver_all : List Delivery → Db Decimal → Db Decimal
  deliver_all [] db = db
  deliver_all (d ∷ ds) db = deliver_all ds (deliver d db)

  abbrev pub first_confirmed : Checkout Decimal → List Delivery → Option Delivery
  first_confirmed c [] = none
  first_confirmed c (d ∷ ds) = elim (is_confirmed c d.session) [
    | true ↦ some d
    | false ↦ first_confirmed c ds
  ]

  module _ (id u : ℕ) where
    closed_stays :
        (c : Checkout Decimal) (ds : List Delivery) (db : Db Decimal)
        → find_email system_user_email db.staff.accounts ≡ some u
        → find session_key id db.portal.checkouts ≡ some c
        → c.status ≡ completed
        → All (λ d. d.session.id ≡ id) ds
        → deliver_all ds db ≡ db
    closed_stays c [] db known row closed same = refl
    closed_stays c (d ∷ ds) db known row closed (is_id, same) =
        let here : find session_key d.session.id db.portal.checkouts ≡ some c = rw is_id row in
        let still : deliver d db ≡ db =
          ap (λ p. p.1) (replayed d.env d.session u db c known here closed) in
        ap (deliver_all ds) still ∙ closed_stays c ds db known row closed same

    -- The row stands closed once it was claimed and linked.
    closed_after :
        (n k : ℕ) (c : Checkout Decimal) (rows : List (Checkout Decimal))
        → find session_key id rows ≡ some c
        → (t : Checkout Decimal) × (find session_key id
              (modify checkout_id k (paid_by n) (modify session_key id claimed rows))
            ≡ some t)
          × (t.status ≡ completed)
    closed_after n k c rows row =
        let set = modify session_key id claimed rows in
        let linked = modify checkout_id k (paid_by n) set in
        let here : find session_key id set ≡ some (claimed c) =
          find-modify session_key id id claimed rows (λ _. refl) ∙ ground (arith, row) in
        completed_row (find session_key id linked) (
          find_status id k (paid_by n) set (λ _. refl) (λ _. refl)
          ∙ ap (map_some (λ x. x.status)) here)

    -- What a sequence of deliveries does is what the first confirmed one does alone.
    alone :
        (c : Checkout Decimal) (s : Submission Decimal) (ds : List Delivery) (db : Db Decimal)
        → find_email system_user_email db.staff.accounts ≡ some u
        → find session_key id db.portal.checkouts ≡ some c
        → c.status ≡ awaited
        → find sale_id c.submission_id db.submissions ≡ some s
        → All (λ d. d.session.id ≡ id) ds
        → deliver_all ds db ≡ elim (first_confirmed c ds) [ none ↦ db | some d ↦ deliver d db ]
    alone c s [] db known row open_row sold same = refl
    alone c s (d ∷ ds) db known row open_row sold (is_id, same) =
        let here : find session_key d.session.id db.portal.checkouts ≡ some c = rw is_id row in
        elim (Bool-cases (is_confirmed c d.session)) [
          | inl good ↦
              let (_, _, _, staff, rows) =
                posted d.env d.session u db c known here s open_row good sold in
              let (t, there, closed) = closed_after d.env.new_id c.id c db.portal.checkouts row in
              let after = deliver d db in
              rw good (
                closed_stays t ds after
                  (ap (λ x. find_email system_user_email x.accounts) staff ∙ known)
                  (ap (find session_key id) rows ∙ rw is_id there) closed same)
          | inr bad ↦
              let still : deliver d db ≡ db =
                ap (λ p. p.1) (unconfirmed d.env d.session u db c known here open_row bad) in
              rw bad (ap (deliver_all ds) still ∙ alone c s ds db known row open_row sold same)
        ]

  find_email-append :
      (xs : List (Account Decimal)) (env : Env)
      → find_email system_user_email xs ≡ none
      → find_email system_user_email (xs ++ (system_user env ∷ [])) ≡ some env.new_id
  unfolding find_email same_text
  find_email-append [] env e = refl
  find_email-append (x ∷ xs) env e = ground (arith, find_email-append xs env)

  -- The first delivery creates the service user where there is none, and goes on as if it had stood.
  module _ (env : Env) (session : StripeSession) (db : Db Decimal) where
    same_post :
        find_email system_user_email db.staff.accounts ≡ none
        → let db' = add_account (system_user env) db in
          find_email system_user_email db'.staff.accounts ≡ some env.new_id
          → post_payment env session db ≡ post_payment env session db'
    unfolding post_payment system_user_id
    same_post missing there = ground arith

  -- The payment that a sequence of deliveries puts on the ledger, and the sale that it leaves.
  abbrev pub ledger_after :
      ℕ
      → Checkout Decimal
      → Submission Decimal
      → Option Delivery
      → List (Payment Decimal)
      → List (Payment Decimal)
  ledger_after u c s none ledger = ledger
  ledger_after u c s (some d) ledger = ledger ++ (card_payment d.env u d.session c s ∷ [])

  abbrev pub sales_after :
      Checkout Decimal
      → Submission Decimal
      → Option Delivery
      → List (Payment Decimal)
      → List (Submission Decimal)
      → List (Submission Decimal)
  sales_after c s none ledger sales = sales
  sales_after c s (some d) ledger sales =
      modify sale_id c.submission_id
        (with_priced (price_existing s.figures (payments_of c.submission_id ledger))) sales

  -- The service user: the one that stands, or the one that the first delivery creates.
  abbrev pub recorder : List Delivery → Db Decimal → ℕ
  recorder [] db = 0
  recorder (d ∷ _) db = or_new d.env.new_id (find_email system_user_email db.staff.accounts)

  module _ (id : ℕ) (c : Checkout Decimal) (s : Submission Decimal) where
    first_keeps :
        (ds : List Delivery) (d : Delivery)
        → All (λ d. d.session.id ≡ id) ds
        → first_confirmed c ds ≡ some d
        → (d.session.id ≡ id) × (is_confirmed c d.session ≡ true)
    first_keeps [] d same e = ground arith
    first_keeps (x ∷ ds) d (is_id, same) e = elim (Bool-cases (is_confirmed c x.session)) [
      | inl good ↦
          let is_x : x ≡ d = some-injective _ _ (rw (first_confirmed, good) at e) in
          rw (sym is_x) (is_id, good)
      | inr bad ↦ first_keeps ds d same (rw (first_confirmed, bad) at e)
    ]

    posted_known :
        (u : ℕ) (ds : List Delivery) (db : Db Decimal)
        → find_email system_user_email db.staff.accounts ≡ some u
        → find session_key id db.portal.checkouts ≡ some c
        → c.status ≡ awaited
        → find sale_id c.submission_id db.submissions ≡ some s
        → All (λ d. d.session.id ≡ id) ds
        → let db' = deliver_all ds db in
          let first = first_confirmed c ds in
          (db'.payments ≡ ledger_after u c s first db.payments)
          × (db'.submissions ≡ sales_after c s first db'.payments db.submissions)
    posted_known u ds db known row open_row sold same =
        let merged = alone id u c s ds db known row open_row sold same in
        elim (Option-cases (first_confirmed c ds)) [
          | inl never ↦ rw (merged, never) (refl, refl)
          | inr (d, first) ↦
              let (is_id, good) = first_keeps ds d same first in
              let here : find session_key d.session.id db.portal.checkouts ≡ some c =
                rw is_id row in
              let (_, ledger, rows, _, _) =
                posted d.env d.session u db c known here s open_row good sold in
              rw (merged, first) (ledger, rw ledger rows)
        ]

    -- Whatever completed deliveries of one session arrive, in any number and order: the ledger gets one
    -- payment, for the first delivery whose total is the amount that was asked for, or none when there
    -- is no such delivery; the payment has the amount and the currency of the checkout and is recorded
    -- by the service user, and the sale's payment figures are recomputed from the ledger with it. The
    -- row of the session is open and its sale exists when the first delivery arrives.
    pub deliver_all_once :
        (ds : List Delivery) (db : Db Decimal)
        → find session_key id db.portal.checkouts ≡ some c
        → c.status ≡ awaited
        → find sale_id c.submission_id db.submissions ≡ some s
        → All (λ d. d.session.id ≡ id) ds
        → let db' = deliver_all ds db in
          let first = first_confirmed c ds in
          (db'.payments ≡ ledger_after (recorder ds db) c s first db.payments)
          × (db'.submissions ≡ sales_after c s first db'.payments db.submissions)
    deliver_all_once [] db row open_row sold same = (refl, refl)
    deliver_all_once (d ∷ ds) db row open_row sold same =
        elim (Option-cases (find_email system_user_email db.staff.accounts)) [
          | inr (u, known) ↦ rw known (posted_known u (d ∷ ds) db known row open_row sold same)
          | inl missing ↦
              let db' = add_account (system_user d.env) db in
              let there = find_email-append db.staff.accounts d.env missing in
              let as_if =
                ap (λ p. deliver_all ds p.1) (same_post d.env d.session db missing there) in
              rw (missing, as_if)
                (posted_known d.env.new_id (d ∷ ds) db' there row open_row sold same)
        ]
