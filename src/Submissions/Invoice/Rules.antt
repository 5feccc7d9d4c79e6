-- ===== src/Submissions/Invoice/Rules.antt =====
-- Who numbers a sale, and when (backend/src/submissions/submissions.service.ts).
use vfw.Prelude.{
  ℕ, if◌then◌else◌, suc, ◌+◌, ◌/◌, ◌%◌, ◌≡◌, ap, ◌≢◌, ◌⊎◌, refl, true, false, Option, none, some,
  [], ◌∷◌, ◌++◌, arith,
}
use vfw.Prelude.Words.{decimal, digits, trim, same_text}
use vfw.Acl.{AuthUser, can, invoice_generate}
use vfw.Store.{Submission, Settings, Text, Db, approved, rejected, exported, voided}
use vfw.Store.Table.{find, modify, find-modify}
use vfw.Store.Call.{ok, err, bad_request}
use vfw.Submissions.{sale_id}
use vfw.Submissions.Invoice.{
  InvoiceBrand, vfw_brand, gfc_brand, invoice_brand, next_no, step_seq, has_number, holds_number,
  with_number, generate_invoice, set_invoice_no, find_number,
}
use vfw.Submissions.Editing.{is_decided, may_edit}

-- A number that is written out is not empty, nor is one with a prefix.
snoc_written : (xs : Text) (x : ℕ) → xs ++ (x ∷ []) ≢ []
snoc_written [] x e = cc
snoc_written (y ∷ xs) x e = cc

digits_written : (fuel n : ℕ) → digits (suc fuel) n ≢ []
unfolding digits
digits_written fuel n e = ground (arith, snoc_written (digits fuel (n / 10)) (48 + n % 10))

pub decimal_written : (n : ℕ) → decimal n ≢ []
unfolding decimal
decimal_written n e = digits_written n n e

has_number_after : (xs ys : Text) → ys ≢ [] → has_number (some (xs ++ ys)) ≡ true
has_number_after [] ys real = ground arith
has_number_after (x ∷ xs) ys real = refl

pub has_number-next_no :
    {D : Type 0} (b : InvoiceBrand) (t : Settings D) → has_number (some (next_no b t)) ≡ true
has_number-next_no vfw_brand t =
    has_number_after t.invoice_prefix (decimal t.next_invoice_seq) (decimal_written _)
has_number-next_no gfc_brand t =
    has_number_after t.gfc_invoice_prefix (decimal t.next_gfc_invoice_seq) (decimal_written _)

module _ {D : Type 0} (id : ℕ) (user : AuthUser) (db : Db D) (s : Submission D) where
  generate_invoice-writes :
      (t : Submission D)
      → find sale_id id db.submissions ≡ some s
      → (generate_invoice id user db).0 ≡ ok t
      → let db' = (generate_invoice id user db).1 in
        let number = next_no (invoice_brand s.city) db.settings in
        ((s.status ≡ approved) ⊎ (s.status ≡ exported))
        × (has_number s.invoice_no ≡ false)
        × (t ≡ with_number number s)
        × (db'.submissions ≡ modify sale_id id (with_number number) db.submissions)
        × (db'.settings ≡ step_seq (invoice_brand s.city) db.settings)
  unfolding generate_invoice
  generate_invoice-writes t found done = ground arith

  generate_invoice_numbered :
      (number : Text)
      → find sale_id id db.submissions ≡ some s
      → s.invoice_no ≡ some number
      → has_number (some number) ≡ true
      → generate_invoice id user db ≡ (err bad_request, db)
  unfolding generate_invoice
  generate_invoice_numbered number found has real = ground arith

module _ {D : Type 0} (id : ℕ) (db : Db D) (s : Submission D) where
  -- A sale gets a generated number once: the call that gives it one finds an approved or exported sale
  -- without a number, and takes the next one of the sequence of the sale's city, which moves on; the
  -- same call after that, by anyone, is refused as a bad request and changes nothing.
  generate_invoice_once :
      (user user' : AuthUser) (t : Submission D)
      → find sale_id id db.submissions ≡ some s
      → (generate_invoice id user db).0 ≡ ok t
      → let db' = (generate_invoice id user db).1 in
        ((s.status ≡ approved) ⊎ (s.status ≡ exported))
        × (has_number s.invoice_no ≡ false)
        × (t.invoice_no ≡ some (next_no (invoice_brand s.city) db.settings))
        × (db'.settings ≡ step_seq (invoice_brand s.city) db.settings)
        × (generate_invoice id user' db' ≡ (err bad_request, db'))
  generate_invoice_once user user' t found done =
      let (status, bare, new, rows, settings) = generate_invoice-writes id user db s t found done in
      let number = next_no (invoice_brand s.city) db.settings in
      let later = (generate_invoice id user db).1 in
      let hit : find sale_id id later.submissions ≡ some (with_number number s) =
        rw (rows, find-modify sale_id id id (with_number number) db.submissions (λ _. refl))
          (ground (arith, found)) in
      (
        status,
        bare,
        ap (λ x. x.invoice_no) new,
        settings,
        generate_invoice_numbered id user' later (with_number number s) number hit refl
            (has_number-next_no (invoice_brand s.city) db.settings),
      )

same_text_exact : (a b : Text) → same_text a b ≡ true → a ≡ b
unfolding same_text
same_text_exact [] [] e = refl
same_text_exact [] (y ∷ ys) e = cc
same_text_exact (x ∷ xs) [] e = cc
same_text_exact (x ∷ xs) (y ∷ ys) e = ground (arith, same_text_exact xs ys)

pub holds_number_exact :
    (o : Option Text) (number : Text) → holds_number o number ≡ true → o ≡ some number
unfolding holds_number
holds_number_exact none number e = cc
holds_number_exact (some t) number e = ap some (same_text_exact t number e)

module _ {D : Type 0} (to_number : Text → Option ℕ) (id : ℕ) (invoice_no : Text) (user : AuthUser)
    (db : Db D) (s : Submission D) where
  -- A number set by hand is the trimmed text. Whoever sets it may generate invoices if the sale is
  -- approved or exported, and may edit the sale otherwise; a rejected or voided sale takes none; and
  -- no sale had that number, unless it was this one.
  pub set_invoice_no_rules :
      (t : Submission D)
      → find sale_id id db.submissions ≡ some s
      → (set_invoice_no to_number id invoice_no user db).0 ≡ ok t
      → (t.invoice_no ≡ some (trim invoice_no))
        × (t.status ≡ s.status)
        × ((if is_decided s.status then can invoice_generate user else may_edit user s) ≡ true)
        × (s.status ≢ rejected)
        × (s.status ≢ voided)
        × ((t ≡ s) ⊎ (find_number (trim invoice_no) db.submissions ≡ none))
  unfolding set_invoice_no may_edit
  set_invoice_no_rules t found done =
      ground (arith, holds_number_exact s.invoice_no (trim invoice_no))
