-- ===== src/Submissions/Invoice.antt =====
-- backend/src/submissions/submissions.service.ts: `invoiceBrand`, `allocateInvoice`,
-- `advanceSequencePast`, `setInvoiceNo` and `generateInvoice`.
pub mod Numbering
pub mod Rules
use vfw.Prelude.{
  ℕ, ◌+◌, ◌≡◌, Bool, true, false, ◌||◌, ◌&&◌, not, Option, none, some, List, [], ◌∷◌, ◌++◌, ltb,
  leb, ◌==◌, if◌then◌else◌, length, drop,
}
use vfw.Prelude.Words.{same_text, starts_with, trim, contains_word, decimal}
use vfw.Acl.{AuthUser, can, invoice_generate, submission_edit_any, submission_edit_own}
use vfw.Store.{
  Submission, SubmissionStatus, approved, rejected, exported, voided, Text, Settings, AuditAction,
  invoice_action, invoice_renumbered, Db, Env,
}
use vfw.Store.Call.{
  Call, bad_request, not_found, forbidden, pure, throw, get, put, guard, transaction, ◌>>=◌, ◌>>◌,
}
use vfw.Submissions.{status_index, ◌is◌, load, save, log}

-- `MAX_SEQUENCE`
abbrev pub max_sequence : ℕ
max_sequence = 2_147_483_646

-- "vancouver"
abbrev vancouver : Text
vancouver = b'v' ∷ b'a' ∷ b'n' ∷ b'c' ∷ b'o' ∷ b'u' ∷ b'v' ∷ b'e' ∷ b'r' ∷ []

pub data InvoiceBrand : Type 0 where
  vfw_brand gfc_brand : InvoiceBrand

unfoldable pub invoice_brand : Text → InvoiceBrand
unfolding contains_word
invoice_brand city_name = if contains_word vancouver city_name then vfw_brand else gfc_brand

-- The number that a brand's sequence is about to hand out, and the settings after that.
abbrev pub next_no : {D : Type 0} → InvoiceBrand → Settings D → Text
next_no vfw_brand t = t.invoice_prefix ++ decimal t.next_invoice_seq
next_no gfc_brand t = t.gfc_invoice_prefix ++ decimal t.next_gfc_invoice_seq

abbrev pub step_seq : {D : Type 0} → InvoiceBrand → Settings D → Settings D
step_seq vfw_brand t = record t { next_invoice_seq = t.next_invoice_seq + 1 }
step_seq gfc_brand t = record t { next_gfc_invoice_seq = t.next_gfc_invoice_seq + 1 }

-- `if (submission.invoiceNo)`: a missing or an empty number counts as none.
abbrev pub has_number : Option Text → Bool
has_number none = false
has_number (some []) = false
has_number (some (_ ∷ _)) = true

-- `submission.invoiceNo === number`
unfoldable pub holds_number : Option Text → Text → Bool
unfolding same_text
holds_number none number = false
holds_number (some t) number = same_text t number

module _ {D : Type 0} where
  unfoldable pub allocate_invoice : Text → Call D Text
  unfolding invoice_brand
  allocate_invoice city_name = do
    db ← get
    let brand = invoice_brand city_name
    put (record db { settings = step_seq brand db.settings })
    pure (next_no brand db.settings)

  abbrev pub with_number : Text → Submission D → Submission D
  with_number number t = record t { invoice_no = some number }

  unfoldable pub generate_invoice : ℕ → AuthUser → Call D (Submission D)
  unfolding load status_index allocate_invoice save log
  generate_invoice id user = transaction do
    s ← load id
    guard (s.status is approved || s.status is exported) bad_request
    guard (not (has_number s.invoice_no)) bad_request
    number ← allocate_invoice s.city
    updated ← save id (with_number number)
    log id user invoice_action none
    pure updated

  -- `submission.findUnique({ where: { invoiceNo } })`
  unfoldable pub find_number : Text → List (Submission D) → Option (Submission D)
  unfolding holds_number
  find_number number [] = none
  find_number number (s ∷ ss) =
      if holds_number s.invoice_no number then some s else find_number number ss

  -- Who may set a number by hand, by the status of the sale; the error is what is thrown otherwise.
  unfoldable pub number_gate : Submission D → AuthUser → Call D (Unit {0})
  unfolding status_index can
  number_gate s user =
      if s.status is approved || s.status is exported
      then guard (can invoice_generate user) forbidden
      else if s.status is rejected || s.status is voided
      then throw bad_request
      else guard
          (can submission_edit_any user || (can submission_edit_own user && s.rep_id == user.id))
          not_found

-- `Number(text)`, where that is an integer and not negative.
module _ (to_number : Text → Option ℕ) where
  -- One round of the loop of `advanceSequencePast`: the counter to write, if any.
  unfoldable pub past : Text → ℕ → Text → Option ℕ
  unfolding starts_with
  past [] next number = none
  past (p ∷ ps) next number =
      if not (starts_with (p ∷ ps) number)
      then none
      else elim (to_number (drop (length (p ∷ ps)) number)) [
        | none ↦ none
        | some seq ↦ if ltb seq next || leb max_sequence seq then none else some (seq + 1)
      ]

  unfoldable pub advance : {D : Type 0} → Text → Settings D → Settings D
  unfolding past
  advance number t = elim (past t.invoice_prefix t.next_invoice_seq number) [
    | some seq ↦ record t { next_invoice_seq = seq }
    | none ↦ elim (past t.gfc_invoice_prefix t.next_gfc_invoice_seq number) [
      | some seq ↦ record t { next_gfc_invoice_seq = seq }
      | none ↦ t
    ]
  ]

  unfoldable pub advance_sequence_past : {D : Type 0} → Text → Call D (Unit {0})
  unfolding advance
  advance_sequence_past number = do
    db ← get
    put (record db { settings = advance number db.settings })

  abbrev pub number_action : Option Text → AuditAction
  number_action o = if has_number o then invoice_renumbered else invoice_action

  abbrev pub is_free : {A : Type 0} → Option A → Bool
  is_free none = true
  is_free (some _) = false

  unfoldable pub set_invoice_no : {D : Type 0} → ℕ → Text → AuthUser → Call D (Submission D)
  unfolding load number_gate find_number advance_sequence_past save log trim holds_number
  set_invoice_no id invoice_no user = transaction do
    let number = trim invoice_no
    s ← load id
    number_gate s user
    if holds_number s.invoice_no number then pure s else do
      db ← get
      guard (is_free (find_number number db.submissions)) bad_request
      advance_sequence_past number
      updated ← save id (with_number number)
      log id user (number_action s.invoice_no) none
      pure updated
