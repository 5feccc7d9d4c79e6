-- ===== src/Examples/Handover.antt =====
-- Numbering, exporting, voiding and reading the sale of Examples.antt.
use vfw.Prelude.{
  ℕ, ◌<◌, ◌≡◌, ◌≢◌, ◌⊎◌, refl, true, false, ◌&&◌, Option, none, some, [], ◌∷◌, if◌then◌else◌, arith,
}
use vfw.Prelude.Words.{decimal, digits, trim, same_text}
use vfw.Decimal.Fixed.{fixed}
use vfw.Acl.{can, invoice_generate, default_permissions}
use vfw.Store.{Submission, approved, exported, Text, rejected, voided}
use vfw.Store.Table.{find}
use vfw.Store.Call.{ok, err, bad_request}
use vfw.Submissions.{sale_id}
use vfw.Submissions.Invoice.{
  set_invoice_no, next_no, invoice_brand, with_number, has_number, find_number,
}
use vfw.Submissions.Invoice.Numbering.{set_invoice_no_ahead}
use vfw.Submissions.Invoice.Rules.{set_invoice_no_rules}
use vfw.Submissions.Export.{QuickBooks, accepted, refused, export, with_sync_error, with_posting}
use vfw.Submissions.Export.Phases.{export_retry, export_success}
use vfw.Submissions.Voiding.{void, unvoid}
use vfw.Submissions.Voiding.Restore.{unvoid-void}
use vfw.Submissions.Editing.{is_decided, may_edit}
use vfw.Examples.{Amount, sale, approved_sale, holding, env, settings, maker, checker}

-- A reader that knows the number 77.
abbrev reads_77 : Text → Option ℕ
reads_77 t = if same_text t (b'7' ∷ b'7' ∷ []) then some 77 else none

abbrev numbered : Submission Amount
numbered = with_number (b'G' ∷ b'-' ∷ b'1' ∷ b'2' ∷ []) approved_sale

abbrev by_hand : Text
by_hand = b'V' ∷ b'-' ∷ b'7' ∷ b'7' ∷ []

set_invoice_no_rules_example :
    (some by_hand ≡ some (trim (32 ∷ by_hand)))
    × (approved ≡ approved)
    × ((if is_decided approved then can invoice_generate maker else may_edit maker approved_sale)
        ≡ true)
    × (approved ≢ rejected)
    × (approved ≢ voided)
    × ((with_number by_hand approved_sale ≡ approved_sale)
        ⊎ (find_number (trim (32 ∷ by_hand)) (holding approved_sale).submissions ≡ none))
unfolding set_invoice_no find trim default_permissions
set_invoice_no_rules_example =
    set_invoice_no_rules reads_77 10 (32 ∷ by_hand) maker (holding approved_sale) approved_sale
      (with_number by_hand approved_sale) refl refl

set_invoice_no_ahead_example :
    77
    < (set_invoice_no reads_77 10
        (32 ∷ by_hand)
        maker
        (holding approved_sale)).1.settings.next_invoice_seq
unfolding decimal digits same_text find trim default_permissions set_invoice_no
set_invoice_no_ahead_example =
    set_invoice_no_ahead reads_77 10 (32 ∷ by_hand) maker (holding approved_sale) approved_sale
      (with_number by_hand approved_sale) 77 refl (omega arith) (λ e. cc) refl (λ e. cc) refl refl

-- A connection that refuses, one that accepts, and none.
abbrev down : QuickBooks Amount
down = record {
  is_connected = true;
  is_production = true;
  post = λ s doc number. refused "Throttled";
}

abbrev up : QuickBooks Amount
up = record {
  is_connected = true;
  is_production = true;
  post = λ s doc number. accepted number (b'9' ∷ []);
}

export_retry_example :
    let (r, db') = export env down 10 none maker (holding numbered) in
    (r ≡ err bad_request)
    × (find sale_id 10 db'.submissions ≡ some (with_sync_error "Throttled" numbered))
    × (db'.settings ≡ settings)
    × ((export env up 10 none checker db').0
        ≡ ok (
            with_posting env
              (b'G' ∷ b'-' ∷ b'1' ∷ b'2' ∷ [])
              (b'9' ∷ [])
              (with_sync_error "Throttled" numbered)))
unfolding find
export_retry_example =
    export_retry 10 maker checker env env none (holding numbered) numbered down up "Throttled"
      (b'G' ∷ b'-' ∷ b'1' ∷ b'2' ∷ []) (b'9' ∷ []) refl refl refl refl refl refl refl refl

abbrev sent : Submission Amount
sent = with_posting env (b'G' ∷ b'-' ∷ b'1' ∷ b'2' ∷ []) (b'9' ∷ []) numbered

export_success_example :
    (approved ≡ approved)
    × (sent.status ≡ exported)
    × (has_number sent.invoice_no ≡ true)
    × (sent.invoice_no ≡ (
        if has_number approved_sale.invoice_no
        then approved_sale.invoice_no
        else some (next_no (invoice_brand approved_sale.city) settings)))
    × (sent.qb_doc_number ≢ none)
    × (sent.qbo_sync_error ≡ none)
    × (true && (false && true) ≡ false)
unfolding export find decimal digits
export_success_example =
    export_success env up 10 none maker (holding approved_sale) approved_sale sent refl refl

unvoid-void_example :
    let (r, db') = unvoid 10 checker (void env 10 maker (holding sale)).1 in
    (r ≡ ok sale) × (find sale_id 10 db'.submissions ≡ find sale_id 10 (holding sale).submissions)
unfolding find
unvoid-void_example =
    unvoid-void 10 (holding sale) sale env maker checker 10 refl (λ e. ground arith) refl refl refl
