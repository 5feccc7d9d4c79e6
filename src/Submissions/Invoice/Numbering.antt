-- ===== src/Submissions/Invoice/Numbering.antt =====
-- The counters of the invoice sequences (backend/src/submissions/submissions.service.ts).
use vfw.Prelude.{
  ℕ, ◌+◌, ◌<◌, ◌≡◌, ◌≢◌, refl, true, Option, none, some, [], ◌∷◌, ◌++◌, arith, drop, length, false,
  ◌⊎◌, Bool-cases, inl, inr,
}
use vfw.Prelude.Words.{decimal, starts_with, trim}
use vfw.Acl.{AuthUser}
use vfw.Store.{Submission, Settings, Text, Db}
use vfw.Store.Table.{find}
use vfw.Store.Call.{ok}
use vfw.Submissions.{sale_id}
use vfw.Submissions.Invoice.{past, advance, max_sequence, holds_number, set_invoice_no}
use vfw.Submissions.Invoice.Rules.{holds_number_exact}

starts_with_append : (p t : Text) → starts_with p (p ++ t) ≡ true
unfolding starts_with
starts_with_append [] t = refl
starts_with_append (c ∷ p) t = ground (arith, starts_with_append p t)

drop_append : (p t : Text) → drop (length p) (p ++ t) ≡ t
drop_append [] t = refl
drop_append (c ∷ p) t = drop_append p t

module _ (to_number : Text → Option ℕ) where
  past_own :
      (prefix : Text) (next seq : ℕ)
      → prefix ≢ []
      → to_number (decimal seq) ≡ some seq
      → seq < max_sequence
      → ((seq < next) × (past to_number prefix next (prefix ++ decimal seq) ≡ none))
        ⊎ (past to_number prefix next (prefix ++ decimal seq) ≡ some (seq + 1))
  unfolding past
  past_own [] next seq real reads small = elim (real refl) [ ]
  past_own (c ∷ p) next seq real reads small =
      rw (starts_with_append (c ∷ p) (decimal seq), drop_append (c ∷ p) (decimal seq), reads)
        (ground arith)

  module _ {D : Type 0} (t : Settings D) (seq : ℕ) where
    advance_ahead :
        to_number (decimal seq) ≡ some seq
        → seq < max_sequence
        → t.invoice_prefix ≢ []
        → seq < (advance to_number (t.invoice_prefix ++ decimal seq) t).next_invoice_seq
    unfolding advance
    advance_ahead reads small real =
        ground (arith, past_own t.invoice_prefix t.next_invoice_seq seq real reads small)

  module _ {D : Type 0} (id : ℕ) (invoice_no : Text) (user : AuthUser) (db : Db D)
      (s t : Submission D) where
    set_invoice_no-settings :
        find sale_id id db.submissions ≡ some s
        → (set_invoice_no to_number id invoice_no user db).0 ≡ ok t
        → holds_number s.invoice_no (trim invoice_no) ≡ false
        → (set_invoice_no to_number id invoice_no user db).1.settings
          ≡ advance to_number (trim invoice_no) db.settings
    unfolding set_invoice_no
    set_invoice_no-settings found done new = ground arith

    -- Giving a sale a number by hand that it does not have already, and that is, once trimmed, the first
    -- brand's prefix, not empty, before a sequence number below the largest one, leaves that brand's
    -- counter above this sequence number, so that the sequence cannot hand it out; the text has to read
    -- back as the number.
    pub set_invoice_no_ahead :
        (seq : ℕ)
        → to_number (decimal seq) ≡ some seq
        → seq < max_sequence
        → db.settings.invoice_prefix ≢ []
        → trim invoice_no ≡ db.settings.invoice_prefix ++ decimal seq
        → s.invoice_no ≢ some (trim invoice_no)
        → find sale_id id db.submissions ≡ some s
        → (set_invoice_no to_number id invoice_no user db).0 ≡ ok t
        → seq < (set_invoice_no to_number id invoice_no user db).1.settings.next_invoice_seq
    set_invoice_no_ahead seq reads small real number new found done =
        elim (Bool-cases (holds_number s.invoice_no (trim invoice_no))) [
          | inl same ↦ elim (new (holds_number_exact s.invoice_no (trim invoice_no) same)) [ ]
          | inr other ↦
              rw (set_invoice_no-settings found done other, number)
                (advance_ahead db.settings seq reads small real)
        ]
