-- ===== src/Installments.antt =====
-- backend/src/submissions/installments/installments.service.ts: payment plans. `mark` and `unmark` are
-- in two parts, as in the source: what is read and checked first, and the transaction, which may find
-- that the database has moved on in between.
pub mod Plan
pub mod Marking
pub mod Reversal
use Prim.Native.String.{String}
use Prim.Native.Nat.{max}
use vfw.Prelude.{
  ℕ, ◌+◌, ◌==◌, ◌&&◌, ◌||◌, Bool, true, false, not, Option, none, some, List, [], ◌∷◌, ◌++◌, map,
  if◌then◌else◌,
}
use vfw.Decimal.{Decimals, zero_amount, r2, lte, plus_all}
use vfw.Pricing.{Currency}
use vfw.Acl.{AuthUser}
use vfw.Store.{
  Submission, SubmissionStatus, rejected, voided, Payment, Installment, InstallmentStatus, due,
  settled, plan_set, plan_cleared, installment_paid, installment_unpaid, Db, Env,
}
use vfw.Store.Table.{find, modify, filter, or_else}
use vfw.Store.Call.{
  Call, bad_request, not_found, conflict, pure, get, put, guard, or_throw, transaction, ◌>>=◌, ◌>>◌,
}
use vfw.Submissions.{status_index, ◌is◌, log}
use vfw.Submissions.Fields.{or_null}
use vfw.Submissions.Ledger.{create_payment, recompute_money}
use vfw.Submissions.Reading.{find_one}

pub record LineDto (D : Type 0) : Type 0 where
  pub label : Option String
  pub due_date : ℕ
  pub amount : D
  pub method : Option String

pub record MarkDto : Type 0 where
  pub method : Option String
  pub reference : Option String

-- `FALLBACK_METHOD`
abbrev pub fallback_method : String
fallback_method = "Bank Transfer / Wire"

-- `a || b` of texts that may be missing, and in the end `null`: an empty one counts as missing.
abbrev pub or_text : Option String → Option String → Option String
or_text a b = or_else (or_null a) (or_null b)

abbrev pub method_or : Option String → String
method_or none = fallback_method
method_or (some m) = m

abbrev pub is_due : InstallmentStatus → Bool
is_due due = true
is_due settled = false

-- `count > 0`
abbrev pub has_any : {A : Type 0} → List A → Bool
has_any [] = false
has_any (_ ∷ _) = true

module _ {D : Type 0} where
  abbrev pub installment_id : Installment D → ℕ
  installment_id i = i.id

  -- `installment.findMany({ where: { submissionId } })`
  unfoldable pub installments_of : ℕ → List (Installment D) → List (Installment D)
  unfolding filter
  installments_of id = filter (λ i. i.submission_id == id)

  -- `installment.deleteMany({ where: { submissionId, status: PENDING } })`
  unfoldable pub without_due : ℕ → List (Installment D) → List (Installment D)
  unfolding filter
  without_due id = filter (λ i. not (i.submission_id == id && is_due i.status))

  unfoldable pub due_of : ℕ → List (Installment D) → List (Installment D)
  unfolding filter
  due_of id = filter (λ i. i.submission_id == id && is_due i.status)

  -- `paid.reduce((max, i) => Math.max(max, i.seq), 0)`, over the paid ones of a sale.
  unfoldable pub last_paid_seq : ℕ → ℕ → List (Installment D) → ℕ
  last_paid_seq id acc [] = acc
  last_paid_seq id acc (i ∷ rest) =
      last_paid_seq id
        (if i.submission_id == id && not (is_due i.status) then max acc i.seq else acc) rest

  unfoldable pub load_sale : ℕ → AuthUser → Call D (Submission D)
  unfolding find_one status_index
  load_sale id user = do
    s ← find_one id user
    guard (not (s.status is rejected)) bad_request
    guard (not (s.status is voided)) bad_request
    pure s

  unfoldable pub list : ℕ → AuthUser → Call D (List (Installment D))
  unfolding find_one installments_of
  list id user = do s ← find_one id user; pure (installments_of id (← get).installments)

  unfoldable pub clear_plan : ℕ → AuthUser → Call D (List (Installment D))
  unfolding load_sale due_of without_due log installments_of
  clear_plan id user = do
    s ← load_sale id user
    transaction do
      db ← get
      guard (has_any (due_of id db.installments)) bad_request
      put (record db { installments = without_due id db.installments })
      log id user plan_cleared none
      pure (installments_of id (without_due id db.installments))

  -- The instalment of the sale, or a 404.
  unfoldable pub load_installment : ℕ → ℕ → Call D (Installment D)
  unfolding find
  load_installment id target = do
    i ← or_throw not_found (find installment_id target (← get).installments)
    guard (i.submission_id == id) not_found
    pure i

  -- `installment.updateMany({ where: { id, status: from }, data })`, where no row changed: a 409.
  unfoldable pub claim : ℕ → Bool → (Installment D → Installment D) → Call D (Unit {0})
  unfolding find modify
  claim target from_due change = do
    db ← get
    i ← or_throw conflict (find installment_id target db.installments)
    guard (if from_due then is_due i.status else not (is_due i.status)) conflict
    put (record db { installments = modify installment_id target change db.installments })

module _ ⦃d : Decimals⦄ where
  open d use {Decimal, equals, negated}

  unfoldable pub new_installments :
      Env → Submission Decimal → ℕ → ℕ → List (LineDto Decimal) → List (Installment Decimal)
  new_installments env s first i [] = []
  new_installments env s first i (l ∷ ls) =
      record {
        id = env.new_id + i;
        submission_id = s.id;
        seq = first + i;
        label = or_null l.label;
        due_date = l.due_date;
        amount = r2 (r2 l.amount);
        currency = s.figures.currency;
        method = or_text l.method s.payment_method;
        status = due;
        paid_at = none;
        paid_by = none;
        payment_id = none;
      }
      ∷ new_installments env s first (i + 1) ls

  unfoldable pub set_plan :
      Env → ℕ → List (LineDto Decimal) → AuthUser → Call Decimal (List (Installment Decimal))
  unfolding load_sale without_due last_paid_seq new_installments log installments_of
  set_plan env id lines user = do
    s ← load_sale id user
    guard (not (lte s.figures.balance zero_amount)) bad_request
    guard (equals (plus_all zero_amount (map (λ l. r2 l.amount) lines)) s.figures.balance)
        bad_request
    db ← get
    let first = last_paid_seq id 0 db.installments + 1
    let rows = without_due id db.installments ++ new_installments env s first 0 lines
    transaction do
      put (record db { installments = rows })
      log id user plan_set none
      pure (installments_of id rows)

  -- What `mark` reads before its transaction.
  unfoldable pub mark_check :
      ℕ → ℕ → AuthUser → Call Decimal (Submission Decimal × Installment Decimal)
  unfolding load_sale load_installment
  mark_check id target user = do
    s ← load_sale id user
    i ← load_installment id target
    guard (is_due i.status) bad_request
    pure (s, i)

  -- The row that `mark` puts on the ledger.
  abbrev pub mark_payment :
      Env → ℕ → MarkDto → AuthUser → Submission Decimal → Installment Decimal → Payment Decimal
  mark_payment env id dto user s i = record {
    id = env.new_id;
    submission_id = id;
    amount = r2 i.amount;
    currency = s.figures.currency;
    method = method_or (or_text dto.method (or_text i.method s.payment_method));
    reference = or_null dto.reference;
    recorded_by = user.id;
    is_test_data = s.is_test_data || env.test_data_mode;
  }

  -- The transaction of `mark`, on the sale and the instalment that were read.
  unfoldable pub mark_commit :
      Env
      → ℕ
      → MarkDto
      → AuthUser
      → Submission Decimal
      → Installment Decimal
      → Call Decimal (List (Installment Decimal))
  unfolding claim create_payment recompute_money modify log installments_of
  mark_commit env id dto user s i = transaction do
    claim i.id true
        λ x. record x { status = settled; paid_at = some env.now; paid_by = some user.id }
    create_payment (mark_payment env id dto user s i)
    db ← get
    put (record db {
      installments =
          modify installment_id i.id (λ x. record x { payment_id = some env.new_id })
            db.installments;
    })
    recompute_money id
    log id user installment_paid none
    pure (installments_of id (← get).installments)

  unfoldable pub mark : Env → ℕ → ℕ → MarkDto → AuthUser → Call Decimal (List (Installment Decimal))
  unfolding mark_check mark_commit
  mark env id target dto user = do
    read ← mark_check id target user
    mark_commit env id dto user read.0 read.1

  unfoldable pub unmark_check :
      ℕ → ℕ → AuthUser → Call Decimal (Submission Decimal × Installment Decimal)
  unfolding load_sale load_installment
  unmark_check id target user = do
    s ← load_sale id user
    i ← load_installment id target
    guard (not (is_due i.status)) bad_request
    pure (s, i)

  -- The row that takes a marked amount back. Its reference leaves out the number of the instalment.
  abbrev pub reversal :
      Env → ℕ → AuthUser → Submission Decimal → Installment Decimal → Payment Decimal
  reversal env id user s i = record {
    id = env.new_id;
    submission_id = id;
    amount = r2 (negated i.amount);
    currency = s.figures.currency;
    method = method_or (or_text i.method s.payment_method);
    reference = some "Reversal of instalment";
    recorded_by = user.id;
    is_test_data = s.is_test_data || env.test_data_mode;
  }

  -- The reversing entry, where the mark posted money.
  unfoldable pub reverse_payment :
      Env
      → ℕ
      → AuthUser
      → Submission Decimal
      → Installment Decimal
      → Option ℕ
      → Call Decimal (Unit {0})
  unfolding create_payment
  reverse_payment env id user s i none = pure tt
  reverse_payment env id user s i (some payment) = create_payment (reversal env id user s i)

  unfoldable pub unmark_commit :
      Env
      → ℕ
      → AuthUser
      → Submission Decimal
      → Installment Decimal
      → Call Decimal (List (Installment Decimal))
  unfolding claim reverse_payment recompute_money log installments_of
  unmark_commit env id user s i = transaction do
    claim i.id false
        λ x. record x { status = due; paid_at = none; paid_by = none; payment_id = none }
    reverse_payment env id user s i i.payment_id
    recompute_money id
    log id user installment_unpaid none
    pure (installments_of id (← get).installments)

  unfoldable pub unmark : Env → ℕ → ℕ → AuthUser → Call Decimal (List (Installment Decimal))
  unfolding unmark_check unmark_commit
  unmark env id target user = do
    read ← unmark_check id target user
    unmark_commit env id user read.0 read.1
