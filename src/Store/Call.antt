-- ===== src/Store/Call.antt =====
-- A service call: it reads and writes the database, and returns a value or throws. What a call wrote
-- before it threw stays written, unless it stood in `prisma.$transaction`.
use vfw.Prelude.{◌≡◌, refl, ◌⊎◌, inl, inr, Bool, true, false, Option, none, some}
use vfw.Store.{Db}

-- The exceptions that the services throw. Any other error is answered as a server error.
pub data HttpError : Type 0 where
  bad_request not_found forbidden conflict server_error unauthorized unavailable : HttpError

pub data Result {ℓ} (A : Type ℓ) : Type ℓ where
  ok : A → Result A
  err : HttpError → Result A

-- A result is a value or an error.
pub Result-cases {ℓ} :
    {A : Type ℓ} (r : Result A) → ((e : HttpError) × (r ≡ err e)) ⊎ ((a : A) × (r ≡ ok a))
Result-cases (ok a) = inr (a, refl)
Result-cases (err e) = inl (e, refl)

abbrev pub Call : Type 0 → Type 0 → Type 0
Call D A = Db D → Result A × Db D

module _ {D : Type 0} where
  abbrev pub pure : {A : Type 0} → A → Call D A
  pure a db = (ok a, db)

  abbrev pub throw : {A : Type 0} → HttpError → Call D A
  throw e db = (err e, db)

  abbrev pub lift : {A : Type 0} → Result A → Call D A
  lift (ok a) db = (ok a, db)
  lift (err e) db = (err e, db)

  abbrev pub get : Call D (Db D)
  get db = (ok db, db)

  abbrev pub put : Db D → Call D (Unit {0})
  put db' db = (ok tt, db')

  abbrev pub guard : Bool → HttpError → Call D (Unit {0})
  guard true e db = (ok tt, db)
  guard false e db = (err e, db)

  -- A call that branches on a test, or on what was found.
  abbrev pub branch : {A : Type 0} → Bool → Call D A → Call D A → Call D A
  branch true m n = m
  branch false m n = n

  abbrev pub found : {A B : Type 0} → Option A → Call D B → (A → Call D B) → Call D B
  found none m f = m
  found (some a) m f = f a

  abbrev pub or_throw : {A : Type 0} → HttpError → Option A → Call D A
  or_throw e none db = (err e, db)
  or_throw e (some a) db = (ok a, db)

-- `prisma.$transaction`: a throw undoes what was written.
abbrev pub transaction : {D A : Type 0} → Call D A → Call D A
transaction m db = let (r, db') = m db in elim r [ ok a ↦ (ok a, db') | err e ↦ (err e, db) ]

infixl 5 ◌>>=◌ ◌>>◌
abbrev pub ◌>>=◌ : {D A B : Type 0} → Call D A → (A → Call D B) → Call D B
◌>>=◌ m f db = let (r, db') = m db in elim r [ ok a ↦ f a db' | err e ↦ (err e, db') ]

abbrev pub ◌>>◌ : {D A B : Type 0} → Call D A → Call D B → Call D B
m >> k = m >>= λ _. k
