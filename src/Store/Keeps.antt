-- ===== src/Store/Keeps.antt =====
-- What a service call keeps, by how it is built: a handler is gone through once for every property of the
-- tables.
use mathlib.Core.Path.{subst}
use vfw.Prelude.{◌≡◌, refl, sym, Bool, true, false, Option, none, some}
use vfw.Store.{Db}
use vfw.Store.Call.{
  Call, Result, HttpError, ok, err, pure, throw, lift, get, guard, or_throw, branch, found,
  transaction, ◌>>=◌,
}

-- `m` keeps `P`, whether it returns or throws.
pub record Keeps {D A : Type 0} (P : Db D → Type 0) (m : Call D A) : Type 0 where
  pub at : (db : Db D) → P db → P (m db).1

module _ {D A : Type 0} {P : Db D → Type 0} where
  pub Keeps-pure : (a : A) → Keeps P (pure a)
  Keeps-pure a = record { at = λ db h. h }

  pub Keeps-throw : (e : HttpError) → Keeps P (throw {A = A} e)
  Keeps-throw e = record { at = λ db h. h }

  pub Keeps-lift : (r : Result A) → Keeps P (lift r)
  Keeps-lift (ok a) = record { at = λ db h. h }
  Keeps-lift (err e) = record { at = λ db h. h }

  pub Keeps-or_throw : (e : HttpError) (o : Option A) → Keeps P (or_throw e o)
  Keeps-or_throw e none = record { at = λ db h. h }
  Keeps-or_throw e (some a) = record { at = λ db h. h }

  pub Keeps-transaction : (m : Call D A) → Keeps P m → Keeps P (transaction m)
  Keeps-transaction m k = record { at = λ db h. after (m db) (k.at db h) db h }
    where
      after : (o : Result A × Db D) → P o.1 → (db : Db D) → P db → P (transaction (λ _. o) db).1
      after (ok a, db') h db h' = h
      after (err e, db') h db h' = h'

module _ {D : Type 0} {P : Db D → Type 0} where
  pub Keeps-get : Keeps P (get {D = D})
  Keeps-get = record { at = λ db h. h }

  pub Keeps-guard : (b : Bool) (e : HttpError) → Keeps P (guard b e)
  Keeps-guard true e = record { at = λ db h. h }
  Keeps-guard false e = record { at = λ db h. h }

module _ {D A B : Type 0} {P : Db D → Type 0} where
  pub Keeps-bind :
      (m : Call D A) (f : A → Call D B) → Keeps P m → ((a : A) → Keeps P (f a)) → Keeps P (m >>= f)
  Keeps-bind m f km kf = record { at = λ db h. after (m db) (km.at db h) db }
    where
      after : (o : Result A × Db D) → P o.1 → (db : Db D) → P (◌>>=◌ (λ _. o) f db).1
      after (ok a, db') h db = (kf a).at db' h
      after (err e, db') h db = h

-- The rest of a call may use what a part of it found, if that part writes nothing.
module _ {D A B : Type 0} (P : Db D → Type 0) where
  pub bind_reads :
      (m : Call D A) (f : A → Call D B) (db : Db D)
      → (m db).1 ≡ db
      → P db
      → ((a : A) → (m db).0 ≡ ok a → P (f a db).1)
      → P ((m >>= f) db).1
  bind_reads m f db reads h k = after (m db) reads k
    where
      after :
          (o : Result A × Db D)
          → o.1 ≡ db
          → ((a : A) → o.0 ≡ ok a → P (f a db).1)
          → P (◌>>=◌ (λ _. o) f db).1
      after (ok a, db') reads k = subst (λ x. P (f a x).1) (sym reads) (k a refl)
      after (err e, db') reads k = subst P (sym reads) h

-- A call that branches on what it found, or on a test.
module _ {D A B : Type 0} {P : Db D → Type 0} where
  pub Keeps-found :
      (o : Option A) (m : Call D B) (f : A → Call D B)
      → Keeps P m
      → ((a : A) → Keeps P (f a))
      → Keeps P (found o m f)
  Keeps-found none m f km kf = km
  Keeps-found (some a) m f km kf = kf a

module _ {D A : Type 0} {P : Db D → Type 0} where
  pub Keeps-branch : (b : Bool) (m n : Call D A) → Keeps P m → Keeps P n → Keeps P (branch b m n)
  Keeps-branch true m n km kn = km
  Keeps-branch false m n km kn = kn

pub ruleset keeps_rules = (
  Keeps-pure, Keeps-throw, Keeps-lift, Keeps-or_throw, Keeps-get, Keeps-guard, Keeps-transaction,
  Keeps-bind, Keeps-found, Keeps-branch,
)
