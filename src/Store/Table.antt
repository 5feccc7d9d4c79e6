-- ===== src/Store/Table.antt =====
-- A table as a list of rows, read and written by the number in a key column, as Prisma's
-- `findUnique`, `update`, `findMany` and `deleteMany` do for the services.
use mathlib.Core.Path.{subst}
use mathlib.Core.Option.{some-injective}
use vfw.Prelude.{
  ℕ, ◌≡◌, ◌≢◌, ◌∙◌, Option-cases, refl, sym, Bool, Option, none, some, List, [], ◌∷◌, ◌++◌, arith,
  ◌==◌, ==_iff, Bool-cases, inl, inr, if◌then◌else◌,
}

module _ {ℓ} {A : Type ℓ} where
  -- `Option.map`, which computes here.
  abbrev pub map_some {κ} : {B : Type κ} → (A → B) → Option A → Option B
  map_some f none = none
  map_some f (some a) = some (f a)

  -- What a column holds after a write that may leave its value out: Prisma then lets it be.
  abbrev pub or_else : Option A → Option A → Option A
  or_else none b = b
  or_else (some a) b = some a

  unfoldable pub find : (A → ℕ) → ℕ → List A → Option A
  find key k [] = none
  find key k (x ∷ xs) = if key x == k then some x else find key k xs

  -- A key stands in one row: the first that has it is the one that is written.
  unfoldable pub modify : (A → ℕ) → ℕ → (A → A) → List A → List A
  modify key k f [] = []
  modify key k f (x ∷ xs) = if key x == k then f x ∷ xs else x ∷ modify key k f xs

  unfoldable pub filter : (A → Bool) → List A → List A
  filter p [] = []
  filter p (x ∷ xs) = if p x then x ∷ filter p xs else filter p xs

  -- By a test on several columns.
  unfoldable pub find_where : (A → Bool) → List A → Option A
  find_where p [] = none
  find_where p (x ∷ xs) = if p x then some x else find_where p xs

  unfoldable pub modify_where : (A → Bool) → (A → A) → List A → List A
  modify_where p f [] = []
  modify_where p f (x ∷ xs) = if p x then f x ∷ xs else x ∷ modify_where p f xs

  abbrev pub All {κ} : (A → Type κ) → List A → Type κ
  All P [] = Unit
  All P (x ∷ xs) = P x × All P xs

module _ {ℓ} {A : Type ℓ} (key : A → ℕ) where
  -- A write by key is seen at that key alone, if it leaves the keys as they are.
  pub find-modify :
      (i j : ℕ) (f : A → A) (xs : List A)
      → ((x : A) → key (f x) ≡ key x)
      → find key j (modify key i f xs)
        ≡ (if i == j then map_some f (find key j xs) else find key j xs)
  unfolding find modify
  find-modify i j f [] keeps = ground arith
  find-modify i j f (x ∷ xs) keeps = ground (arith, keeps x, find-modify i j f xs keeps)

  -- Rows that are added at the end hide no other.
  pub find-append :
      (k : ℕ) (xs ys : List A) (x : A) → find key k xs ≡ some x → find key k (xs ++ ys) ≡ some x
  unfolding find
  find-append k [] ys x e = cc
  find-append k (y ∷ xs) ys x e = ground (arith, find-append k xs ys x)

  pub find-append_none :
      (k : ℕ) (xs ys : List A) → find key k xs ≡ none → find key k (xs ++ ys) ≡ find key k ys
  unfolding find
  find-append_none k [] ys e = refl
  find-append_none k (y ∷ xs) ys e = ground (arith, find-append_none k xs ys)

  pub find_only : (k : ℕ) (x t : A) → find key k (x ∷ []) ≡ some t → x ≡ t
  unfolding find
  find_only k x t e = ground arith

  -- A write makes no row.
  pub find_before :
      (i j : ℕ) (f : A → A) (xs : List A) (t : A)
      → ((x : A) → key (f x) ≡ key x)
      → find key j (modify key i f xs) ≡ some t
      → (s : A) × (find key j xs ≡ some s)
  find_before i j f xs t keeps found = elim (Option-cases (find key j xs)) [
    | inl missing ↦ elim (gone i j f xs t missing (sym (find-modify i j f xs keeps) ∙ found)) [ ]
    | inr known ↦ known
  ]
    where
      gone :
          (i j : ℕ) (f : A → A) (xs : List A) (t : A)
          → find key j xs ≡ none
          → (if i == j then map_some f (find key j xs) else find key j xs) ≢ some t
      gone i j f xs t missing e = ground arith

  pub find_key : (k : ℕ) (xs : List A) (x : A) → find key k xs ≡ some x → key x ≡ k
  unfolding find
  find_key k [] x e = cc
  find_key k (y ∷ xs) x e = ground (arith, find_key k xs x)

module _ {ℓ} {A : Type ℓ} (key : A → ℕ) where
  -- A write that another one undoes leaves every row as it was.
  pub find-modify_back :
      (i j : ℕ) (f g : A → A) (xs : List A) (x : A)
      → ((y : A) → key (f y) ≡ key y)
      → ((y : A) → key (g y) ≡ key y)
      → find key i xs ≡ some x
      → g (f x) ≡ x
      → find key j (modify key i g (modify key i f xs)) ≡ find key j xs
  find-modify_back i j f g xs x kf kg found back = elim (Bool-cases (i == j)) [
    | inl same ↦
        let here : find key j xs ≡ some x = rw (sym ((==_iff i j).0 same)) found in
        rw
          (
            find-modify key i j g (modify key i f xs) kg,
            find-modify key i j f xs kf,
            same,
            here,
            back,
          )
          refl
    | inr other ↦
        rw (find-modify key i j g (modify key i f xs) kg, find-modify key i j f xs kf, other) refl
  ]

module _ {ℓ κ} {A : Type ℓ} (P : A → Type κ) where
  -- A property of all rows is one of the row that is found.
  pub All-find :
      (key : A → ℕ) (k : ℕ) (xs : List A) (x : A) → All P xs → find key k xs ≡ some x → P x
  unfolding find
  All-find key k [] x h e = cc
  All-find key k (y ∷ xs) x h e = elim (Bool-cases (key y == k)) [
    | inl hit ↦ subst P (some-injective _ _ (rw hit at e)) h.0
    | inr miss ↦ All-find key k xs x h.1 (rw miss at e)
  ]

  -- A write that gives the row it finds a property keeps the property of the table.
  pub All-modify :
      (key : A → ℕ) (k : ℕ) (f : A → A) (xs : List A) (x : A)
      → find key k xs ≡ some x
      → P (f x)
      → All P xs
      → All P (modify key k f xs)
  unfolding find modify
  All-modify key k f [] x e p h = tt
  All-modify key k f (y ∷ xs) x e p h = elim (Bool-cases (key y == k)) [
    | inl hit ↦ rw hit (subst (λ z. P (f z)) (sym (some-injective _ _ (rw hit at e))) p, h.1)
    | inr miss ↦ rw miss (h.0, All-modify key k f xs x (rw miss at e) p h.1)
  ]
