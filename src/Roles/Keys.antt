-- ===== src/Roles/Keys.antt =====
-- The key that a new role gets (backend/src/roles/roles.controller.ts, `freeKey`).
use vfw.Prelude.{
  Option-cases, ℕ, zero, suc, ◌+◌, ◌≤◌, ◌<◌, ◌≡◌, ◌≢◌, ◌∙◌, refl, true, false, none, some, List, [],
  ◌∷◌, ◌++◌, length, arith, Bool-cases, inl, inr, if◌then◌else◌,
}
use vfw.Prelude.Words.{same_text, starts_with, decimal}
use vfw.Prelude.Digits.{same_text→eq, same_text-append, decimal_injective}
use vfw.Store.{Text}
use vfw.Store.Staff.{RoleDef}
use vfw.Store.Table.{filter, find_where}
use vfw.Roles.Naming.{
  Casing, base_key, has_key, numbered, search_key, taken_keys, built_in_keys, free_key,
}
use vfw.Roles.{has_role_key}

-- A list less the texts that are equal to one.
without : Text → List Text → List Text
without c [] = []
without c (t ∷ ts) = let rest = without c ts in if same_text t c then rest else t ∷ rest

length-without_le : (c : Text) (ts : List Text) → length (without c ts) ≤ length ts
unfolding without
length-without_le c [] = omega arith
length-without_le c (t ∷ ts) = ground (arith, length-without_le c ts)

length-without_lt :
    (c : Text) (ts : List Text) → has_key c ts ≡ true → length (without c ts) < length ts
unfolding without has_key
length-without_lt c [] e = cc
length-without_lt c (t ∷ ts) e = ground (arith, length-without_le c ts, length-without_lt c ts)

-- Looking for another text, the list may be either.
has_key-without :
    (key c : Text) (ts : List Text)
    → same_text c key ≡ false
    → has_key key (without c ts) ≡ has_key key ts
unfolding without has_key
has_key-without key c [] other = refl
has_key-without key c (t ∷ ts) other = elim (Bool-cases (same_text t c)) [
  | inl same ↦
      let here : same_text t key ≡ false = rw (same_text→eq t c same) other in
      ground (arith, same, here, has_key-without key c ts other)
  | inr differs ↦ ground (arith, differs, has_key-without key c ts other)
]

-- Keys with different numbers differ.
numbered_apart :
    (base : Text) (m n : ℕ) → m < n → same_text (numbered base m) (numbered base n) ≡ false
unfolding same_text
numbered_apart base m n less = elim (Bool-cases (same_text (decimal m) (decimal n))) [
  | inl same ↦ let e = decimal_injective m n same in elim (apart m n less e) [ ]
  | inr differs ↦ same_text-append base (b'_' ∷ decimal m) (b'_' ∷ decimal n) ∙ differs
]
  where
    apart : (m n : ℕ) → m < n → m ≢ n
    apart m n less e = omega arith

search_key-without :
    (fuel k m : ℕ) (base : Text) (ts : List Text)
    → k < m
    → search_key fuel m base (without (numbered base k) ts) ≡ search_key fuel m base ts
unfolding search_key
search_key-without zero k m base ts less = refl
search_key-without (suc fuel) k m base ts less =
    rw
      (
        has_key-without (numbered base m) (numbered base k) ts (numbered_apart base k m less),
        search_key-without fuel k (m + 1) base ts (omega arith),
      )
      refl

-- With more turns than there are keys taken the loop ends.
search_key_ends :
    (fuel n : ℕ) (base : Text) (ts : List Text)
    → length ts < fuel
    → search_key fuel n base ts ≢ none
unfolding search_key
search_key_ends zero n base ts h e = elim h [ ]
search_key_ends (suc fuel) n base ts h e = elim (Bool-cases (has_key (numbered base n) ts)) [
  | inr free ↦ ground (arith, free)
  | inl used ↦
      let fewer = length-without_lt (numbered base n) ts used in
      let gone : search_key fuel (n + 1) base ts ≡ none = ground (arith, used) in
      search_key_ends fuel (n + 1) base (without (numbered base n) ts) (omega arith)
        (search_key-without fuel n (n + 1) base ts (omega arith) ∙ gone)
]

-- What the loop ends in is not taken.
search_key_free :
    (fuel n : ℕ) (base key : Text) (ts : List Text)
    → search_key fuel n base ts ≡ some key
    → has_key key ts ≡ false
unfolding search_key
search_key_free zero n base key ts e = cc
search_key_free (suc fuel) n base key ts e = elim (Bool-cases (has_key (numbered base n) ts)) [
  | inr free ↦ let is_key : numbered base n ≡ key = ground (arith, free) in rw is_key at free
  | inl used ↦ search_key_free fuel (n + 1) base key ts (ground (arith, used))
]

starts_with-append : (p t : Text) → starts_with p (p ++ t) ≡ true
unfolding starts_with
starts_with-append [] t = refl
starts_with-append (c ∷ p) t = ground (arith, starts_with-append p t)

starts_with_self : (p : Text) → starts_with p p ≡ true
unfolding starts_with
starts_with_self [] = refl
starts_with_self (c ∷ p) = ground (arith, starts_with_self p)

search_key_starts :
    (fuel n : ℕ) (base key : Text) (ts : List Text)
    → search_key fuel n base ts ≡ some key
    → starts_with base key ≡ true
unfolding search_key
search_key_starts zero n base key ts e = cc
search_key_starts (suc fuel) n base key ts e = elim (Bool-cases (has_key (numbered base n) ts)) [
  | inr free ↦
      let is_key : numbered base n ≡ key = ground (arith, free) in
      rw is_key at (starts_with-append base (b'_' ∷ decimal n))
  | inl used ↦ search_key_starts fuel (n + 1) base key ts (ground (arith, used))
]

-- A key with the base in front that is not among the keys read is no role's.
untaken :
    (base key : Text) (roles : List RoleDef)
    → starts_with base key ≡ true
    → has_key key (taken_keys base roles) ≡ false
    → (find_where (has_role_key key) roles ≡ none) × (has_key key built_in_keys ≡ false)
unfolding taken_keys has_key find_where filter
untaken base key [] starts free = (refl, free)
untaken base key (r ∷ rest) starts free = elim (Bool-cases (same_text r.key key)) [
  | inl same ↦
      let here : starts_with base r.key ≡ true = rw (same_text→eq r.key key same) starts in
      ground (arith, same, here)
  | inr differs ↦ ground (arith, differs, untaken base key rest starts)
]

-- A new role always gets a key, after at most as many turns of the loop as there are keys taken, and
-- one; no role has it, and it is not the key of a built-in role.
pub free_key_ends :
    (casing : Casing) (label : Text) (roles : List RoleDef)
    → (key : Text) × (free_key casing label roles ≡ some key)
      × (find_where (has_role_key key) roles ≡ none)
      × (has_key key built_in_keys ≡ false)
unfolding free_key
free_key_ends casing label roles =
    let base = base_key casing label in
    let taken = taken_keys base roles in
    let fuel = suc (length taken) in
    elim (Bool-cases (has_key base taken)) [
      | inr free ↦
          let (no_role, no_built_in) = untaken base base roles (starts_with_self base) free in
          (base, rw free refl, no_role, no_built_in)
      | inl used ↦ elim (Option-cases (search_key fuel 2 base taken)) [
        | inl never ↦ elim (search_key_ends fuel 2 base taken (omega arith) never) [ ]
        | inr (key, found) ↦
            let starts = search_key_starts fuel 2 base key taken found in
            let free = search_key_free fuel 2 base key taken found in
            let (no_role, no_built_in) = untaken base key roles starts free in
            (key, rw (used, found) refl, no_role, no_built_in)
      ]
    ]
