-- ===== src/Roles/Naming.antt =====
-- backend/src/roles/roles.controller.ts: `freeKey`, the key that a new role gets.
use vfw.Prelude.{
  ℕ, zero, suc, ◌+◌, Bool, true, false, ◌&&◌, ◌||◌, Option, none, some, List, [], ◌∷◌, ◌++◌, map,
  length, leb, ◌==◌, if◌then◌else◌, take,
}
use vfw.Prelude.Words.{same_text, starts_with, decimal}
use vfw.Acl.{role_key, sales, intern, acct, mgr, admin}
use vfw.Store.{Text}
use vfw.Store.Staff.{RoleDef}
use vfw.Store.Table.{filter}

pub record Casing : Type 0 where
  pub to_upper : Text → Text
  pub to_lower : Text → Text
  pub same_label : Text → Text → Bool

-- `BUILT_IN_ROLES`
unfoldable pub built_in_keys : List Text
built_in_keys =
    role_key sales ∷ role_key intern ∷ role_key acct ∷ role_key mgr ∷ role_key admin ∷ []

-- `[A-Z0-9]`
abbrev pub is_key_char : ℕ → Bool
is_key_char c = (leb b'A' c && leb c b'Z') || (leb b'0' c && leb c b'9')

-- `replace(/[^A-Z0-9]+/g, '_')`, and whether the character before was replaced.
unfoldable pub collapse : Bool → Text → Text
collapse in_run [] = []
collapse in_run (c ∷ cs) =
    let kept = collapse false cs in
    let run = collapse true cs in
    if is_key_char c then c ∷ kept else if in_run then run else b'_' ∷ run

unfoldable pub drop_underscores : Text → Text
drop_underscores [] = []
drop_underscores (c ∷ cs) = let rest = drop_underscores cs in if c == b'_' then rest else c ∷ cs

abbrev pub before_underscores : ℕ → Text → Text
before_underscores c [] = if c == b'_' then [] else c ∷ []
before_underscores c (x ∷ xs) = c ∷ x ∷ xs

unfoldable pub drop_last_underscores : Text → Text
drop_last_underscores [] = []
drop_last_underscores (c ∷ cs) = before_underscores c (drop_last_underscores cs)

abbrev pub or_role : Text → Text
or_role [] = b'R' ∷ b'O' ∷ b'L' ∷ b'E' ∷ []
or_role (c ∷ cs) = c ∷ cs

-- The `base` of `freeKey`.
unfoldable pub base_key : Casing → Text → Text
unfolding collapse drop_underscores drop_last_underscores
base_key casing label =
    or_role
      (take 30 (drop_last_underscores (drop_underscores (collapse false (casing.to_upper label)))))

-- `taken.has(key)`
unfoldable pub has_key : Text → List Text → Bool
unfolding same_text
has_key key [] = false
has_key key (t ∷ ts) = same_text t key || has_key key ts

abbrev pub numbered : Text → ℕ → Text
numbered base n = base ++ (b'_' ∷ decimal n)

-- The loop of `freeKey`, from a number on, for so many turns.
unfoldable pub search_key : ℕ → ℕ → Text → List Text → Option Text
unfolding has_key decimal
search_key zero n base taken = none
search_key (suc fuel) n base taken =
    let later = search_key fuel (n + 1) base taken in
    if has_key (numbered base n) taken then later else some (numbered base n)

-- `taken` of `freeKey`
unfoldable pub taken_keys : Text → List RoleDef → List Text
unfolding filter starts_with built_in_keys
taken_keys base roles =
    map (λ r. r.key) (filter (λ r. starts_with base r.key) roles) ++ built_in_keys

-- `freeKey`: as many turns as there are keys taken, and one.
unfoldable pub free_key : Casing → Text → List RoleDef → Option Text
unfolding base_key taken_keys has_key search_key
free_key casing label roles =
    let base = base_key casing label in
    let taken = taken_keys base roles in
    let numbered_key = search_key (suc (length taken)) 2 base taken in
    if has_key base taken then numbered_key else some base
