-- ===== src/Roles/Removal.antt =====
-- Deleting a role (backend/src/roles/roles.controller.ts, `remove`).
use vfw.Prelude.{◌≡◌, refl, false, not, none, List, [], ◌∷◌, map, arith}
use vfw.Prelude.Words.{same_text}
use vfw.Acl.{AuthUser}
use vfw.Store.{Text, Db, Env}
use vfw.Store.Staff.{Account, Invitation, RoleDef}
use vfw.Store.Table.{find_where, filter}
use vfw.Store.Call.{ok}
use vfw.Roles.{has_role_key, moved, moved_invitation, fallback_role, remove_role}

-- The roles that a table has after the key is dropped.
dropped :
    (key : Text) (rows : List RoleDef)
    → find_where (has_role_key key) (filter (λ r. not (same_text r.key key)) rows) ≡ none
unfolding find_where filter
dropped key [] = refl
dropped key (r ∷ rest) = ground (arith, dropped key rest)

none_invited :
    (key : Text) (rows : List Invitation)
    → same_text fallback_role key ≡ false
    → find_where (λ i. same_text i.role key) (map (moved_invitation key) rows) ≡ none
unfolding find_where
none_invited key [] other = refl
none_invited key (i ∷ rest) other = ground (arith, none_invited key rest other)

module _ {D : Type 0} where
  none_left :
      (key : Text) (rows : List (Account D))
      → same_text fallback_role key ≡ false
      → find_where (λ a. same_text a.role key) (map (moved key) rows) ≡ none
  unfolding find_where
  none_left key [] other = refl
  none_left key (a ∷ rest) other = ground (arith, none_left key rest other)

  -- After a role other than the fallback role is deleted there is no role with its key, and no account
  -- and no invitation, deleted or closed ones included, has it.
  pub remove_role-orphans :
      (env : Env) (key : Text) (actor : AuthUser) (db : Db D)
      → same_text fallback_role key ≡ false
      → (remove_role env key actor db).0 ≡ ok tt
      → let staff = (remove_role env key actor db).1.staff in
        (find_where (has_role_key key) staff.roles ≡ none)
        × (find_where (λ a. same_text a.role key) staff.accounts ≡ none)
        × (find_where (λ i. same_text i.role key) staff.invitations ≡ none)
  unfolding remove_role
  remove_role-orphans env key actor db other done = ground (
    arith,
    dropped key db.staff.roles,
    none_left key db.staff.accounts other,
    none_invited key db.staff.invitations other,
  )
