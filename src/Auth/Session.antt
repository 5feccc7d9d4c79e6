-- ===== src/Auth/Session.antt =====
-- backend/src/common/auth.guard.ts: whose session a token is (`verifySession`), and what a route asks of
-- it (`AuthGuard`). The routes' decorators are a parameter.
use vfw.Prelude.{Bool, true, false, ◌==◌, Option, none, some, [], ◌∷◌, if◌then◌else◌}
use vfw.Prelude.Words.{same_text}
use vfw.Acl.{AuthUser, Permission, can}
use vfw.Store.{Text, Env}
use vfw.Store.Table.{find, find_where}
use vfw.Store.Call.{Call, unauthorized, forbidden, pure, get, guard, or_throw, ◌>>=◌, ◌>>◌}
use vfw.Roles.{effective_permissions}
use vfw.Auth.{Claims, session, SessionClaims, Platform, account_id, assert_let_in, session_user}

-- A token that is not empty.
abbrev pub given_token : Option Text → Option Text
given_token none = none
given_token (some []) = none
given_token (some (c ∷ cs)) = some (c ∷ cs)

-- The claims of a session.
abbrev pub session_of : Option Claims → Option SessionClaims
session_of (some (session claims)) = some claims
session_of _ = none

-- `header.split(' ')`, less what follows the second word.
unfoldable pub next_word : Text → Text
next_word [] = []
next_word (c ∷ cs) = if c == 32 then [] else c ∷ next_word cs

unfoldable pub after_word : Text → Text
after_word [] = []
after_word (c ∷ cs) = if c == 32 then cs else after_word cs

abbrev pub bearer : Text
bearer = b'b' ∷ b'e' ∷ b'a' ∷ b'r' ∷ b'e' ∷ b'r' ∷ []

-- `extractBearerToken`
unfoldable pub extract_bearer_token : Platform → Option Text → Option Text
unfolding next_word after_word same_text
extract_bearer_token platform none = none
extract_bearer_token platform (some header) =
    if same_text (platform.to_lower (next_word header)) bearer
    then given_token (some (next_word (after_word header)))
    else none

-- What the guard reads of a request, and of the route.
pub record Request : Type 0 where
  pub cookie : Option Text
  pub authorization : Option Text

pub record Route : Type 0 where
  pub is_http : Bool
  pub is_public : Bool
  pub permission : Option Permission

-- `req.cookies?.[SESSION_COOKIE] ?? extractBearerToken(req)`
abbrev pub token_of : Platform → Request → Option Text
token_of platform req = elim req.cookie [
  | some t ↦ some t
  | none ↦ extract_bearer_token platform req.authorization
]

abbrev pub grants : Option Permission → AuthUser → Bool
grants none user = true
grants (some permission) user = can permission user

module _ {D : Type 0} where
  -- `verifySession`
  unfoldable pub verify_session : Platform → Env → Option Text → Call D AuthUser
  unfolding find find_where same_text effective_permissions
  verify_session platform env token = do
    text ← or_throw unauthorized (given_token token)
    claims ← or_throw unauthorized (session_of (platform.read_token env.now text))
    db ← get
    user ← or_throw unauthorized (find account_id claims.id db.staff.accounts)
    assert_let_in user
    guard (claims.tv == user.credentials.token_version) unauthorized
    pure (session_user user db)

  -- `canActivate`: the user of the request, if it has one.
  unfoldable pub can_activate : Platform → Env → Route → Request → Call D (Option AuthUser)
  unfolding verify_session extract_bearer_token can
  can_activate platform env route req = elim route.is_http [
    | false ↦ pure none
    | true ↦ elim route.is_public [
      | true ↦ pure none
      | false ↦ verify_session platform env (token_of platform req) >>= λ user.
          guard (grants route.permission user) forbidden >> pure (some user)
    ]
  ]
