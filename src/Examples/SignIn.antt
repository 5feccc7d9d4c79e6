-- ===== src/Examples/SignIn.antt =====
-- The theorems about accounts at a small office: an administrator, a rep who has asked for a reset link, and
-- an invitation. The libraries are replaced by functions on short texts.
use vfw.Prelude.{◌≤◌, ◌≡◌, refl, true, false, none, some, List, [], ◌∷◌, arith, if◌then◌else◌}
use vfw.Prelude.Words.{trim, same_text}
use vfw.Acl.{role_key, sales, admin}
use vfw.Store.{Text, Db, Env}
use vfw.Store.Access.{active, PasswordReset, is_active, is_pending}
use vfw.Store.Staff.{Account, Invitation, salary}
use vfw.Store.Table.{find, find_where, map_some}
use vfw.Store.Call.{ok, err, bad_request, unauthorized, unavailable}
use vfw.Auth.{
  Platform, Draws, session, SessionClaims, address, account_id, has_email, signed_in, session_user,
  sign_session,
}
use vfw.Auth.Login.{login}
use vfw.Auth.Signup.{SignupDto, signup}
use vfw.Auth.Recovery.{forgot, reset}
use vfw.Auth.Session.{
  Request, Route, can_activate, verify_session, token_of, given_token, session_of, grants,
}
use vfw.Auth.Tries.{Guess, chances, try_all}
use vfw.Auth.Lockout.{IsWrong, guess_bound}
use vfw.Auth.Return.{owner_gets_in}
use vfw.Auth.Replies.{forgot_reply}
use vfw.Auth.Guarded.{guard_sound}
use vfw.Users.{is_admin, delete_user}
use vfw.Gate.{Incoming, serve_all, log_in, remove_user}
use vfw.Gate.Administrators.{has_admin, admin_remains}
use vfw.Gate.Invited.{invitation_once}
use vfw.Gate.Once.{reset_once}
use vfw.Gate.Sessions.{reset-signs_out, delete_user-signs_out}
use vfw.Examples.{Amount, money, env, holding, sale, checker}
use vfw.Decimal.Fixed.{fixed}

abbrev pub secret : Text
secret = b's' ∷ []

abbrev wrong : Text
wrong = b'w' ∷ []

abbrev rep_email : Text
rep_email = b'a' ∷ []

-- The token that the rep was given.
abbrev pub cookie : Text
cookie = b't' ∷ []

abbrev link : Text
link = b'k' ∷ []

abbrev pub claims : SessionClaims
claims = record { id = 7; role = role_key sales; tv = 0 }

abbrev pub platform : Platform
platform = record {
  to_lower = λ text. text;
  to_upper = λ text. text;
  hash = λ salt text. salt;
  verify = λ hash text. same_text text secret;
  sign_token = λ now said. cookie;
  read_token = λ now text. if same_text text cookie then some (session claims) else none;
  decrypt = λ stored. some stored;
  totp_valid = λ now stored code. false;
  email_configured = true;
  production = true;
  echo_links = false;
}

abbrev draws : Draws
draws = record { salt = "x"; reset_token = b'n' ∷ []; otp = 42; otp_id = 600; email_sent = false }

abbrev rep : Account Amount
rep = record {
  id = 7;
  email = rep_email;
  name = b'A' ∷ [];
  phone = none;
  role = role_key sales;
  department = none;
  status = active;
  credentials = record {
    password_hash = some "h";
    token_version = 0;
    google_id = none;
    totp_enabled = false;
    totp_secret = none;
  };
  hidden = false;
  deleted = false;
  pay_type = salary;
  base_rate = money 200_000;
  earns_commission = true;
  commission_pct = money 1_000;
  target = money 0;
}

abbrev boss : Account Amount
boss = record rep { id = 2; email = b'b' ∷ []; role = role_key admin }

abbrev asked : PasswordReset
asked = record { token = link; user_id = 7; expires_at = 5_000; used_at = none }

abbrev invitation : Invitation
invitation = record {
  id = 90;
  code = b'V' ∷ [];
  role = role_key sales;
  department = none;
  email = none;
  expires_at = 9_000;
  used_at = none;
  used_by = none;
  revoked_at = none;
  deleted_at = none;
  created_by = 2;
}

abbrev office : Db Amount
office = record (holding sale) {
  staff = record (holding sale).staff {
    accounts = boss ∷ rep ∷ [];
    invitations = invitation ∷ [];
    access = record (holding sale).staff.access { resets = asked ∷ [] };
  };
}

abbrev event : Incoming Amount
event = record { env = env; draws = draws; request = log_in rep_email wrong }

abbrev purge : Incoming Amount
purge = record { env = env; draws = draws; request = remove_user 2 checker }

abbrev events : List (Incoming Amount)
events = event ∷ purge ∷ []

abbrev guess : Guess
guess = record { env = env; email = rep_email; password = wrong }

abbrev guesses : List Guess
guesses = guess ∷ guess ∷ guess ∷ guess ∷ guess ∷ guess ∷ guess ∷ []

-- Seven tries: at five of them the right password would have been accepted.
five_chances : chances platform secret rep_email guesses office ≡ 5
unfolding chances
five_chances = refl

guess_bound_example : chances platform secret rep_email guesses office ≤ 5
unfolding find_where same_text
guess_bound_example =
    let miss : IsWrong platform 1_000 rep_email office guess =
      (omega arith, omega arith, λ e. refl) in
    guess_bound platform 1_000 secret rep_email guesses office
      (miss, (miss, (miss, (miss, (miss, (miss, (miss, tt)))))))

abbrev next_day : Env
next_day = record env { now = 1_000_000 }

owner_gets_in_example :
    (login platform next_day rep_email secret (try_all platform guesses office)).0
    ≡ ok (
        signed_in
          (session_user rep (try_all platform guesses office))
          (sign_session platform next_day (session_user rep (try_all platform guesses office)) 0))
unfolding find_where same_text trim
owner_gets_in_example =
    owner_gets_in platform guesses office next_day rep_email secret rep (omega arith) refl refl refl
      refl refl

reset-signs_out_example :
    (verify_session platform next_day
      (some cookie)
      (serve_all platform events (reset platform env draws link secret office).1)).0
    ≡ err unauthorized
unfolding reset find same_text
reset-signs_out_example =
    reset-signs_out platform env draws link secret office asked rep events next_day cookie claims
      refl refl refl refl refl (omega arith)

delete_user-signs_out_example :
    (verify_session platform next_day
      (some cookie)
      (serve_all platform events (delete_user 7 checker office).1)).0
    ≡ err unauthorized
unfolding find same_text delete_user
delete_user-signs_out_example =
    delete_user-signs_out platform 7 checker office rep events next_day cookie claims refl refl refl
      refl (omega arith)

reset_once_example :
    (reset platform next_day draws link wrong
      (serve_all platform events (reset platform env draws link secret office).1)).0
    ≡ err bad_request
unfolding reset
reset_once_example =
    reset_once platform env draws link secret office events next_day draws wrong refl

admin_remains_example : has_admin (serve_all platform events office).staff.accounts ≡ true
unfolding is_admin
admin_remains_example = admin_remains platform events office refl

abbrev newcomer : SignupDto
newcomer = record {
  code = b'V' ∷ [];
  name = b'N' ∷ [];
  email = b'n' ∷ [];
  password = secret;
  phone = none;
  department = none;
}

abbrev mailing : Draws
mailing = record draws { email_sent = true }

invitation_once_example :
    let db' = (signup platform env mailing newcomer office).1 in
    let made = find_where (has_email (address platform newcomer.email)) db'.staff.accounts in
    (map_some (λ a. a.role) made ≡ some (role_key sales))
    × (map_some (λ a. is_pending a.status) made ≡ some true)
    × ((signup platform next_day mailing newcomer (serve_all platform events db')).0
        ≡ err bad_request)
unfolding signup find_where find
invitation_once_example =
    invitation_once platform env mailing newcomer invitation office
      (record { email = b'n' ∷ []; dev_otp = none }) events next_day mailing newcomer refl refl refl
      refl

forgot_reply_example : (forgot platform env draws rep_email office).0 ≡ err unavailable
unfolding find_where same_text trim
forgot_reply_example = forgot_reply platform env draws rep_email office refl refl

abbrev visit : Request
visit = record { cookie = some cookie; authorization = none }

abbrev my_page : Route
my_page = record { is_http = true; is_public = false; permission = none }

guard_sound_example :
    (text : Text) × (who : SessionClaims) × (a : Account Amount) × (given_token
        (token_of platform visit)
      ≡ some text)
    × (session_of (platform.read_token env.now text) ≡ some who)
    × (find account_id who.id office.staff.accounts ≡ some a)
    × (a.deleted ≡ false)
    × (is_active a.status ≡ true)
    × (who.tv ≡ a.credentials.token_version)
    × (some (session_user rep office) ≡ some (session_user a office))
    × (grants my_page.permission (session_user a office) ≡ true)
unfolding can_activate
guard_sound_example =
    guard_sound platform env my_page visit office (some (session_user rep office)) refl refl refl
