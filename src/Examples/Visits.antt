-- ===== src/Examples/Visits.antt =====
-- A customer opens the link that was mailed, and a message is read.
use vfw.Receipts.{ParticipantCursor, tick_state}
use vfw.Receipts.Growth.{rank, tick_grows}
use vfw.Prelude.{◌≤◌, arith, ◌≡◌, refl, true, none, some, List, [], ◌∷◌}
use vfw.Decimal.Fixed.{fixed}
use vfw.Store.{Contact, Text, Db, Env}
use vfw.Store.Call.{ok}
use vfw.Portal.{SignatureRequest, sent, send_link, get_portal_data}
use vfw.Portal.Links.{shown, link_opens}
use vfw.Examples.{Amount, env, holding, approved_sale, contact, details, maker}
use vfw.Examples.SignIn.{platform}

abbrev reachable : Contact
reachable = record contact { details = record details { email = some "a@loom" } }

abbrev shop : Db Amount
shop = record (holding approved_sale) { contacts = reachable ∷ [] }

abbrev token : Text
token = b'p' ∷ []

abbrev requests : List SignatureRequest
requests =
    record {
      submission_id = 10;
      status = sent;
      sent_at = 950;
      completed_at = none;
      signed_document = none;
    }
    ∷ []

abbrev next_week : Env
next_week = record env { now = 604_801_000 }

link_opens_example :
    (get_portal_data next_week requests token (send_link platform env token true 30 maker shop).1).0
    ≡ ok (record {
      brand = "Loom";
      designer = "A. Weaver";
      company = none;
      submissions = shown requests approved_sale ∷ [];
    })
unfolding send_link
link_opens_example =
    link_opens platform env b'p' [] true 30 maker shop "a@loom" reachable next_week requests refl
      refl

abbrev before : List ParticipantCursor
before =
    record { user_id = 1; last_delivered_seq = 9; last_read_seq = 9 }
    ∷ record { user_id = 2; last_delivered_seq = 8; last_read_seq = 5 }
    ∷ []

abbrev after : List ParticipantCursor
after =
    record { user_id = 1; last_delivered_seq = 9; last_read_seq = 9 }
    ∷ record { user_id = 2; last_delivered_seq = 9; last_read_seq = 8 }
    ∷ []

tick_grows_example : rank (tick_state 7 1 before) ≤ rank (tick_state 7 1 after)
tick_grows_example = tick_grows 7 1 before after (ground arith)
