-- ===== src/Receipts.antt =====
-- backend/src/messaging/receipts.ts: the ticks of a message, and how many messages are unread.
pub mod Growth
use vfw.Prelude.{
  ℕ, Bool, true, false, not, ◌&&◌, ◌==◌, List, [], ◌∷◌, length, ltb, leb, if◌then◌else◌,
}
use vfw.Store.Table.{filter}
use vfw.Roles.{no_rows}

-- `TickState`
pub data TickState : Type 0 where
  sent delivered read : TickState

pub record ParticipantCursor : Type 0 where
  pub user_id : ℕ
  pub last_delivered_seq : ℕ
  pub last_read_seq : ℕ

pub record Message : Type 0 where
  pub seq : ℕ
  pub sender_id : ℕ

-- `others.every(test)`
abbrev pub every : (ParticipantCursor → Bool) → List ParticipantCursor → Bool
every test [] = true
every test (p ∷ ps) = test p && every test ps

abbrev pub others : ℕ → List ParticipantCursor → List ParticipantCursor
others sender_id = filter (λ p. not (p.user_id == sender_id))

-- `tickState`
unfoldable pub tick_state : ℕ → ℕ → List ParticipantCursor → TickState
unfolding filter
tick_state seq sender_id participants =
    let rest = others sender_id participants in
    if no_rows rest
    then sent
    else if every (λ p. leb seq p.last_read_seq) rest
    then read
    else if every (λ p. leb seq p.last_delivered_seq) rest
    then delivered
    else sent

-- `unreadCount`
unfoldable pub unread_count : List Message → ℕ → ℕ → ℕ
unfolding filter
unread_count messages viewer_id last_read_seq =
    length (filter (λ m. ltb last_read_seq m.seq && not (m.sender_id == viewer_id)) messages)
