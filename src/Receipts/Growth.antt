-- ===== src/Receipts/Growth.antt =====
-- Ticks and unread messages as the cursors of backend/src/messaging/receipts.ts move on.
use vfw.Prelude.{ℕ, ◌≤◌, ◌≡◌, refl, true, List, [], ◌∷◌, arith, leb}
use vfw.Store.Table.{filter}
use vfw.Roles.{no_rows}
use vfw.Receipts.{TickState, sent, delivered, read, ParticipantCursor, every, others, tick_state}

abbrev pub rank : TickState → ℕ
rank sent = 0
rank delivered = 1
rank read = 2

-- The same participants, no cursor behind where it was.
abbrev pub HasGrown : List ParticipantCursor → List ParticipantCursor → Type 0
HasGrown [] [] = Unit
HasGrown [] (q ∷ qs) = ⊥
HasGrown (p ∷ ps) [] = ⊥
HasGrown (p ∷ ps) (q ∷ qs) =
    (q.user_id ≡ p.user_id)
    × (p.last_delivered_seq ≤ q.last_delivered_seq)
    × (p.last_read_seq ≤ q.last_read_seq)
    × HasGrown ps qs

module _ (seq sender_id : ℕ) where
  alone :
      (ps qs : List ParticipantCursor)
      → HasGrown ps qs
      → no_rows (others sender_id qs) ≡ no_rows (others sender_id ps)
  unfolding filter
  alone [] [] h = refl
  alone [] (q ∷ qs) h = absurd h
  alone (p ∷ ps) [] h = absurd h
  alone (p ∷ ps) (q ∷ qs) h = ground (arith, alone ps qs)

  all_read :
      (ps qs : List ParticipantCursor)
      → HasGrown ps qs
      → every (λ p. leb seq p.last_read_seq) (others sender_id ps) ≡ true
      → every (λ p. leb seq p.last_read_seq) (others sender_id qs) ≡ true
  unfolding filter
  all_read [] [] h e = refl
  all_read [] (q ∷ qs) h e = absurd h
  all_read (p ∷ ps) [] h e = absurd h
  all_read (p ∷ ps) (q ∷ qs) h e = ground (arith, all_read ps qs)

  all_delivered :
      (ps qs : List ParticipantCursor)
      → HasGrown ps qs
      → every (λ p. leb seq p.last_delivered_seq) (others sender_id ps) ≡ true
      → every (λ p. leb seq p.last_delivered_seq) (others sender_id qs) ≡ true
  unfolding filter
  all_delivered [] [] h e = refl
  all_delivered [] (q ∷ qs) h e = absurd h
  all_delivered (p ∷ ps) [] h e = absurd h
  all_delivered (p ∷ ps) (q ∷ qs) h e = ground (arith, all_delivered ps qs)

  -- A tick never goes back: as the cursors of the participants move on, in whatever order deliveries and
  -- reads come in, the state of a message only moves from sent to delivered to read.
  pub tick_grows :
      (ps qs : List ParticipantCursor)
      → HasGrown ps qs
      → rank (tick_state seq sender_id ps) ≤ rank (tick_state seq sender_id qs)
  unfolding tick_state
  tick_grows ps qs h = ground (arith, alone ps qs h, all_read ps qs h, all_delivered ps qs h)
