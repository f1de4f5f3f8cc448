-- ===== src/Messaging/Commits/Outside.antt =====
-- The writes of workspaces.rs to the tables of messaging, and the runs that they come between.
--
-- A transaction there writes several rows: it is a sequence of the writes of `Outside`.
use teri_chat.Prelude.{
  ℕ, ◌≡◌, Bool, true, false, not, ◌&&◌, some, List, ◌∷◌, arith, ◌==◌, Bool-cases, inl, inr,
}
use teri_chat.Table.{find, exists, delete}
use teri_chat.Table.Laws.{find-delete_other, exists-eq-is_some}
use teri_chat.Messaging.Schema.{
  MsgDb, ConversationRow, ParticipantRow, Message, StoredEvent, conversation_row, seat_in,
  in_conversation,
}
use teri_chat.Messaging.Commits.{Step}

-- A message of a conversation.
abbrev pub sent_in : ℕ → Message → Bool
sent_in d m = m.conversation_id == d

pub data Outside (db : MsgDb) (db' : MsgDb) : Type 0 where
  -- Of `sync_add_to_channels` and `create_channel`.
  seated :
      (row : ParticipantRow)
      → exists (seat_in row.conversation_id row.user_id) db.participants ≡ false
      → db' ≡ record db { participants = row ∷ db.participants }
      → Outside db db'
  -- Of `sync_remove_from_channels`: a user leaves, is removed or is banned.
  unseated :
      (d v : ℕ)
      → db' ≡ record db { participants = delete (seat_in d v) db.participants }
      → Outside db db'
  -- Of `create_channel`.
  opened :
      (row : ConversationRow)
      → exists (conversation_row row.id) db.conversations ≡ false
      → db' ≡ record db { conversations = row ∷ db.conversations }
      → Outside db db'
  -- Of `delete_channel`, with its cascades. Whatever entries of the outbox stay.
  closed :
      (d : ℕ) (outbox : List StoredEvent)
      → db' ≡ record db {
        conversations = delete (conversation_row d) db.conversations;
        participants = delete (in_conversation d) db.participants;
        messages = delete (sent_in d) db.messages;
        outbox = outbox;
      }
      → Outside db db'

-- Whether a write leaves the seat of a user in a conversation.
abbrev pub spares : ℕ → ℕ → {db db' : MsgDb} → Outside db db' → Bool
spares c u (seated row n e) = true
spares c u (unseated d v e) = not (d == c && v == u)
spares c u (opened row n e) = true
spares c u (closed d outbox e) = not (d == c)

-- The states that the calls of messaging.rs, the rounds of the worker and the writes of
-- workspaces.rs lead to, while nothing takes the user's seat in the conversation.
pub data Stays (c u : ℕ) (db : MsgDb) : MsgDb → Type 0 where
  begun : Stays c u db db
  call : {s t : MsgDb} → Stays c u db s → Step s t → Stays c u db t
  outside :
      {s t : MsgDb} → Stays c u db s → (o : Outside s t) → spares c u o ≡ true → Stays c u db t

same_key :
    (c u : ℕ) (row : ParticipantRow) (rows : List ParticipantRow)
    → (row.conversation_id == c && row.user_id == u) ≡ true
    → exists (seat_in row.conversation_id row.user_id) rows ≡ exists (seat_in c u) rows
same_key c u row rows e = ground arith

-- A row of the user's seat is found after a new one is inserted.
pub find-seated :
    (c u : ℕ) (row seat : ParticipantRow) (rows : List ParticipantRow)
    → exists (seat_in row.conversation_id row.user_id) rows ≡ false
    → find (seat_in c u) rows ≡ some seat
    → find (seat_in c u) (row ∷ rows) ≡ some seat
unfolding find
find-seated c u row seat rows n f =
    elim (Bool-cases (row.conversation_id == c && row.user_id == u)) [
      | inl e ↦
          absurd (ground (arith, same_key c u row rows e, exists-eq-is_some (seat_in c u) rows))
      | inr e ↦ ground arith
    ]

pub find-unseated :
    (c u d v : ℕ) (rows : List ParticipantRow)
    → not (d == c && v == u) ≡ true
    → find (seat_in c u) (delete (seat_in d v) rows) ≡ find (seat_in c u) rows
find-unseated c u d v rows h =
    find-delete_other (seat_in c u) (seat_in d v) rows (λ x e. ground arith)

pub find-closed :
    (c u d : ℕ) (rows : List ParticipantRow)
    → not (d == c) ≡ true
    → find (seat_in c u) (delete (in_conversation d) rows) ≡ find (seat_in c u) rows
find-closed c u d rows h =
    find-delete_other (seat_in c u) (in_conversation d) rows (λ x e. ground arith)
