-- ===== src/Messaging/Sending.antt =====
-- Sends, read markers and the history of a conversation.
--
-- The row locks of a send, on the participant and then on the conversation, make the transactions
-- on one conversation run one after the other, so each is one step here.
pub mod Effects
pub mod History
use teri_chat.Prelude.{
  ℕ, ◌+◌, ◌-◌, ◌^◌, Bool, true, false, not, ◌&&◌, Option, none, some, List, ◌∷◌, length, take,
  Result, ok, err, DbError, row_not_found, unique_violation, foreign_key_violation, check_violation,
  out_of_range, Tx, ◌>>=◌, ◌>>◌, pure, map_err, transaction, ltb, leb, ◌==◌, if◌then◌else◌,
}
use teri_chat.Prelude.Text.{Text, codes}
use teri_chat.Prelude.Int.{ℤ, pos, ltb_ℤ, pos_part}
use teri_chat.Table.{find, exists, select, update, order_by}
use teri_chat.Messaging.Schema.{
  MessagingError, not_member, empty_ciphertext, ciphertext_too_large, database, MsgDb, MsgEnv,
  ConversationRow, ParticipantRow, Message, StoredEvent, user_with, conversation_row, seat_in,
  at_seq, with_client_id, message_with, event_with,
}

abbrev pub max_ciphertext_bytes : ℕ
max_ciphertext_bytes = 1_048_576

abbrev pub max_history_limit : ℕ
max_history_limit = 100

abbrev pub message_created : Text
message_created = codes "message.created"

-- `UPDATE conversations SET next_seq = next_seq + 1 … RETURNING next_seq - 1`.
unfoldable pub take_seq : ℕ → Tx MsgDb DbError ℕ
take_seq c db = elim (find (conversation_row c) db.conversations) [
  | none ↦ err row_not_found
  | some row ↦ elim (ltb (row.next_seq + 1) (2 ^ 63)) [
    | false ↦ err out_of_range
    | true ↦ ok (
      row.next_seq,
      record db {
        conversations =
            update (conversation_row c)
              (λ (r : ConversationRow). record r { next_seq = r.next_seq + 1 }) db.conversations;
      },
    )
  ]
]

-- The error of that statement: a conversation that has gone is reported as no membership.
abbrev pub seq_error : DbError → MessagingError
seq_error row_not_found = not_member
seq_error e = database e

-- The CHECK of `messages.ciphertext`.
abbrev pub stored_length : ℕ → Bool
stored_length n = ltb 0 n && leb n max_ciphertext_bytes

-- The constraints that an INSERT into `messages` meets.
abbrev pub admits : Message → MsgDb → Result DbError (Unit {0})
admits m db =
    if not (stored_length (length m.ciphertext))
    then err check_violation
    else if exists (message_with m.id) db.messages
    then err unique_violation
    else if exists (at_seq m.conversation_id m.seq) db.messages
    then err unique_violation
    else if exists (with_client_id m.conversation_id m.client_msg_id) db.messages
    then err unique_violation
    else if not (exists (conversation_row m.conversation_id) db.conversations)
    then err foreign_key_violation
    else if not (exists (user_with m.sender_id) db.users)
    then err foreign_key_violation
    else ok tt

unfoldable pub insert_message_row : Message → Tx MsgDb DbError (Unit {0})
insert_message_row m db = elim (admits m db) [
  | err e ↦ err e
  | ok x ↦ ok (tt, record db { messages = m ∷ db.messages })
]

unfoldable pub insert_event : StoredEvent → Tx MsgDb DbError (Unit {0})
insert_event e db = elim (exists (event_with e.id) db.outbox) [
  | true ↦ err unique_violation
  | false ↦ ok (tt, record db { outbox = e ∷ db.outbox })
]

-- The event of a stored message.
abbrev pub event_of : ℕ → Message → StoredEvent
event_of event_id m = record {
  id = event_id;
  topic = message_created;
  payload = record {
    event_id = event_id;
    event_type = message_created;
    version = 1;
    timestamp = m.sent_at;
    actor_id = m.sender_id;
    conversation_id = some m.conversation_id;
    data_fields = some (record { message_id = m.id; seq = m.seq });
  };
  created_at = m.sent_at;
  published_at = none;
  attempts = 0;
}

unfoldable pub insert_message :
    MsgEnv → ℕ → ℕ → ℕ → List ℕ → Option (List ℕ) → ℕ → Tx MsgDb MessagingError Message
insert_message env sender c client ciphertext nonce seq = do
  let m : Message = record {
    id = env.message_id;
    conversation_id = c;
    sender_id = sender;
    seq = seq;
    ciphertext = ciphertext;
    nonce = nonce;
    client_msg_id = client;
    sent_at = env.now;
  }
  map_err database (insert_message_row m)
  map_err database (insert_event (event_of env.event_id m))
  pure m

-- `UPDATE conversation_participants SET last_read_seq = seq … AND last_read_seq = seq - 1`.
abbrev pub caught_up : ℕ → ℕ → ℕ → ParticipantRow → Bool
caught_up c u seq p = seat_in c u p && p.last_read_seq + 1 == seq

unfoldable pub read_own : ℕ → ℕ → ℕ → Tx MsgDb MessagingError (Unit {0})
read_own c u seq db = ok (
  tt,
  record db {
    participants =
        update (caught_up c u seq) (λ (p : ParticipantRow). record p { last_read_seq = seq })
          db.participants;
  },
)

-- The new row, after the look-up of a retry.
unfoldable pub send_new :
    MsgEnv → ℕ → ℕ → ℕ → List ℕ → Option (List ℕ) → Tx MsgDb MessagingError (Message × Bool)
unfolding insert_message read_own
send_new env sender c client ciphertext nonce = do
  seq ← map_err seq_error (take_seq c)
  message ← insert_message env sender c client ciphertext nonce seq
  read_own c sender seq
  pure (message, true)

unfoldable pub send_tx :
    MsgEnv → ℕ → ℕ → ℕ → List ℕ → Option (List ℕ) → Tx MsgDb MessagingError (Message × Bool)
unfolding send_new
send_tx env sender c client ciphertext nonce db = elim (exists (seat_in c sender) db.participants) [
  | false ↦ err not_member
  | true ↦ elim (find (with_client_id c client) db.messages) [
    | some m ↦ ok ((m, false), db)
    | none ↦ send_new env sender c client ciphertext nonce db
  ]
]

unfoldable pub send_message :
    MsgEnv
    → ℕ
    → ℕ
    → ℕ
    → List ℕ
    → Option (List ℕ)
    → MsgDb
    → Result MessagingError (Message × Bool) × MsgDb
unfolding send_tx
send_message env sender c client ciphertext nonce db =
    if length ciphertext == 0
    then (err empty_ciphertext, db)
    else if ltb max_ciphertext_bytes (length ciphertext)
    then (err ciphertext_too_large, db)
    else transaction (send_tx env sender c client ciphertext nonce) db

-- `GREATEST(a, b)` and `LEAST(a, b)`.
abbrev pub greatest : ℕ → ℕ → ℕ
greatest a b = if leb b a then a else b

abbrev pub least : ℕ → ℕ → ℕ
least a b = if leb a b then a else b

-- `GREATEST(p.last_read_seq, LEAST(seq, c.next_seq - 1))`. `next_seq` is at least 1.
abbrev pub advanced : ℕ → ℕ → ℕ → ℕ
advanced marker seq next = greatest marker (least seq (next - 1))

-- The UPDATE of one marker: a row of each table, or none is changed.
unfoldable pub mark_read : ℕ → ℕ → ℕ → ℤ → MsgDb → Result MessagingError ℕ × MsgDb
mark_read now u c seq db = elim (find (conversation_row c) db.conversations) [
  | none ↦ (err not_member, db)
  | some row ↦ elim (find (seat_in c u) db.participants) [
    | none ↦ (err not_member, db)
    | some p ↦ (
      ok (advanced p.last_read_seq (pos_part seq) row.next_seq),
      record db {
        participants =
            update (seat_in c u)
              (λ (q : ParticipantRow). record q {
                last_read_seq = advanced q.last_read_seq (pos_part seq) row.next_seq;
                last_read_at = some now;
              })
              db.participants;
      },
    )
  ]
]

-- `limit.clamp(1, MAX_HISTORY_LIMIT)`.
abbrev pub clamp_limit : ℤ → ℕ
clamp_limit limit =
    if leb (pos_part limit) 1
    then 1
    else if leb max_history_limit (pos_part limit)
    then max_history_limit
    else pos_part limit

abbrev pub after_seq : ℕ → ℤ → Message → Bool
after_seq c since m = m.conversation_id == c && ltb_ℤ since (pos m.seq)

abbrev pub earlier_seq : Message → Message → Bool
earlier_seq m n = ltb m.seq n.seq

unfoldable pub message_history : ℕ → ℕ → ℤ → ℤ → MsgDb → Result MessagingError (List Message)
message_history u c since limit db =
    if exists (seat_in c u) db.participants
    then ok
        (take (clamp_limit limit) (order_by earlier_seq (select (after_seq c since) db.messages)))
    else err not_member
