-- ===== src/Messaging/Sending/Effects.antt =====
-- What a send and a marker leave behind, on every branch.
use teri_chat.Prelude.{
  ℕ, ◌≡◌, inl, inr, ◌+◌, ◌^◌, ◌<◌, Bool, true, Option, some, List, ◌∷◌, ok, arith, Option-cases,
}
use teri_chat.Table.{find, update}
use teri_chat.Messaging.Schema.{
  MsgDb, MsgEnv, ConversationRow, ParticipantRow, Message, conversation_row,
}
use teri_chat.Messaging.Sending.{
  take_seq, insert_message_row, insert_event, event_of, insert_message, caught_up, read_own,
  send_new,
}

-- The row that a send writes.
abbrev pub message_of : MsgEnv → ℕ → ℕ → ℕ → List ℕ → Option (List ℕ) → ℕ → Message
message_of env sender c client ciphertext iv seq = record {
  id = env.message_id;
  conversation_id = c;
  sender_id = sender;
  seq = seq;
  ciphertext = ciphertext;
  nonce = iv;
  client_msg_id = client;
  sent_at = env.now;
}

abbrev pub bump : ConversationRow → ConversationRow
bump r = record r { next_seq = r.next_seq + 1 }

abbrev pub read_at : ℕ → ParticipantRow → ParticipantRow
read_at seq p = record p { last_read_seq = seq }

-- The state after a new message.
abbrev pub after_send : ℕ → Message → MsgDb → MsgDb
after_send event_id m db = record db {
  conversations = update (conversation_row m.conversation_id) bump db.conversations;
  participants =
      update (caught_up m.conversation_id m.sender_id m.seq) (read_at m.seq) db.participants;
  messages = m ∷ db.messages;
  outbox = event_of event_id m ∷ db.outbox;
}

abbrev pub Stored : MsgEnv → ℕ → ℕ → ℕ → List ℕ → Option (List ℕ) → MsgDb → Message → MsgDb → Type 0
Stored env sender c client ciphertext iv db m db' =
    (row : ConversationRow) × (find (conversation_row c) db.conversations ≡ some row)
    × (m ≡ message_of env sender c client ciphertext iv row.next_seq)
    × (row.next_seq + 1 < 2 ^ 63)
    × (db' ≡ after_send env.event_id m db)

pub send_new-ok :
    (env : MsgEnv) (sender c client : ℕ) (ciphertext : List ℕ) (iv : Option (List ℕ))
    (db db' : MsgDb) (m : Message) (b : Bool)
    → send_new env sender c client ciphertext iv db ≡ ok ((m, b), db')
    → Stored env sender c client ciphertext iv db m db' × (b ≡ true)
unfolding send_new take_seq insert_message insert_message_row insert_event read_own
send_new-ok env sender c client ciphertext iv db db' m b h =
    elim (Option-cases (find (conversation_row c) db.conversations)) [
      | inl e ↦ ground arith
      | inr (row, e) ↦ ground arith
    ]
