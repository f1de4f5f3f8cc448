-- ===== src/Messaging/Sample.antt =====
-- A small database: three users, a direct conversation of the first two, and a message in it.
use teri_chat.Prelude.{ℕ, ◌≡◌, refl, true, none, [], ◌∷◌, arith, ok}
use teri_chat.Prelude.Text.{codes, text_eq}
use teri_chat.Table.{find, exists, select, update, count, order_by}
use teri_chat.Messaging.Schema.{MsgDb, MsgEnv, Message}
use teri_chat.Messaging.Conversations.{
  contains, insert_conversation_row, insert_participant, insert_participants, insert_conversation,
  create_conversation, pick_row, find_dm, dm_of, find_or_create_dm, is_member,
}
use teri_chat.Messaging.Sending.{
  take_seq, insert_message_row, insert_event, insert_message, read_own, send_new, send_tx,
  send_message, mark_read, message_history,
}
use teri_chat.Messaging.Commits.Numbering.{Numbered, next_of, once}

abbrev pub base : MsgDb
base = record {
  users =
      record { id = 1; handle = codes "ann"; display_name = codes "Ann" }
      ∷ record { id = 2; handle = codes "bob"; display_name = codes "Bob" }
      ∷ record { id = 3; handle = codes "cat"; display_name = codes "Cat" }
      ∷ [];
  conversations = [];
  participants = [];
  messages = [];
  outbox = [];
}

abbrev pub env_at : ℕ → MsgEnv
env_at n = record { now = n; conversation_id = n; message_id = n; event_id = n; pick = n }

abbrev pub opened : MsgDb
opened = (find_or_create_dm (env_at 10) 1 2 base).1

-- The first message, of user 1.
abbrev pub sent : MsgDb
sent = (send_message (env_at 20) 1 10 77 (5 ∷ []) none opened).1

abbrev pub message_20 : Message
message_20 = record {
  id = 20;
  conversation_id = 10;
  sender_id = 1;
  seq = 1;
  ciphertext = 5 ∷ [];
  nonce = none;
  client_msg_id = 77;
  sent_at = 20;
}

-- The statements that a run computes with.
unfoldable pub running : Unit {0}
unfolding find exists select update count order_by text_eq contains insert_conversation_row
    insert_participant insert_participants insert_conversation create_conversation pick_row find_dm
    dm_of find_or_create_dm is_member take_seq insert_message_row insert_event insert_message
    read_own send_new send_tx send_message mark_read message_history
running = tt

pub sent_run : send_message (env_at 20) 1 10 77 (5 ∷ []) none opened ≡ (ok (message_20, true), sent)
unfolding running
sent_run = refl

pub base-Numbered : Numbered base
unfolding find count next_of once
base-Numbered = record {
  started = λ c row e. ground arith;
  numbered = λ c n. ground arith;
  announced = λ c n. ground arith;
  behind = λ c u p e. ground arith;
}
