-- ===== src/Messaging/Schema.antt =====
-- The tables that messaging.rs reads and writes (migrations/*.sql), its errors and its structs.
--
-- Ids are 128-bit UUIDs and instants microseconds, both numbers, and bytes are numbers. `next_seq`
-- starts at 1 and only grows, and `last_read_seq` has a CHECK that it is not negative, so both are
-- natural numbers. Of the JSON of an event the model keeps the fields that messaging.rs and
-- gateway.rs name: `conversation_id` is `none` where the field is missing or is no id.
use teri_chat.Prelude.{ℕ, Bool, ◌&&◌, Option, List, ◌==◌, DbError}
use teri_chat.Prelude.Text.{Text, text_eq, codes}

pub data MessagingError : Type 0 where
  not_member empty_ciphertext ciphertext_too_large : MessagingError
  database : DbError → MessagingError

pub record UserRow : Type 0 where
  pub id : ℕ
  pub handle : Text
  pub display_name : Text

pub record ConversationRow : Type 0 where
  pub id : ℕ
  pub kind : Text
  pub created_by : ℕ
  pub next_seq : ℕ

pub record ParticipantRow : Type 0 where
  pub conversation_id : ℕ
  pub user_id : ℕ
  pub last_read_seq : ℕ
  pub last_read_at : Option ℕ

-- A row of `messages`, which is also the struct that `to_message` makes of it.
pub record Message : Type 0 where
  pub id : ℕ
  pub conversation_id : ℕ
  pub sender_id : ℕ
  pub seq : ℕ
  pub ciphertext : List ℕ
  pub nonce : Option (List ℕ)
  pub client_msg_id : ℕ
  pub sent_at : ℕ

-- The `data` of a `message.created` event.
pub record EventData : Type 0 where
  pub message_id : ℕ
  pub seq : ℕ

pub record Payload : Type 0 where
  pub event_id : ℕ
  pub event_type : Text
  pub version : ℕ
  pub timestamp : ℕ
  pub actor_id : ℕ
  pub conversation_id : Option ℕ
  pub data_fields : Option EventData

-- A row of `outbox`.
pub record StoredEvent : Type 0 where
  pub id : ℕ
  pub topic : Text
  pub payload : Payload
  pub created_at : ℕ
  pub published_at : Option ℕ
  pub attempts : ℕ

pub record MsgDb : Type 0 where
  pub users : List UserRow
  pub conversations : List ConversationRow
  pub participants : List ParticipantRow
  pub messages : List Message
  pub outbox : List StoredEvent

-- The struct that the creation of a conversation answers with.
pub record ConversationInfo : Type 0 where
  pub id : ℕ
  pub kind : Text
  pub members : List ℕ

pub record OutboxEntry : Type 0 where
  pub id : ℕ
  pub topic : Text
  pub payload : Payload

-- The ids that a request draws with `Uuid::now_v7`, and the time of its transaction.
pub record MsgEnv : Type 0 where
  pub now : ℕ
  pub conversation_id : ℕ
  pub message_id : ℕ
  pub event_id : ℕ
  -- Which row a LIMIT 1 without an order takes, when there are several.
  pub pick : ℕ

abbrev pub user_with : ℕ → UserRow → Bool
user_with u row = row.id == u

abbrev pub conversation_row : ℕ → ConversationRow → Bool
conversation_row c row = row.id == c

abbrev pub seat_in : ℕ → ℕ → ParticipantRow → Bool
seat_in c u row = row.conversation_id == c && row.user_id == u

abbrev pub in_conversation : ℕ → ParticipantRow → Bool
in_conversation c row = row.conversation_id == c

-- The keys of the two unique constraints of `messages`.
abbrev pub at_seq : ℕ → ℕ → Message → Bool
at_seq c n m = m.conversation_id == c && m.seq == n

abbrev pub with_client_id : ℕ → ℕ → Message → Bool
with_client_id c k m = m.conversation_id == c && m.client_msg_id == k

abbrev pub message_with : ℕ → Message → Bool
message_with i m = m.id == i

abbrev pub event_with : ℕ → StoredEvent → Bool
event_with i e = e.id == i

abbrev pub is_kind : Text → Text → Bool
is_kind name kind = text_eq kind name

abbrev pub dm_kind : Text
dm_kind = codes "dm"

abbrev pub group_kind : Text
group_kind = codes "group"

abbrev pub channel_kind : Text
channel_kind = codes "channel"
