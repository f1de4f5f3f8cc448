-- ===== src/Stats/Schema.antt =====
-- The tables of the counters (migrations/20260907222039_stats_baseline.sql and
-- 20260908090000_stats_rejected_events.sql), and what they refer to.
--
-- Of the JSON of an event the model keeps what `get(field).and_then(as_str)` yields for the two
-- fields that are read.
use teri_chat.Prelude.{ℕ, String, Bool, ◌&&◌, Option, List, ◌==◌, DbError}
use teri_chat.Prelude.Text.{Text}

pub data StatsError : Type 0 where
  not_member : StatsError
  bad_input : String → StatsError
  database : DbError → StatsError

pub record EventJson : Type 0 where
  pub actor_id : Option Text
  pub conversation_id : Option Text

-- A row of `outbox`, as far as the worker reads it.
pub record OutboxEvent : Type 0 where
  pub id : ℕ
  pub topic : Text
  pub payload : EventJson

-- A row of `stats_processed_events`.
pub record Receipt : Type 0 where
  pub event_id : ℕ
  pub user_id : ℕ
  pub conversation_id : ℕ

-- A row of `user_message_stats`, and the answer that shows it.
pub record UserStats : Type 0 where
  pub user_id : ℕ
  pub message_count : ℕ
  pub last_message_at : Option ℕ

-- A row of `user_conversation_stats`, and the answer that shows it.
pub record ConversationStats : Type 0 where
  pub user_id : ℕ
  pub conversation_id : ℕ
  pub message_count : ℕ
  pub last_message_at : Option ℕ

pub record StatsDb : Type 0 where
  pub users : List ℕ
  pub conversations : List ℕ
  pub outbox : List OutboxEvent
  pub processed : List Receipt
  pub rejected : List ℕ
  pub user_stats : List UserStats
  pub conversation_stats : List ConversationStats

abbrev pub event_with : ℕ → OutboxEvent → Bool
event_with i e = e.id == i

abbrev pub receipt_with : ℕ → Receipt → Bool
receipt_with i r = r.event_id == i

abbrev pub stats_of : ℕ → UserStats → Bool
stats_of u row = row.user_id == u

abbrev pub stats_in : ℕ → ℕ → ConversationStats → Bool
stats_in u c row = row.user_id == u && row.conversation_id == c

-- The receipts of a user, and those for a conversation.
abbrev pub receipt_of : ℕ → Receipt → Bool
receipt_of u r = r.user_id == u

abbrev pub receipt_in : ℕ → ℕ → Receipt → Bool
receipt_in u c r = r.user_id == u && r.conversation_id == c
