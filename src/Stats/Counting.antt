-- ===== src/Stats/Counting.antt =====
-- The count of one event: a receipt and two counters in one transaction.
--
-- A counter is a `BIGINT` that is never negative.
pub mod Totals
use teri_chat.Prelude.{
  ℕ, ◌+◌, ◌^◌, Bool, true, false, ◌&&◌, Option, none, some, List, ◌∷◌, Result, ok, err, DbError,
  foreign_key_violation, out_of_range, leb, if◌then◌else◌,
}
use teri_chat.Prelude.Text.{Text, text_eq, codes}
use teri_chat.Table.{find, exists, update}
use teri_chat.Messaging.Conversations.{contains}
use teri_chat.Stats.Schema.{
  StatsError, bad_input, database, EventJson, Receipt, UserStats, ConversationStats, StatsDb,
  receipt_with, stats_of, stats_in,
}

abbrev pub countable_topic : Text
countable_topic = codes "message.created"

abbrev bad_actor : StatsError
bad_actor = bad_input "message.created payload missing valid actor_id"

abbrev bad_conversation : StatsError
bad_conversation = bad_input "message.created payload missing valid conversation_id"

abbrev pub map_unknown_scope : DbError → StatsError
map_unknown_scope foreign_key_violation =
    bad_input "event references an unknown user or conversation"
map_unknown_scope e = database e

-- `INSERT … ON CONFLICT (event_id) DO NOTHING`, with whether a row was written.
unfoldable pub insert_receipt : Receipt → StatsDb → Result DbError (Bool × StatsDb)
insert_receipt r db =
    if exists (receipt_with r.event_id) db.processed
    then ok (false, db)
    else if contains r.user_id db.users && contains r.conversation_id db.conversations
    then ok (true, record db { processed = r ∷ db.processed })
    else err foreign_key_violation

-- `message_count + 1`, if it is a `BIGINT`.
abbrev pub next_count : ℕ → Result DbError ℕ
next_count n = if leb (2 ^ 63) (n + 1) then err out_of_range else ok (n + 1)

-- `INSERT … ON CONFLICT DO UPDATE`, by the row that is there.
abbrev pub upserted_user :
    ℕ → ℕ → List UserStats → Option UserStats → Result DbError (List UserStats)
upserted_user now u rows none =
    ok (record { user_id = u; message_count = 1; last_message_at = some now } ∷ rows)
upserted_user now u rows (some row) = elim (next_count row.message_count) [
  | err e ↦ err e
  | ok n ↦ ok (
      update (stats_of u)
        (λ (row : UserStats). record row {
          message_count = row.message_count + 1;
          last_message_at = some now;
        })
        rows)
]

unfoldable pub upsert_user : ℕ → ℕ → List UserStats → Result DbError (List UserStats)
upsert_user now u rows = upserted_user now u rows (find (stats_of u) rows)

abbrev pub upserted_conversation :
    ℕ
    → ℕ
    → ℕ
    → List ConversationStats
    → Option ConversationStats
    → Result DbError (List ConversationStats)
upserted_conversation now u c rows none = ok (
    record { user_id = u; conversation_id = c; message_count = 1; last_message_at = some now }
    ∷ rows)
upserted_conversation now u c rows (some row) = elim (next_count row.message_count) [
  | err e ↦ err e
  | ok n ↦ ok (
      update (stats_in u c)
        (λ (row : ConversationStats). record row {
          message_count = row.message_count + 1;
          last_message_at = some now;
        })
        rows)
]

unfoldable pub upsert_conversation :
    ℕ → ℕ → ℕ → List ConversationStats → Result DbError (List ConversationStats)
upsert_conversation now u c rows = upserted_conversation now u c rows (find (stats_in u c) rows)

-- The two counters, after the receipt.
unfoldable pub raise_counters : ℕ → ℕ → ℕ → StatsDb → Result DbError StatsDb
unfolding upsert_user upsert_conversation
raise_counters now u c db = elim (upsert_user now u db.user_stats) [
  | err e ↦ err e
  | ok user_rows ↦ elim (upsert_conversation now u c db.conversation_stats) [
    | err e ↦ err e
    | ok rows ↦ ok (record db { user_stats = user_rows; conversation_stats = rows })
  ]
]

-- The transaction: an error loses the receipt.
unfoldable pub record_message : ℕ → ℕ → ℕ → ℕ → StatsDb → Result StatsError Bool × StatsDb
unfolding insert_receipt raise_counters
record_message now event_id u c db =
    elim (insert_receipt (record { event_id = event_id; user_id = u; conversation_id = c }) db) [
      | err e ↦ (err (map_unknown_scope e), db)
      | ok (false, after) ↦ (ok false, after)
      | ok (true, after) ↦ elim (raise_counters now u c after) [
        | err e ↦ (err (database e), db)
        | ok counted ↦ (ok true, counted)
      ]
    ]

-- `text.parse::<Uuid>()` is a parameter.
module _ (parse : Text → Option ℕ) where
  abbrev pub parsed_ids : Option ℕ → Option ℕ → Result StatsError (ℕ × ℕ)
  parsed_ids none c = err bad_actor
  parsed_ids (some u) none = err bad_conversation
  parsed_ids (some u) (some c) = ok (u, c)

  unfoldable pub event_ids : EventJson → Result StatsError (ℕ × ℕ)
  event_ids payload = elim (payload.actor_id) [
    | none ↦ err bad_actor
    | some actor ↦ elim (payload.conversation_id) [
      | none ↦ err bad_conversation
      | some conversation ↦ parsed_ids (parse actor) (parse conversation)
    ]
  ]

  unfoldable pub process_event :
      ℕ → ℕ → Text → EventJson → StatsDb → Result StatsError Bool × StatsDb
  unfolding event_ids record_message
  process_event now event_id topic payload db =
      if text_eq topic countable_topic
      then (elim (event_ids payload) [
        | err e ↦ (err e, db)
        | ok (u, c) ↦ record_message now event_id u c db
      ])
      else (ok false, db)
