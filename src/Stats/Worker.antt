-- ===== src/Stats/Worker.antt =====
-- The rounds of the worker that folds the outbox into the counters.
--
-- `Weather` says how the database answers: whether the query or the transaction of an event fails, and
-- with what, and the time of each transaction.
pub mod Settling
pub mod Progress
pub mod Draining
pub mod Handling
pub mod Rows
pub mod Reference
use teri_chat.Prelude.{
  ℕ, ◌+◌, Bool, true, false, not, ◌&&◌, Option, none, some, List, [], ◌∷◌, take, Result, ok, err,
  DbError, foreign_key_violation, ltb, if◌then◌else◌,
}
use teri_chat.Prelude.Text.{Text, text_eq}
use teri_chat.Table.{exists, select, order_by}
use teri_chat.Messaging.Conversations.{contains}
use teri_chat.Stats.Schema.{
  StatsError, not_member, bad_input, database, OutboxEvent, StatsDb, event_with, receipt_with,
}
use teri_chat.Stats.Counting.{countable_topic, process_event}

abbrev pub stats_batch : ℕ
stats_batch = 200

pub record Weather : Type 0 where
  pub query_fails : Option DbError
  pub fails : ℕ → Option DbError
  pub now : ℕ → ℕ

-- The conditions of the query.
abbrev pub pending : StatsDb → OutboxEvent → Bool
pending db e =
    text_eq e.topic countable_topic
    && not (exists (receipt_with e.id) db.processed)
    && not (contains e.id db.rejected)

abbrev pub smaller_event : OutboxEvent → OutboxEvent → Bool
smaller_event d e = ltb d.id e.id

unfoldable pub next_batch : StatsDb → List OutboxEvent
next_batch db = take stats_batch (order_by smaller_event (select (pending db) db.outbox))

-- `INSERT INTO stats_rejected_events … ON CONFLICT DO NOTHING`. The id refers to the outbox.
unfoldable pub reject_event : ℕ → StatsDb → Result StatsError ℕ × StatsDb
reject_event i db =
    if contains i db.rejected
    then (ok 0, db)
    else if exists (event_with i) db.outbox
    then (ok 0, record db { rejected = i ∷ db.rejected })
    else (err (database foreign_key_violation), db)

-- A round: its answer, the last id that it has handled, and what it leaves.
pub record Folded : Type 0 where
  pub answer : Result StatsError ℕ
  pub last_seen : Option ℕ
  pub db : StatsDb

module _ (parse : Text → Option ℕ) where
  -- The arms of the match: what an event adds to the count of the round.
  abbrev pub settled : ℕ → Result StatsError Bool × StatsDb → Result StatsError ℕ × StatsDb
  settled i (ok true, db) = (ok 1, db)
  settled i (ok false, db) = (ok 0, db)
  settled i (err (bad_input detail), db) = reject_event i db
  settled i (err not_member, db) = (err not_member, db)
  settled i (err (database e), db) = (err (database e), db)

  unfoldable pub handle_event : Weather → OutboxEvent → StatsDb → Result StatsError ℕ × StatsDb
  unfolding reject_event process_event
  handle_event w e db = elim (w.fails e.id) [
    | some x ↦ (err (database x), db)
    | none ↦ settled e.id (process_event parse (w.now e.id) e.id e.topic e.payload db)
  ]

  -- The loop over the batch.
  unfoldable pub fold_each : Weather → List OutboxEvent → ℕ → Option ℕ → StatsDb → Folded
  unfolding handle_event
  fold_each w [] folded seen db = record { answer = ok folded; last_seen = seen; db = db }
  fold_each w (e ∷ rows) folded seen db =
      let (answer, after) = handle_event w e db in
      elim answer [
        | err x ↦ record { answer = err x; last_seen = seen; db = after }
        | ok n ↦ fold_each w rows (folded + n) (some e.id) after
      ]

  unfoldable pub fold_new_events : Weather → Option ℕ → StatsDb → Folded
  unfolding fold_each next_batch
  fold_new_events w seen db = elim (w.query_fails) [
    | some x ↦ record { answer = err (database x); last_seen = seen; db = db }
    | none ↦ fold_each w (next_batch db) 0 seen db
  ]

  -- The loop of the worker, over the rounds it has had. It only logs the answers.
  unfoldable pub stats_worker : List Weather → Option ℕ → StatsDb → StatsDb
  unfolding fold_new_events
  stats_worker [] seen db = db
  stats_worker (w ∷ rounds) seen db =
      let round = fold_new_events w seen db in stats_worker rounds round.last_seen round.db
