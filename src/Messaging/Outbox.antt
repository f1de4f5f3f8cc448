-- ===== src/Messaging/Outbox.antt =====
-- The outbox: claims, stamps, the scan of a replay, and the rounds of the worker.
--
-- `now` is the time of a statement. The subquery of a claim skips the rows that others hold
-- locked, which are a parameter. The order in which `RETURNING` lists the claimed rows is not
-- specified: it is the order of the table here, and no theorem depends on it.
pub mod Delivery
pub mod Progress
pub mod Rounds
use teri_chat.Prelude.{
  ℕ, ◌+◌, ◌^◌, Bool, true, false, not, ◌&&◌, Option, none, some, List, [], ◌∷◌, map, take, Result,
  ok, err, out_of_range, ltb, leb, if◌then◌else◌,
}
use teri_chat.Prelude.Int.{ℤ}
use teri_chat.Table.{exists, select, update, order_by}
use teri_chat.Messaging.Schema.{
  MessagingError, database, MsgDb, ParticipantRow, StoredEvent, OutboxEntry, seat_in,
}
use teri_chat.Messaging.Conversations.{contains}
use teri_chat.Messaging.Sending.{clamp_limit}

abbrev pub outbox_batch : ℕ
outbox_batch = 50

abbrev pub entry_of : StoredEvent → OutboxEntry
entry_of e = record { id = e.id; topic = e.topic; payload = e.payload }

abbrev pub is_unpublished : StoredEvent → Bool
is_unpublished e = elim (e.published_at) [ none ↦ true | some at ↦ false ]

abbrev pub claimable : List ℕ → StoredEvent → Bool
claimable locked e = is_unpublished e && not (contains e.id locked)

abbrev pub created_earlier : StoredEvent → StoredEvent → Bool
created_earlier d e = ltb d.created_at e.created_at

abbrev pub event_id_of : StoredEvent → ℕ
event_id_of e = e.id

-- The subquery: the oldest `limit` unpublished rows that nobody holds locked.
unfoldable pub oldest : List ℕ → ℕ → List StoredEvent → List StoredEvent
oldest locked limit outbox =
    take limit (order_by created_earlier (select (claimable locked) outbox))

abbrev pub among : List ℕ → StoredEvent → Bool
among ids e = contains e.id ids

-- `attempts` is a 32-bit integer.
abbrev pub exhausted : List ℕ → StoredEvent → Bool
exhausted ids e = among ids e && leb (2 ^ 31) (e.attempts + 1)

abbrev pub attempted : StoredEvent → StoredEvent
attempted e = record e { attempts = e.attempts + 1 }

unfoldable pub claim_ids :
    List ℕ → List StoredEvent → Result MessagingError (List OutboxEntry) × List StoredEvent
claim_ids ids outbox =
    if exists (exhausted ids) outbox
    then (err (database out_of_range), outbox)
    else (ok (map entry_of (select (among ids) outbox)), update (among ids) attempted outbox)

unfoldable pub claim_outbox :
    List ℕ → ℕ → List StoredEvent → Result MessagingError (List OutboxEntry) × List StoredEvent
unfolding claim_ids oldest
claim_outbox locked limit outbox = claim_ids (map event_id_of (oldest locked limit outbox)) outbox

abbrev pub published : ℕ → StoredEvent → StoredEvent
published now e = record e { published_at = some now }

-- With no id there is no statement, and the statement would change no row.
unfoldable pub mark_published : ℕ → List ℕ → List StoredEvent → List StoredEvent
mark_published now [] outbox = outbox
mark_published now (i ∷ ids) outbox = update (among (i ∷ ids)) (published now) outbox

abbrev pub entry_id : OutboxEntry → ℕ
entry_id e = e.id

-- How the database answers in one round of the worker, and which rows others hold locked.
pub record Weather : Type 0 where
  pub now : ℕ
  pub locked : List ℕ
  pub claim_fails : Bool
  pub mark_fails : Bool

-- The worker's view: the table, and what it has sent to the hub, newest first.
pub record Worker : Type 0 where
  pub outbox : List StoredEvent
  pub sent : List OutboxEntry

-- `for entry in &entries { hub.send(entry) }`.
unfoldable pub send_all : List OutboxEntry → List OutboxEntry → List OutboxEntry
send_all [] sent = sent
send_all (e ∷ entries) sent = send_all entries (e ∷ sent)

unfoldable pub deliver_entries :
    Weather
    → Result MessagingError (List OutboxEntry) × List StoredEvent
    → List OutboxEntry
    → Worker
unfolding mark_published send_all
deliver_entries w (err e, outbox) sent = record { outbox = outbox; sent = sent }
deliver_entries w (ok [], outbox) sent = record { outbox = outbox; sent = sent }
deliver_entries w (ok (e ∷ entries), outbox) sent = record {
  outbox =
      if w.mark_fails then outbox else mark_published w.now (map entry_id (e ∷ entries)) outbox;
  sent = send_all (e ∷ entries) sent;
}

-- One turn of the loop. A claim that the database refuses changes nothing.
unfoldable pub worker_round : Weather → Worker → Worker
unfolding claim_outbox deliver_entries
worker_round w s =
    if w.claim_fails
    then s
    else deliver_entries w (claim_outbox w.locked outbox_batch s.outbox) s.sent

-- The loop, over the rounds it has had, the first first.
unfoldable pub outbox_worker : List Weather → Worker → Worker
unfolding worker_round
outbox_worker [] s = s
outbox_worker (w ∷ rounds) s = outbox_worker rounds (worker_round w s)

-- `payload->>'conversation_id' IN (the conversations of the user)`.
abbrev pub participates : ℕ → List ParticipantRow → Option ℕ → Bool
participates u participants none = false
participates u participants (some c) = exists (seat_in c u) participants

-- `$2 IS NULL OR o.id > $2`.
abbrev pub beyond : Option ℕ → ℕ → Bool
beyond none i = true
beyond (some a) i = ltb a i

abbrev pub replayable : ℕ → Option ℕ → List ParticipantRow → StoredEvent → Bool
replayable u cursor participants e =
    participates u participants e.payload.conversation_id && beyond cursor e.id

abbrev pub smaller_id : StoredEvent → StoredEvent → Bool
smaller_id d e = ltb d.id e.id

unfoldable pub events_after : ℕ → Option ℕ → ℤ → MsgDb → List OutboxEntry
events_after u cursor limit db = map entry_of (
    take (clamp_limit limit)
      (order_by smaller_id (select (replayable u cursor db.participants) db.outbox)))
