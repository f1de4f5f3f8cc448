-- ===== src/Stats/Exact.antt =====
-- What the handling of an event can leave, and that it keeps the counters exact.
pub mod Reachable
use mathlib.Core.Path.{subst, sym}
use teri_chat.Prelude.{
  ℕ, ◌+◌, ◌≡◌, ◌∙◌, ◌⊎◌, ◌≤◌, refl, Bool, true, false, ◌&&◌, Option, List, [], ◌∷◌, ok, err, Result,
  arith, ◌==◌, Bool-cases, Option-cases, Result-cases, inl, inr, if◌then◌else◌,
}
use teri_chat.Prelude.Text.{Text, text_eq}
use teri_chat.Table.{exists, count}
use teri_chat.Messaging.Conversations.{contains}
use teri_chat.Stats.Schema.{
  StatsError, bad_input, database, not_member, EventJson, OutboxEvent, StatsDb, Receipt,
  receipt_with, receipt_of, receipt_in, event_with,
}
use teri_chat.Stats.Counting.{
  raise_counters, insert_receipt, record_message, process_event, event_ids, countable_topic,
}
use teri_chat.Stats.Counting.Totals.{user_total, conversation_total, Raised, raise_counters-Raised}
use teri_chat.Stats.Worker.{Weather, handle_event, settled, reject_event}

-- Every counter of a conversation is the number of the receipts of its user for it, the counter of a
-- user is no less than that of the user's receipts, and no event has two receipts.
pub record Exact (db : StatsDb) : Type 0 where
  pub conversation :
      (u c : ℕ) → conversation_total u c db.conversation_stats ≡ count (receipt_in u c) db.processed
  pub user : (u : ℕ) → count (receipt_of u) db.processed ≤ user_total u db.user_stats
  pub single : (i : ℕ) → count (receipt_with i) db.processed ≤ 1

abbrev pub with_receipt : ℕ → ℕ → ℕ → StatsDb → StatsDb
with_receipt i u c db = record db {
  processed = record { event_id = i; user_id = u; conversation_id = c } ∷ db.processed;
}

-- What the transaction of an event can leave.
pub data Outcome (i : ℕ) (db : StatsDb) (db' : StatsDb) : Type 0 where
  kept : db' ≡ db → Outcome i db db'
  counts :
      (u c : ℕ)
      → exists (receipt_with i) db.processed ≡ false
      → Raised u c (with_receipt i u c db) db'
      → Outcome i db db'
  rejects : db' ≡ record db { rejected = i ∷ db.rejected } → Outcome i db db'

pub record_message-Outcome :
    (now i u c : ℕ) (db : StatsDb) → Outcome i db (record_message now i u c db).1
unfolding record_message insert_receipt
record_message-Outcome now i u c db = elim (Bool-cases (exists (receipt_with i) db.processed)) [
  | inl e ↦ kept (ground arith)
  | inr e ↦
      elim (Result-cases
        (insert_receipt (record { event_id = i; user_id = u; conversation_id = c }) db)) [
          | inr (x, f) ↦ kept (ground arith)
          | inl ((b, after), f) ↦
              elim (Result-cases (raise_counters now u c (with_receipt i u c db))) [
                | inr (x, g) ↦ kept (ground arith)
                | inl (db', g) ↦
                    subst (Outcome i db) {x = db'} (ground arith)
                      (counts u c e (raise_counters-Raised now u c (with_receipt i u c db) db' g))
              ]
        ]
]

module _ (parse : Text → Option ℕ) where
  pub process_event-Outcome :
      (now i : ℕ) (topic : Text) (payload : EventJson) (db : StatsDb)
      → Outcome i db (process_event parse now i topic payload db).1
  unfolding process_event
  process_event-Outcome now i topic payload db = elim (Bool-cases (text_eq topic countable_topic)) [
    | inr n ↦ kept (ground arith)
    | inl t ↦ elim (Result-cases (event_ids parse payload)) [
      | inr (e, f) ↦ kept (ground arith)
      | inl ((u, c), f) ↦
          subst (Outcome i db) {x = (record_message now i u c db).1} (ground arith)
            (record_message-Outcome now i u c db)
    ]
  ]

record_message-err :
    (now i u c : ℕ) (db : StatsDb) (e : StatsError)
    → (record_message now i u c db).0 ≡ err e
    → (record_message now i u c db).1 ≡ db
unfolding record_message insert_receipt
record_message-err now i u c db e h =
    elim (Result-cases (raise_counters now u c (with_receipt i u c db))) [
      | inr (x, g) ↦ ground arith
      | inl (db', g) ↦ ground arith
    ]

reject_event-Outcome : (i : ℕ) (db : StatsDb) → Outcome i db (reject_event i db).1
unfolding reject_event
reject_event-Outcome i db = elim (Bool-cases (contains i db.rejected)) [
  | inl r ↦ kept (ground arith)
  | inr r ↦ elim (Bool-cases (exists (event_with i) db.outbox)) [
    | inl o ↦ rejects (ground arith)
    | inr o ↦ kept (ground arith)
  ]
]

module _ (parse : Text → Option ℕ) where
  process_event-err :
      (now i : ℕ) (topic : Text) (payload : EventJson) (db : StatsDb) (e : StatsError)
      → (process_event parse now i topic payload db).0 ≡ err e
      → (process_event parse now i topic payload db).1 ≡ db
  unfolding process_event
  process_event-err now i topic payload db e h = elim (Result-cases (event_ids parse payload)) [
    | inr (x, f) ↦ ground arith
    | inl ((u, c), f) ↦ ground (arith, record_message-err now i u c db e)
  ]

  settled-Outcome :
      (i : ℕ) (db : StatsDb) (answer : Result StatsError Bool) (after : StatsDb)
      → Outcome i db after
      → ((e : StatsError) → answer ≡ err e → after ≡ db)
      → Outcome i db (settled parse i (answer, after)).1
  settled-Outcome i db (ok true) after o h = o
  settled-Outcome i db (ok false) after o h = o
  settled-Outcome i db (err (bad_input detail)) after o h =
      subst (λ d. Outcome i db (reject_event i d).1) (sym (h (bad_input detail) refl))
        (reject_event-Outcome i db)
  settled-Outcome i db (err not_member) after o h = o
  settled-Outcome i db (err (database e)) after o h = o

  pub handle_event-Outcome :
      (w : Weather) (e : OutboxEvent) (db : StatsDb) → Outcome e.id db (handle_event parse w e db).1
  unfolding handle_event
  handle_event-Outcome w e db = elim (Option-cases (w.fails e.id)) [
    | inr (x, f) ↦ kept (ground arith)
    | inl f ↦
        let result = process_event parse (w.now e.id) e.id e.topic e.payload db in
        subst (Outcome e.id db) {x = (settled parse e.id result).1} (ground arith) (
          settled-Outcome e.id db result.0 result.1
            (process_event-Outcome parse (w.now e.id) e.id e.topic e.payload db)
            (process_event-err (w.now e.id) e.id e.topic e.payload db))
  ]

count_fresh :
    (i : ℕ) (rows : List Receipt)
    → exists (receipt_with i) rows ≡ false
    → count (receipt_with i) rows ≡ 0
unfolding exists count
count_fresh i [] h = refl
count_fresh i (r ∷ rows) h = ground (arith, count_fresh i rows)

-- Exactness is kept.
pub Outcome-Exact : (i : ℕ) (db db' : StatsDb) → Outcome i db db' → Exact db → Exact db'
unfolding count
Outcome-Exact i db db' (kept e) x = subst Exact (sym e) x
Outcome-Exact i db db' (rejects e) x =
    subst Exact (sym e) (record { conversation = x.conversation; user = x.user; single = x.single })
Outcome-Exact i db db' (counts u c n r) x = record {
  conversation = λ v k.
      ground
        (arith, r.processed, r.conversation_raised v k, x.conversation v k, x.conversation u c);
  user = λ v. ground (arith, r.processed, r.user_raised v, x.user v, x.user u);
  single = λ j.
      ground
        (arith, r.processed, x.single j, count_fresh j db.processed, count_fresh i db.processed);
}
