-- ===== src/Stats/Worker/Settling.antt =====
-- An event that the worker handles while the database answers is settled: it has a receipt, or the
-- record of its rejection.
use mathlib.Core.Path.{subst, sym}
use teri_chat.Prelude.{
  ℕ, String, ◌+◌, ◌^◌, ◌≡◌, ◌≤◌, ◌<◌, ap, ◌∙◌, suc, Bool, true, false, ◌&&◌, ◌||◌, Option, none,
  List, ◌∷◌, ok, err, Result, arith, Bool-cases, Option-cases, Result-cases, inl, inr,
}
use teri_chat.Prelude.Text.{Text, text_eq}
use teri_chat.Table.{exists}
use teri_chat.Messaging.Conversations.{contains}
use teri_chat.Stats.Schema.{
  StatsError, not_member, bad_input, database, EventJson, OutboxEvent, UserStats, ConversationStats,
  StatsDb, receipt_with, event_with,
}
use teri_chat.Stats.Counting.{
  raise_counters, upsert_user, upsert_conversation, insert_receipt, record_message, process_event,
  event_ids, countable_topic,
}
use teri_chat.Stats.Counting.Totals.{user_total, conversation_total, raise_counters-Raised}
use teri_chat.Stats.Worker.{Weather, handle_event, settled, reject_event, pending}
use teri_chat.Stats.Exact.{process_event-Outcome, with_receipt, Outcome, kept, counts, rejects}

-- The counters have room for `n` more events.
pub record Room (n : ℕ) (db : StatsDb) : Type 0 where
  pub user : (u : ℕ) → user_total u db.user_stats + n < 2 ^ 63
  pub conversation : (u c : ℕ) → conversation_total u c db.conversation_stats + n < 2 ^ 63

pub less-Room : (m n : ℕ) (db : StatsDb) → m ≤ n → Room n db → Room m db
less-Room m n db l r = record {
  user = λ u. omega (arith, r.user u);
  conversation = λ u c. omega (arith, r.conversation u c);
}

upsert_user-room :
    (now u n : ℕ) (rows : List UserStats)
    → user_total u rows + suc n < 2 ^ 63
    → (rows' : List UserStats) × (upsert_user now u rows ≡ ok rows')
unfolding upsert_user
upsert_user-room now u n rows h = elim (Result-cases (upsert_user now u rows)) [
  | inl (rows', e) ↦ (rows', e)
  | inr (x, e) ↦ absurd (ground arith)
]

upsert_conversation-room :
    (now u c n : ℕ) (rows : List ConversationStats)
    → conversation_total u c rows + suc n < 2 ^ 63
    → (rows' : List ConversationStats) × (upsert_conversation now u c rows ≡ ok rows')
unfolding upsert_conversation
upsert_conversation-room now u c n rows h = elim (Result-cases (upsert_conversation now u c rows)) [
  | inl (rows', e) ↦ (rows', e)
  | inr (x, e) ↦ absurd (ground arith)
]

raise_counters-room :
    (now u c n : ℕ) (db : StatsDb)
    → Room (suc n) db
    → (db' : StatsDb) × (raise_counters now u c db ≡ ok db')
unfolding raise_counters
raise_counters-room now u c n db r =
    let users = upsert_user-room now u n db.user_stats (r.user u) in
    let rows = upsert_conversation-room now u c n db.conversation_stats (r.conversation u c) in
    (
      record db { user_stats = users.0; conversation_stats = rows.0 },
      ground (arith, users.1, rows.1),
    )

-- What an event has when it is settled.
abbrev pub Noted : ℕ → Result StatsError Bool × StatsDb → Type 0
Noted i (ok b, db) = exists (receipt_with i) db.processed ≡ true
Noted i (err (bad_input detail), db) = Unit
Noted i (err e, db) = ⊥

record_message-Noted :
    (now i u c n : ℕ) (db : StatsDb) → Room (suc n) db → Noted i (record_message now i u c db)
unfolding record_message insert_receipt exists
record_message-Noted now i u c n db r = elim (Bool-cases (exists (receipt_with i) db.processed)) [
  | inl e ↦ subst (Noted i) {x = (ok false, db)} (ground arith) e
  | inr e ↦ elim (Bool-cases (contains u db.users && contains c db.conversations)) [
    | inr k ↦
        subst (Noted i)
          {x = (err (bad_input "event references an unknown user or conversation"), db)}
          (ground arith) tt
    | inl k ↦
        let raised =
          raise_counters-room now u c n (with_receipt i u c db)
            (record { user = r.user; conversation = r.conversation }) in
        let kept_rows = raise_counters-Raised now u c (with_receipt i u c db) raised.0 raised.1 in
        subst (Noted i) {x = (ok true, raised.0)} (ground (arith, raised.1))
          (ground (arith, kept_rows.processed))
  ]
]

module _ (parse : Text → Option ℕ) where
  event_ids-refusal :
      (payload : EventJson) (e : StatsError)
      → event_ids parse payload ≡ err e
      → (detail : String) × (e ≡ bad_input detail)
  unfolding event_ids
  event_ids-refusal payload e h = elim (Option-cases payload.actor_id) [
    | inl a ↦ ("message.created payload missing valid actor_id", ground arith)
    | inr (actor, a) ↦ elim (Option-cases payload.conversation_id) [
      | inl b ↦ ("message.created payload missing valid conversation_id", ground arith)
      | inr (conversation, b) ↦ elim (Option-cases (parse actor)) [
        | inl f ↦ ("message.created payload missing valid actor_id", ground arith)
        | inr (u, f) ↦ ("message.created payload missing valid conversation_id", ground arith)
      ]
    ]
  ]

  process_event-Noted :
      (now i n : ℕ) (topic : Text) (payload : EventJson) (db : StatsDb)
      → text_eq topic countable_topic ≡ true
      → Room (suc n) db
      → Noted i (process_event parse now i topic payload db)
  unfolding process_event
  process_event-Noted now i n topic payload db t r = elim (Result-cases (event_ids parse payload)) [
    | inr (e, f) ↦
        let refused = event_ids-refusal payload e f in
        subst (Noted i) {x = (err (bad_input refused.0), db)} (ground (arith, refused.1)) tt
    | inl ((u, c), f) ↦
        subst (Noted i) {x = record_message now i u c db} (ground arith)
          (record_message-Noted now i u c n db r)
  ]

  -- Neither a receipt nor the record of a rejection is missing.
  abbrev pub Settles : ℕ → Result StatsError ℕ × StatsDb → Type 0
  Settles i (ok k, db) = (exists (receipt_with i) db.processed || contains i db.rejected) ≡ true
  Settles i (err e, db) = ⊥

  reject_event-Settles :
      (i : ℕ) (db : StatsDb)
      → exists (event_with i) db.outbox ≡ true
      → Settles i (reject_event i db)
  unfolding reject_event contains
  reject_event-Settles i db o = elim (Bool-cases (contains i db.rejected)) [
    | inl r ↦ subst (Settles i) {x = (ok 0, db)} (ground arith) (ground arith)
    | inr r ↦
        subst (Settles i) {x = (ok 0, record db { rejected = i ∷ db.rejected })} (ground arith)
          (ground arith)
  ]

  settled-Settles :
      (i : ℕ) (answer : Result StatsError Bool × StatsDb)
      → Noted i answer
      → exists (event_with i) answer.1.outbox ≡ true
      → Settles i (settled parse i answer)
  settled-Settles i (ok true, db) e o = ground arith
  settled-Settles i (ok false, db) e o = ground arith
  settled-Settles i (err (bad_input detail), db) e o = reject_event-Settles i db o
  settled-Settles i (err not_member, db) e o = elim e [ ]
  settled-Settles i (err (database x), db) e o = elim e [ ]

  pub Outcome-outbox : (i : ℕ) (db db' : StatsDb) → Outcome i db db' → db'.outbox ≡ db.outbox
  Outcome-outbox i db db' (kept e) = ground arith
  Outcome-outbox i db db' (counts u c n r) = ground (arith, r.outbox)
  Outcome-outbox i db db' (rejects e) = ground arith

  pub handle_event-Settles :
      (w : Weather) (e : OutboxEvent) (n : ℕ) (db : StatsDb)
      → w.fails e.id ≡ none
      → text_eq e.topic countable_topic ≡ true
      → exists (event_with e.id) db.outbox ≡ true
      → Room (suc n) db
      → Settles e.id (handle_event parse w e db)
  unfolding handle_event
  handle_event-Settles w e n db f t o r =
      let result = process_event parse (w.now e.id) e.id e.topic e.payload db in
      subst (Settles e.id) {x = settled parse e.id result} (ground arith) (
        settled-Settles e.id result
          (process_event-Noted (w.now e.id) e.id n e.topic e.payload db t r)
          (ap (exists (event_with e.id)) (
              Outcome-outbox e.id db result.1
                (process_event-Outcome parse (w.now e.id) e.id e.topic e.payload db))
            ∙ o))

-- What is settled stays settled, and the room shrinks by one event.
pub Outcome-pending :
    (i : ℕ) (db db' : StatsDb) (e : OutboxEvent)
    → Outcome i db db'
    → pending db e ≡ false
    → pending db' e ≡ false
unfolding exists contains
Outcome-pending i db db' e (kept k) p = ground arith
Outcome-pending i db db' e (counts u c n r) p = ground (arith, r.processed, r.rejected)
Outcome-pending i db db' e (rejects k) p = ground arith

pub Outcome-Room : (i n : ℕ) (db db' : StatsDb) → Outcome i db db' → Room (suc n) db → Room n db'
Outcome-Room i n db db' (kept k) r = subst (Room n) (sym k) (less-Room n (suc n) db (omega arith) r)
Outcome-Room i n db db' (rejects k) r = subst (Room n) (sym k) (record {
  user = λ u. omega (arith, r.user u);
  conversation = λ u c. omega (arith, r.conversation u c);
})
Outcome-Room i n db db' (counts u c f raised) r = record {
  user = λ v. ground (arith, raised.user_raised v, r.user v, r.user u);
  conversation =
      λ v k. ground (arith, raised.conversation_raised v k, r.conversation v k, r.conversation u c);
}
