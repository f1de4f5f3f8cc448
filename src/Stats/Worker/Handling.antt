-- ===== src/Stats/Worker/Handling.antt =====
-- What the handling of an event leaves, by what the event says.
use mathlib.Core.Path.{subst}
use teri_chat.Prelude.{
  ℕ, ◌≡◌, refl, Bool, true, false, ◌&&◌, Option, ◌∷◌, ok, err, Result, arith, ◌==◌, Bool-cases,
  Option-cases, Result-cases, inl, inr,
}
use teri_chat.Prelude.Text.{Text, text_eq}
use teri_chat.Table.{exists}
use teri_chat.Messaging.Conversations.{contains}
use teri_chat.Stats.Schema.{
  OutboxEvent, StatsDb, StatsError, EventJson, bad_input, database, not_member, receipt_with,
  event_with,
}
use teri_chat.Stats.Counting.{
  countable_topic, event_ids, process_event, record_message, insert_receipt, raise_counters,
}
use teri_chat.Stats.Counting.Totals.{Raised, raise_counters-Raised}
use teri_chat.Stats.Worker.{Weather, handle_event, settled, reject_event}
use teri_chat.Stats.Exact.{with_receipt}

abbrev pub known : ℕ → ℕ → StatsDb → Bool
known u c db = contains u db.users && contains c db.conversations

module _ (parse : Text → Option ℕ) where
  -- A message of a user in a conversation, and one of a user, by the payload.
  abbrev pub names_both : ℕ → ℕ → Result StatsError (ℕ × ℕ) → Bool
  names_both u c (err e) = false
  names_both u c (ok (v, k)) = v == u && k == c

  abbrev pub message_by : ℕ → ℕ → OutboxEvent → Bool
  message_by u c e = text_eq e.topic countable_topic && names_both u c (event_ids parse e.payload)

  -- What the handling of an event of the outbox can leave.
  pub data Handled (e : OutboxEvent) (db : StatsDb) (db' : StatsDb) : Type 0 where
    kept : db' ≡ db → Handled e db db'
    counts :
        (u c : ℕ)
        → event_ids parse e.payload ≡ ok (u, c)
        → text_eq e.topic countable_topic ≡ true
        → exists (receipt_with e.id) db.processed ≡ false
        → Raised u c (with_receipt e.id u c db) db'
        → Handled e db db'
    rejects :
        ((u c : ℕ) → message_by u c e ≡ true → known u c db ≡ false)
        → db' ≡ record db { rejected = e.id ∷ db.rejected }
        → Handled e db db'

  reject_event-Handled :
      (e : OutboxEvent) (db : StatsDb)
      → ((u c : ℕ) → message_by u c e ≡ true → known u c db ≡ false)
      → Handled e db (reject_event e.id db).1
  unfolding reject_event
  reject_event-Handled e db h = elim (Bool-cases (contains e.id db.rejected)) [
    | inl r ↦ kept (ground arith)
    | inr r ↦ elim (Bool-cases (exists (event_with e.id) db.outbox)) [
      | inl o ↦ rejects h (ground arith)
      | inr o ↦ kept (ground arith)
    ]
  ]

  counted-Handled :
      (now u c : ℕ) (e : OutboxEvent) (db : StatsDb)
      → event_ids parse e.payload ≡ ok (u, c)
      → text_eq e.topic countable_topic ≡ true
      → Handled e db (settled parse e.id (record_message now e.id u c db)).1
  unfolding record_message insert_receipt
  counted-Handled now u c e db f t = elim (Bool-cases (exists (receipt_with e.id) db.processed)) [
    | inl x ↦ kept (ground arith)
    | inr x ↦ elim (Bool-cases (known u c db)) [
      | inr k ↦
          subst (Handled e db) {x = (reject_event e.id db).1} (ground arith)
            (reject_event-Handled e db (λ v j m. ground arith))
      | inl k ↦ elim (Result-cases (raise_counters now u c (with_receipt e.id u c db))) [
        | inr (y, g) ↦ kept (ground arith)
        | inl (db', g) ↦
            subst (Handled e db) {x = db'} (ground arith)
              (counts u c f t x (raise_counters-Raised now u c (with_receipt e.id u c db) db' g))
      ]
    ]
  ]

  ids_refused :
      (payload : EventJson) (e : StatsError)
      → event_ids parse payload ≡ err e
      → (u c : ℕ) → names_both u c (event_ids parse payload) ≡ false
  ids_refused payload e f u c = ground arith

  pub handle_event-Handled :
      (w : Weather) (e : OutboxEvent) (db : StatsDb) → Handled e db (handle_event parse w e db).1
  unfolding handle_event process_event
  handle_event-Handled w e db = elim (Option-cases (w.fails e.id)) [
    | inr (x, f) ↦ kept (ground arith)
    | inl f ↦ elim (Bool-cases (text_eq e.topic countable_topic)) [
      | inr t ↦ kept (ground arith)
      | inl t ↦ elim (Result-cases (event_ids parse e.payload)) [
        | inr (x, g) ↦
            subst (Handled e db) {x = (settled parse e.id (err x, db)).1} (ground arith)
              (refused x db (λ v j m. absurd (ground (arith, ids_refused e.payload x g v j))))
        | inl ((u, c), g) ↦
            subst (Handled e db)
              {x = (settled parse e.id (record_message (w.now e.id) e.id u c db)).1} (ground arith)
              (counted-Handled (w.now e.id) u c e db g t)
      ]
    ]
  ]
    where
      refused :
          (x : StatsError) (db : StatsDb)
          → ((u c : ℕ) → message_by u c e ≡ true → known u c db ≡ false)
          → Handled e db (settled parse e.id (err x, db)).1
      refused (bad_input detail) db h = reject_event-Handled e db h
      refused not_member db h = kept refl
      refused (database y) db h = kept refl
