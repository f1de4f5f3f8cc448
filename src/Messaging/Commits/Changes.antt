-- ===== src/Messaging/Commits/Changes.antt =====
-- Every step is one of five changes of the tables.
use mathlib.Core.Path.{subst}
use teri_chat.Prelude.{
  ℕ, ◌≡◌, inl, inr, refl, Bool, false, Option, none, some, List, [], ◌∷◌, Result, ok, err, arith,
  ◌==◌, length, Bool-cases, Option-cases, Result-cases, ◌&&◌, ltb, map,
}
use teri_chat.Prelude.Text.{Text}
use teri_chat.Prelude.Int.{ℤ, pos_part}
use teri_chat.Table.{find, exists, update, count}
use teri_chat.Table.Laws.{count-update}
use teri_chat.Messaging.Schema.{
  MessagingError, MsgDb, MsgEnv, ConversationRow, ParticipantRow, Message, StoredEvent, EventData,
  conversation_row, seat_in, with_client_id, OutboxEntry, dm_kind,
}
use teri_chat.Messaging.Conversations.{
  insert_conversation, create_conversation, find_or_create_dm, dm_of, find_dm,
}
use teri_chat.Messaging.Conversations.Effects.{Founded, insert_conversation-Founded}
use teri_chat.Messaging.Sending.{
  send_message, send_tx, send_new, mark_read, max_ciphertext_bytes, advanced,
}
use teri_chat.Messaging.Sending.Effects.{after_send, send_new-ok}
use teri_chat.Messaging.Outbox.{
  Weather, worker_round, deliver_entries, claim_outbox, claim_ids, mark_published, among, attempted,
  published, entry_id, outbox_batch, event_id_of, oldest, Worker,
}
use teri_chat.Messaging.Commits.{Step, create, direct, send, mark, work, worked}

abbrev pub names_seq : ℕ → ℕ → Option ℕ → Option EventData → Bool
names_seq c n (some d) (some x) = d == c && x.seq == n
names_seq c n k x = false

-- An event that announces the message `n` of the conversation `c`.
abbrev pub announces : ℕ → ℕ → StoredEvent → Bool
announces c n e = names_seq c n e.payload.conversation_id e.payload.data_fields

abbrev pub marker_set : ℕ → ℕ → ℕ → ParticipantRow → ParticipantRow
marker_set now seq next q = record q {
  last_read_seq = advanced q.last_read_seq seq next;
  last_read_at = some now;
}

-- A change of the outbox that keeps what every event announces.
abbrev pub SameEvents : List StoredEvent → List StoredEvent → Type 0
SameEvents rows rows' = (c n : ℕ) → count (announces c n) rows' ≡ count (announces c n) rows

pub data Change (db : MsgDb) : MsgDb → Type 0 where
  same : {db' : MsgDb} → db' ≡ db → Change db db'
  founded : {db' : MsgDb} (c : ℕ) → Founded c db db' → Change db db'
  appended :
      {db' : MsgDb} (event_id : ℕ) (m : Message) (row : ConversationRow)
      → find (conversation_row m.conversation_id) db.conversations ≡ some row
      → find (with_client_id m.conversation_id m.client_msg_id) db.messages ≡ none
      → m.seq ≡ row.next_seq
      → db' ≡ after_send event_id m db
      → Change db db'
  marked :
      {db' : MsgDb} (now u c seq : ℕ) (row : ConversationRow)
      → find (conversation_row c) db.conversations ≡ some row
      → db' ≡ record db {
        participants = update (seat_in c u) (marker_set now seq row.next_seq) db.participants;
      }
      → Change db db'
  delivered :
      {db' : MsgDb} (rows : List StoredEvent)
      → SameEvents db.outbox rows
      → db' ≡ record db { outbox = rows }
      → Change db db'

create-Change :
    (env : MsgEnv) (creator : ℕ) (kind : Text) (members : List ℕ) (db : MsgDb)
    → Change db (create_conversation env creator kind members db).1
unfolding create_conversation
create-Change env creator kind members db =
    elim (Result-cases (insert_conversation env.conversation_id creator kind members db)) [
      | inl ((r, s), e) ↦ founded env.conversation_id (
          subst (λ z. Founded env.conversation_id db z) (ground arith)
            (insert_conversation-Founded env.conversation_id creator kind members db s r e))
      | inr (e, q) ↦ same (ground arith)
    ]

direct-Change : (env : MsgEnv) (a b : ℕ) (db : MsgDb) → Change db (find_or_create_dm env a b db).1
unfolding find_or_create_dm dm_of
direct-Change env a b db = elim (Option-cases (find_dm env.pick a b db)) [
  | inr (c, f) ↦ same (ground arith)
  | inl f ↦ elim (Result-cases (insert_conversation env.conversation_id a dm_kind (b ∷ []) db)) [
    | inl ((r, s), e) ↦ founded env.conversation_id (
        subst (λ z. Founded env.conversation_id db z) (ground arith)
          (insert_conversation-Founded env.conversation_id a dm_kind (b ∷ []) db s r e))
    | inr (e, q) ↦ same (ground arith)
  ]
]

send-Change :
    (env : MsgEnv) (sender c client : ℕ) (ciphertext : List ℕ) (iv : Option (List ℕ)) (db : MsgDb)
    → Change db (send_message env sender c client ciphertext iv db).1
unfolding send_message send_tx
send-Change env sender c client ciphertext iv db = elim (Bool-cases (length ciphertext == 0)) [
  | inl z ↦ same (ground arith)
  | inr z ↦ elim (Bool-cases (ltb max_ciphertext_bytes (length ciphertext))) [
    | inl l ↦ same (ground arith)
    | inr l ↦ elim (Bool-cases (exists (seat_in c sender) db.participants)) [
      | inr p ↦ same (ground arith)
      | inl p ↦ elim (Option-cases (find (with_client_id c client) db.messages)) [
        | inr (m, f) ↦ same (ground arith)
        | inl f ↦ elim (Result-cases (send_new env sender c client ciphertext iv db)) [
          | inr (e, q) ↦ same (ground arith)
          | inl (((m, new), s), e) ↦
              let k = send_new-ok env sender c client ciphertext iv db s m new e in
              appended env.event_id m k.0.0 (ground (arith, k.0.1, k.0.2)) (ground (arith, k.0.2))
                (ground (arith, k.0.2)) (ground (arith, k.0.4))
        ]
      ]
    ]
  ]
]

mark-Change : (now u c : ℕ) (seq : ℤ) (db : MsgDb) → Change db (mark_read now u c seq db).1
unfolding mark_read
mark-Change now u c seq db = elim (Option-cases (find (conversation_row c) db.conversations)) [
  | inl e ↦ same (ground arith)
  | inr (row, e) ↦ elim (Option-cases (find (seat_in c u) db.participants)) [
    | inl f ↦ same (ground arith)
    | inr (p, f) ↦ marked now u c (pos_part seq) row e (ground arith)
  ]
]

claim-Same : (ids : List ℕ) (rows : List StoredEvent) → SameEvents rows (claim_ids ids rows).1
unfolding claim_ids
claim-Same ids rows c n =
    ground (arith, count-update (announces c n) (among ids) attempted rows (λ x. refl))

mark-Same :
    (now : ℕ) (ids : List ℕ) (rows : List StoredEvent)
    → SameEvents rows (mark_published now ids rows)
unfolding mark_published
mark-Same now [] rows c n = refl
mark-Same now (i ∷ ids) rows c n =
    count-update (announces c n) (among (i ∷ ids)) (published now) rows (λ x. refl)

deliver-Same :
    (w : Weather) (answer : Result MessagingError (List OutboxEntry) × List StoredEvent)
    (sent : List OutboxEntry)
    → SameEvents answer.1 (deliver_entries w answer sent).outbox
unfolding deliver_entries
deliver-Same w (err e, rows) sent c n = refl
deliver-Same w (ok [], rows) sent c n = refl
deliver-Same w (ok (e ∷ entries), rows) sent c n =
    ground (arith, mark-Same w.now (map entry_id (e ∷ entries)) rows c n)

round-Same : (w : Weather) (s : Worker) → SameEvents s.outbox (worker_round w s).outbox
unfolding worker_round claim_outbox
round-Same w s c n = ground (
  arith,
  deliver-Same w (claim_outbox w.locked outbox_batch s.outbox) s.sent c n,
  claim-Same (map event_id_of (oldest w.locked outbox_batch s.outbox)) s.outbox c n,
)

pub Step-Change : {db db' : MsgDb} → Step db db' → Change db db'
unfolding worked
Step-Change {db} (create env creator kind members) = create-Change env creator kind members db
Step-Change {db} (direct env a b) = direct-Change env a b db
Step-Change {db} (send env sender c client ciphertext iv) =
    send-Change env sender c client ciphertext iv db
Step-Change {db} (mark now u c seq) = mark-Change now u c seq db
Step-Change {db} (work w) =
    delivered (worker_round w (record { outbox = db.outbox; sent = [] })).outbox
      (round-Same w (record { outbox = db.outbox; sent = [] })) refl
