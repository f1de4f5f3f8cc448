-- ===== src/Messaging/Commits.antt =====
-- The transactions of messaging.rs, as one step relation, and what each may do to the tables.
pub mod Changes
pub mod Numbering
pub mod Founding
pub mod Numbered
pub mod Outside
pub mod Dms
pub mod Retries
pub mod Markers
use teri_chat.Prelude.{[], ℕ, Option, List}
use teri_chat.Prelude.Text.{Text}
use teri_chat.Prelude.Int.{ℤ}
use teri_chat.Messaging.Schema.{MsgDb, MsgEnv}
use teri_chat.Messaging.Conversations.{create_conversation, find_or_create_dm}
use teri_chat.Messaging.Sending.{send_message, mark_read}
use teri_chat.Messaging.Outbox.{Weather, worker_round}

-- A round of the worker, on the whole database.
unfoldable pub worked : Weather → MsgDb → MsgDb
unfolding worker_round
worked w db = record db {
  outbox = (worker_round w (record { outbox = db.outbox; sent = [] })).outbox;
}

-- One request, or one round of the worker, whatever it answers.
pub data Step (db : MsgDb) : MsgDb → Type 0 where
  create :
      (env : MsgEnv) (creator : ℕ) (kind : Text) (members : List ℕ)
      → Step db (create_conversation env creator kind members db).1
  direct : (env : MsgEnv) (a b : ℕ) → Step db (find_or_create_dm env a b db).1
  send :
      (env : MsgEnv) (sender c client : ℕ) (ciphertext : List ℕ) (iv : Option (List ℕ))
      → Step db (send_message env sender c client ciphertext iv db).1
  mark : (now u c : ℕ) (seq : ℤ) → Step db (mark_read now u c seq db).1
  work : (w : Weather) → Step db (worked w db)

-- Any number of them, one after the other.
pub data Reach (db : MsgDb) : MsgDb → Type 0 where
  start : Reach db db
  step : {s s' : MsgDb} → Reach db s → Step s s' → Reach db s'
