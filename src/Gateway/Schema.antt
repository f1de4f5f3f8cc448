-- ===== src/Gateway/Schema.antt =====
-- The frames of the gateway and the state that it reads.
--
-- A client's text is what the JSON reader makes of it: a frame, or none. `World` is the database
-- and the clock: the tables of workspaces.rs, those of messaging.rs, and the sessions.
use teri_chat.Prelude.{ℕ, String, Option, List}
use teri_chat.Prelude.Int.{ℤ}
use teri_chat.Workspaces.Schema.{Db}
use teri_chat.Messaging.Schema.{MsgDb, OutboxEntry}
use teri_chat.Auth.Schema.{SessionRow}

pub data ClientFrame : Type 0 where
  identify : Option ℕ → ClientFrame
  heartbeat : ℤ → ClientFrame

-- What the socket yields: a text, a close frame, an error or the end, or a frame that is ignored.
pub data Incoming : Type 0 where
  text_frame : Option ClientFrame → Incoming
  closing : Incoming
  ignored : Incoming

-- `event` is the frame of `send_event`.
pub data ServerFrame : Type 0 where
  ready : ℕ → ℕ → ServerFrame
  heartbeat_ack : ℤ → ServerFrame
  fault : String → ServerFrame
  typing : ℕ → ℕ → ℕ → ServerFrame
  event : OutboxEntry → ServerFrame

pub record AuthSession : Type 0 where
  pub user_id : ℕ
  pub session_id : ℕ

pub record World : Type 0 where
  pub tables : Db
  pub messages : MsgDb
  pub sessions : List SessionRow
  pub now : ℕ
