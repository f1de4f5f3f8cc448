-- ===== src/Workspaces/Schema.antt =====
-- The tables that workspaces.rs reads and writes (migrations/*.sql), and their rows.
--
-- Ids are 128-bit UUIDs and instants microseconds, both numbers. A `role` column is a `Role` and
-- a `permission` column a `Permission`: the schema's CHECK constraints admit only the names that
-- `as_str` prints. A pair (`target_kind`, `target`) is one `Target`.
use teri_chat.Prelude.{ℕ, String, Bool, ◌&&◌, Option, List, ◌==◌}
use teri_chat.Prelude.Text.{Text}
use teri_chat.Workspaces.Role.{Role, Permission}

pub record Workspace : Type 0 where
  pub id : ℕ
  pub name : Text
  pub owner_id : ℕ
  pub created_at : ℕ
  pub updated_at : ℕ

-- A row of `workspace_members`.
pub record Seat : Type 0 where
  pub workspace_id : ℕ
  pub user_id : ℕ
  pub role : Role
  pub joined_at : ℕ

pub record Ban : Type 0 where
  pub workspace_id : ℕ
  pub user_id : ℕ
  pub banned_by : ℕ
  pub reason : Text

pub record Channel : Type 0 where
  pub id : ℕ
  pub workspace_id : ℕ
  pub conversation_id : ℕ
  pub name : Text
  pub created_by : ℕ
  pub created_at : ℕ

pub data Target : Type 0 where
  to_role : Role → Target
  to_member : ℕ → Target

pub record ChannelOverride : Type 0 where
  pub channel_id : ℕ
  pub target : Target
  pub permission : Permission
  pub allowed : Bool

pub record Invite : Type 0 where
  pub id : ℕ
  pub workspace_id : ℕ
  pub code : Text
  pub created_by : ℕ
  pub initial_role : Role
  pub expires_at : Option ℕ
  pub max_uses : Option ℕ
  pub uses : ℕ
  pub revoked : Bool
  pub created_at : ℕ

-- A field of an audit row's JSON detail.
pub data Field : Type 0 where
  text : Text → Field
  word : String → Field
  uuid : ℕ → Field
  flag : Bool → Field

pub record AuditEntry : Type 0 where
  pub id : ℕ
  pub workspace_id : ℕ
  pub actor_id : ℕ
  pub action : String
  pub target_id : Option ℕ
  pub detail : List (String × Field)
  pub created_at : ℕ

pub data ConversationKind : Type 0 where
  dm group channel : ConversationKind

pub record Conversation : Type 0 where
  pub id : ℕ
  pub kind : ConversationKind
  pub created_by : ℕ

pub record Participant : Type 0 where
  pub conversation_id : ℕ
  pub user_id : ℕ

-- An outbox row: the conversation named by its payload, and whether `published_at` is set.
pub record OutboxRow : Type 0 where
  pub id : ℕ
  pub conversation_id : ℕ
  pub published : Bool

pub record Db : Type 0 where
  pub users : List ℕ
  pub workspaces : List Workspace
  pub members : List Seat
  pub bans : List Ban
  pub channels : List Channel
  pub overrides : List ChannelOverride
  pub invites : List Invite
  pub audit : List AuditEntry
  pub conversations : List Conversation
  pub participants : List Participant
  pub outbox : List OutboxRow

-- What one request draws from outside: new ids and an invite code, which never repeat
-- (`Uuid::now_v7`, `OsRng`), and the time, read again as `now_locked` under an invite's row lock.
pub record Env : Type 0 where
  pub id : ℕ
  pub conversation_id : ℕ
  pub audit_id : ℕ
  pub code : Text
  pub now : ℕ
  pub now_locked : ℕ
  -- The state that the n-th read after the commit meets.
  pub meanwhile : ℕ → Db → Db

-- The conditions of the statements.
abbrev pub seat_of : ℕ → ℕ → Seat → Bool
seat_of w u m = m.workspace_id == w && m.user_id == u

abbrev pub ban_of : ℕ → ℕ → Ban → Bool
ban_of w u b = b.workspace_id == w && b.user_id == u

abbrev pub participant_of : ℕ → ℕ → Participant → Bool
participant_of c u p = p.conversation_id == c && p.user_id == u

abbrev pub workspace_with : ℕ → Workspace → Bool
workspace_with w r = r.id == w

abbrev pub channel_with : ℕ → Channel → Bool
channel_with c r = r.id == c

abbrev pub channel_in : ℕ → Channel → Bool
channel_in w r = r.workspace_id == w
