-- ===== src/Workspaces/Statements.antt =====
-- The SQL statements of workspaces.rs that write, with the constraints and the owner trigger of
-- migrations/*.sql. The keys that come from `Uuid::now_v7` never repeat, so no statement checks
-- them. The references that the request has just read need no check either.
pub mod Effects
pub mod Owners
use teri_chat.Prelude.{
  ℕ, suc, String, Bool, true, false, ◌&&◌, Option, none, some, List, [], ◌∷◌, ◌==◌, Result, ok, err,
  Tx, if◌then◌else◌,
}
use teri_chat.Prelude.Text.{Text}
use teri_chat.Table.{exists, select, delete, update, count}
use teri_chat.Workspaces.Role.{
  Role, WorkspacesError, DbError, unique_violation, foreign_key_violation, raise_exception,
}
use teri_chat.Workspaces.Schema.{
  Db, Env, Workspace, Seat, Ban, Channel, ChannelOverride, Target, to_role, to_member, Field,
  Participant, seat_of, ban_of, participant_of, channel_in,
}
use teri_chat.Workspaces.Access.{owner_seat}

unfoldable pub record_audit :
    Env → ℕ → ℕ → String → Option ℕ → List (String × Field) → Tx Db WorkspacesError (Unit {0})
record_audit env workspace_id actor_id action target_id detail db = ok (
  tt,
  record db {
    audit =
        record {
          id = env.audit_id;
          workspace_id = workspace_id;
          actor_id = actor_id;
          action = action;
          target_id = target_id;
          detail = detail;
          created_at = env.now;
        }
        ∷ db.audit;
  },
)

-- `INSERT INTO workspace_members`, with its primary key and its reference to `users`.
unfoldable pub insert_seat : Env → ℕ → ℕ → Role → Tx Db DbError (Unit {0})
insert_seat env workspace_id user_id role db =
    elim (exists (seat_of workspace_id user_id) db.members) [
      | true ↦ err unique_violation
      | false ↦ elim (exists (λ u. u == user_id) db.users) [
        | true ↦ ok (
          tt,
          record db {
            members =
                record {
                  workspace_id = workspace_id;
                  user_id = user_id;
                  role = role;
                  joined_at = env.now;
                }
                ∷ db.members;
          },
        )
        | false ↦ err foreign_key_violation
      ]
    ]

-- The same with `ON CONFLICT DO NOTHING`: whether a row was inserted.
unfoldable pub insert_seat_or_nothing : Env → ℕ → ℕ → Role → Tx Db DbError Bool
insert_seat_or_nothing env workspace_id user_id role db =
    elim (exists (seat_of workspace_id user_id) db.members) [
      | true ↦ ok (false, db)
      | false ↦ elim (insert_seat env workspace_id user_id role db) [
        | ok (_, db') ↦ ok (true, db')
        | err e ↦ err e
      ]
    ]

-- Trigger `workspace_members_owner_guard`, after a row of the workspace was updated or deleted.
owner_guard : ℕ → List Seat → Db → Result DbError (ℕ × Db)
owner_guard workspace_id rows before = elim (exists (owner_seat workspace_id) rows) [
  | true ↦ ok (1, record before { members = rows })
  | false ↦ err raise_exception
]

-- `UPDATE workspace_members SET role`: the number of rows affected.
unfoldable pub update_role : ℕ → ℕ → Role → Tx Db DbError ℕ
unfolding owner_guard
update_role workspace_id user_id role db = elim (exists (seat_of workspace_id user_id) db.members) [
  | true ↦
      owner_guard workspace_id
        (update (seat_of workspace_id user_id) (λ m. record m { role = role }) db.members) db
  | false ↦ ok (0, db)
]

-- `DELETE FROM workspace_members`.
unfoldable pub delete_seat : ℕ → ℕ → Tx Db DbError ℕ
unfolding owner_guard
delete_seat workspace_id user_id db = elim (exists (seat_of workspace_id user_id) db.members) [
  | true ↦ owner_guard workspace_id (delete (seat_of workspace_id user_id) db.members) db
  | false ↦ ok (0, db)
]

pub add_participant : ℕ → ℕ → List Participant → List Participant
add_participant conversation_id user_id rows =
    if exists (participant_of conversation_id user_id) rows
    then rows
    else record { conversation_id = conversation_id; user_id = user_id } ∷ rows

-- Adds one user to the conversations of the channels.
unfoldable pub add_to_channels : ℕ → List Channel → List Participant → List Participant
unfolding add_participant
add_to_channels user_id [] rows = rows
add_to_channels user_id (c ∷ channels) rows =
    add_to_channels user_id channels (add_participant c.conversation_id user_id rows)

-- Adds the users of the seats to one conversation.
unfoldable pub add_members : ℕ → List Seat → List Participant → List Participant
unfolding add_participant
add_members conversation_id [] rows = rows
add_members conversation_id (m ∷ members) rows =
    add_members conversation_id members (add_participant conversation_id m.user_id rows)

unfoldable pub sync_add_to_channels : ℕ → ℕ → Tx Db WorkspacesError (Unit {0})
sync_add_to_channels workspace_id user_id db = ok (
  tt,
  record db {
    participants =
        add_to_channels user_id (select (channel_in workspace_id) db.channels) db.participants;
  },
)

-- The condition of `conversation_id IN (SELECT conversation_id FROM channels …)`.
abbrev pub carries : ℕ → ℕ → Channel → Bool
carries w c r = r.workspace_id == w && r.conversation_id == c

abbrev pub channel_participant : ℕ → ℕ → List Channel → Participant → Bool
channel_participant w u channels p = p.user_id == u && exists (carries w p.conversation_id) channels

unfoldable pub sync_remove_from_channels : ℕ → ℕ → Tx Db WorkspacesError (Unit {0})
sync_remove_from_channels workspace_id user_id db = ok (
  tt,
  record db {
    participants = delete (channel_participant workspace_id user_id db.channels) db.participants;
  },
)

targets_member : ℕ → Target → Bool
targets_member u (to_role r) = false
targets_member u (to_member v) = v == u

abbrev pub is_channel_of : ℕ → ℕ → Channel → Bool
is_channel_of w c r = r.workspace_id == w && r.id == c

unfoldable pub drop_member_overrides : ℕ → ℕ → Tx Db WorkspacesError (Unit {0})
unfolding targets_member
drop_member_overrides workspace_id user_id db = ok (
  tt,
  record db {
    overrides =
        delete
          (λ o.
            targets_member user_id o.target
            && exists (is_channel_of workspace_id o.channel_id) db.channels)
          db.overrides;
  },
)

-- `INSERT INTO workspace_bans … ON CONFLICT DO NOTHING`.
unfoldable pub insert_ban : ℕ → ℕ → ℕ → Text → Tx Db WorkspacesError (Unit {0})
insert_ban workspace_id user_id banned_by reason db =
    elim (exists (ban_of workspace_id user_id) db.bans) [
      | true ↦ ok (tt, db)
      | false ↦ ok (
        tt,
        record db {
          bans =
              record {
                workspace_id = workspace_id;
                user_id = user_id;
                banned_by = banned_by;
                reason = reason;
              }
              ∷ db.bans;
        },
      )
    ]
