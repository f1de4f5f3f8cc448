-- ===== src/Workspaces/Sample.antt =====
-- A small database: workspace 10 of owner 1, admin 2 and member 3, with channel 20 on
-- conversation 30 and an invite; user 4 stands outside, user 5 is banned.
use teri_chat.Prelude.{false, some, [], ◌∷◌}
use teri_chat.Prelude.Text.{codes, text_eq, trim}
use teri_chat.Workspaces.Invites.{
  join_seated, join_tx, joined, commit_join, join_checked, invite_usable, charge_use,
}
use teri_chat.Table.{find, exists, select, delete, update, count}
use teri_chat.Workspaces.Access.{
  role_of, is_banned, require, get_workspace, get_channel, owner_count, locked_roles,
}
use teri_chat.Workspaces.Statements.{
  record_audit, insert_seat, insert_seat_or_nothing, update_role, delete_seat, add_to_channels,
  add_members, sync_add_to_channels, sync_remove_from_channels, drop_member_overrides, insert_ban,
}
use teri_chat.Workspaces.Role.{role_eq, rank, role_has, check_rank, as_str, owner, admin, member}
use teri_chat.Workspaces.Schema.{Db, Env, Invite, ConversationKind}

abbrev pub invite_40 : Invite
invite_40 = record {
  id = 40;
  workspace_id = 10;
  code = codes "join-us";
  created_by = 1;
  initial_role = member;
  expires_at = some 100;
  max_uses = some 1;
  uses = 0;
  revoked = false;
  created_at = 4;
}

abbrev pub sample : Db
sample = record {
  users = 1 ∷ 2 ∷ 3 ∷ 4 ∷ 5 ∷ [];
  workspaces =
      record { id = 10; name = codes "alpha"; owner_id = 1; created_at = 0; updated_at = 0 } ∷ [];
  members =
      record { workspace_id = 10; user_id = 1; role = owner; joined_at = 0 }
      ∷ record { workspace_id = 10; user_id = 2; role = admin; joined_at = 1 }
      ∷ record { workspace_id = 10; user_id = 3; role = member; joined_at = 2 }
      ∷ [];
  bans = record { workspace_id = 10; user_id = 5; banned_by = 1; reason = [] } ∷ [];
  channels =
      record {
        id = 20;
        workspace_id = 10;
        conversation_id = 30;
        name = codes "general";
        created_by = 1;
        created_at = 3;
      }
      ∷ [];
  overrides = [];
  invites = invite_40 ∷ [];
  audit = [];
  conversations = record { id = 30; kind = ConversationKind.channel; created_by = 1 } ∷ [];
  participants =
      record { conversation_id = 30; user_id = 1 }
      ∷ record { conversation_id = 30; user_id = 2 }
      ∷ record { conversation_id = 30; user_id = 3 }
      ∷ [];
  outbox = [];
}

abbrev pub env : Env
env = record {
  id = 50;
  conversation_id = 51;
  audit_id = 52;
  code = codes "fresh-code";
  now = 60;
  now_locked = 61;
  meanwhile = λ n db. db;
}

-- The tables and statements that a run computes with.
unfoldable pub running : Unit {0}
unfolding find exists select delete update count text_eq trim role_eq rank role_has check_rank
    as_str role_of is_banned require get_workspace get_channel owner_count locked_roles record_audit
    insert_seat insert_seat_or_nothing update_role delete_seat add_to_channels add_members
    sync_add_to_channels sync_remove_from_channels drop_member_overrides insert_ban join_seated
    join_tx joined commit_join join_checked invite_usable charge_use
running = tt
