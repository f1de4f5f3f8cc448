-- ===== src/Workspaces/Commits/Refines.antt =====
-- Every committed transaction is one of the changes of `Core`.
mod Seats
mod Others
use teri_chat.Workspaces.Commits.Refines.Seats.{
  set_role-Change, add_member-Change, remove_member-Change, ban_member-Change, leave-Change,
  unban-Change, create_workspace-Change, join-Change,
}
use teri_chat.Workspaces.Commits.Refines.Others.{
  create_channel-Change, rename_channel-Change, delete_channel-Change, set_override-Change,
  delete_override-Change, create_invite-Change, revoke_invite-Change, rename_workspace-Change,
}
use teri_chat.Prelude.{
  List, [], ◌∷◌, refl, ℕ, ◌≡◌, refl, Bool, Option, arith, ◌==◌, Bool-cases, inl, inr, ok,
}
use teri_chat.Prelude.Text.{Text}
use teri_chat.Prelude.Int.{ℤ}
use teri_chat.Table.{update, exists}
use teri_chat.Workspaces.Role.{Role, owner, Permission}
use teri_chat.Workspaces.Schema.{
  workspace_with, Db, Env, Workspace, Seat, Channel, Invite, Target, ChannelOverride, seat_of,
}
use teri_chat.Workspaces.Statements.{
  record_audit, insert_seat, insert_seat_or_nothing, update_role, delete_seat, sync_add_to_channels,
  sync_remove_from_channels, drop_member_overrides, insert_ban,
}
use teri_chat.Workspaces.Members.{rename_workspace_tx, create_workspace_tx, add_member_tx, leave_tx}
use teri_chat.Workspaces.Moderation.{set_role_tx, remove_member_tx, ban_member_tx, unban_tx}
use teri_chat.Workspaces.Channels.{create_channel_tx, rename_channel_tx, delete_channel_tx}
use teri_chat.Workspaces.Overrides.{set_override_tx, delete_override_tx}
use teri_chat.Workspaces.Invites.{create_invite_tx, revoke_invite_tx, join_tx, charge_use}
use teri_chat.Workspaces.Commits.Core.{
  renamed, Committed, core, IsFresh, Change, same, founded, seated, promoted, removed, left,
  channel_opened, channel_renamed, channel_deleted, Keeps, create_workspace, rename_workspace,
  add_member, leave, set_role, remove_member, ban_member, unban, create_channel, rename_channel,
  delete_channel, set_override, delete_override, create_invite, revoke_invite, join_via_invite,
}

-- Every committed transaction changes the core tables in one of the ways of `Change`.
pub Committed-Change : {db db' : Db} → Committed db db' → Change (core db) (core db')
Committed-Change {db} {db'} (create_workspace env user name {w = w} f h) =
    create_workspace-Change env user name w db db' f h
Committed-Change {db} {db'} (rename_workspace env a w name {w = x} h) =
    rename_workspace-Change env a w name x db db' h
Committed-Change {db} {db'} (add_member env a w t r h) = add_member-Change env a w t r db db' h
Committed-Change {db} {db'} (leave env u w r h) = leave-Change env u w r db db' h
Committed-Change {db} {db'} (set_role env a w t r h) = set_role-Change env a w t r db db' h
Committed-Change {db} {db'} (remove_member env a w t h) = remove_member-Change env a w t db db' h
Committed-Change {db} {db'} (ban_member env a w t reason h) =
    ban_member-Change env a w t reason db db' h
Committed-Change {db} {db'} (unban env a w t h) = unban-Change env a w t db db' h
Committed-Change {db} {db'} (create_channel env a w name {c = c} f h) =
    create_channel-Change env a w name c db db' f h
Committed-Change {db} {db'} (rename_channel env a read name {c = c} h) =
    rename_channel-Change env a read name c db db' h
Committed-Change {db} {db'} (delete_channel env a read h) =
    delete_channel-Change env a read db db' h
Committed-Change {db} {db'} (set_override env a read t p b {o = o} h) =
    set_override-Change env a read t p b o db db' h
Committed-Change {db} {db'} (delete_override env a read t p h) =
    delete_override-Change env a read t p db db' h
Committed-Change {db} {db'} (create_invite env a w r ttl most {i = i} h) =
    create_invite-Change env a w r ttl most i db db' h
Committed-Change {db} {db'} (revoke_invite env a w i h) = revoke_invite-Change env a w i db db' h
Committed-Change {db} {db'} (join_via_invite env u read {seated = b} h) =
    join-Change env u read b db db' h
