-- ===== src/Workspaces/Requests/Banned.antt =====
-- What users are told whom a workspace has banned.
use teri_chat.Workspaces.Invites.{coded}
use teri_chat.Prelude.{
  ◌==◌, length, length, ℕ, ◌≡◌, ◌≢◌, true, false, Option, none, some, arith, err,
}
use teri_chat.Prelude.Text.{trim, Text}
use teri_chat.Table.{find}
use teri_chat.Workspaces.Role.{
  Permission, banned, send_messages, manage_workspace, manage_channels, manage_roles,
  manage_members, kick_members, ban_members,
}
use teri_chat.Workspaces.Invites.{coded}
use teri_chat.Workspaces.Schema.{Invite, Invite, Db, Env, Channel, channel_with}
use teri_chat.Workspaces.Access.{role_of, is_banned, require, get_workspace, get_channel}
use teri_chat.Workspaces.Members
use teri_chat.Workspaces.Moderation
use teri_chat.Workspaces.Channels
use teri_chat.Workspaces.Overrides
use teri_chat.Workspaces.Invites
use teri_chat.Workspaces.Requests.{
  Request, create_workspace, rename_workspace, add_member, leave, set_role, remove_member,
  ban_member, unban, create_channel, rename_channel, delete_channel, set_override, delete_override,
  create_invite, revoke_invite, join_via_invite, serve,
}

-- Banned from the workspace of a channel.
abbrev pub BannedFrom : ℕ → ℕ → Db → Type 0
BannedFrom c u db =
    (r : Channel) × (find (channel_with c) db.channels ≡ some r)
    × (is_banned r.workspace_id u db ≡ true)

-- The requests that name a workspace that has banned the user, by its id, a channel or an invite.
abbrev pub FromBanned : ℕ → Request → Db → Type 0
FromBanned u (create_workspace name) db = ⊥
FromBanned u (rename_workspace w name) db = is_banned w u db ≡ true
FromBanned u (add_member w t role) db = is_banned w u db ≡ true
FromBanned u (leave w) db = (is_banned w u db ≡ true) × (role_of w u db ≢ none)
FromBanned u (set_role w t role) db = is_banned w u db ≡ true
FromBanned u (remove_member w t) db = is_banned w u db ≡ true
FromBanned u (ban_member w t reason) db = is_banned w u db ≡ true
FromBanned u (unban w t) db = is_banned w u db ≡ true
FromBanned u (create_channel w name) db = is_banned w u db ≡ true
FromBanned u (rename_channel c name) db = BannedFrom c u db
FromBanned u (delete_channel c) db = BannedFrom c u db
FromBanned u (set_override c kind target p allowed) db = BannedFrom c u db × (p ≡ send_messages)
FromBanned u (delete_override c kind target p) db = BannedFrom c u db
FromBanned u (create_invite w role ttl most) db = is_banned w u db ≡ true
FromBanned u (revoke_invite w i) db = is_banned w u db ≡ true
FromBanned u (join_via_invite code) db =
    (i : Invite) × (find (coded (trim code)) db.invites ≡ some i)
    × (is_banned i.workspace_id u db ≡ true)
    × ((length (trim code) == 0) ≡ false)

require_banned :
    (w u : ℕ) (p : Permission) (db : Db) → is_banned w u db ≡ true → require w u p db ≡ err banned
unfolding require
require_banned w u p db h = rw h

get_channel_banned : (u c : ℕ) (db : Db) → BannedFrom c u db → get_channel u c db ≡ err banned
unfolding get_channel get_workspace
get_channel_banned u c db (r, e, b) = ground arith

module _ (parse_uuid : Text → Option ℕ) where
  -- A banned user is told `Banned` by every request that writes to the workspace, its channels and
  -- its invites, and nothing changes. To leave, the user must still have a seat, and `set_override`
  -- is such a request for the permission that can be overridden.
  pub banned_wall :
      (env : Env) (u : ℕ) (r : Request) (db : Db)
      → FromBanned u r db
      → serve parse_uuid env u r db ≡ (err banned, db)
  unfolding serve
  banned_wall env u (create_workspace name) db h = absurd h
  banned_wall env u (rename_workspace w name) db h =
      unfold Members.rename_workspace in ground (arith, require_banned w u manage_workspace db h)
  banned_wall env u (add_member w t role) db h =
      unfold Members.add_member in ground (arith, require_banned w u manage_members db h)
  banned_wall env u (leave w) db h = unfold Members.leave in ground arith
  banned_wall env u (set_role w t role) db h =
      unfold Moderation.set_role in ground (arith, require_banned w u manage_roles db h)
  banned_wall env u (remove_member w t) db h =
      unfold Moderation.remove_member in ground (arith, require_banned w u kick_members db h)
  banned_wall env u (ban_member w t reason) db h =
      unfold Moderation.ban_member in ground (arith, require_banned w u ban_members db h)
  banned_wall env u (unban w t) db h =
      unfold Moderation.unban in ground (arith, require_banned w u ban_members db h)
  banned_wall env u (create_channel w name) db h =
      unfold Channels.create_channel in ground (arith, require_banned w u manage_channels db h)
  banned_wall env u (rename_channel c name) db h =
      unfold Channels.rename_channel in ground (arith, get_channel_banned u c db h)
  banned_wall env u (delete_channel c) db h =
      unfold Channels.delete_channel in ground (arith, get_channel_banned u c db h)
  banned_wall env u (set_override c kind target p allowed) db h =
      unfold Overrides.set_override Overrides.permission_eq in
      ground (arith, h.1, get_channel_banned u c db h.0)
  banned_wall env u (delete_override c kind target p) db h =
      unfold Overrides.delete_override in ground (arith, get_channel_banned u c db h)
  banned_wall env u (create_invite w role ttl most) db h =
      unfold Invites.create_invite in ground (arith, require_banned w u manage_members db h)
  banned_wall env u (revoke_invite w i) db h =
      unfold Invites.revoke_invite in ground (arith, require_banned w u manage_members db h)
  banned_wall env u (join_via_invite code) db (i, e, b, n) =
      unfold Invites.join_via_invite in rw (n, e, b)
