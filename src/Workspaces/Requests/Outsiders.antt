-- ===== src/Workspaces/Requests/Outsiders.antt =====
-- What users outside a workspace are told.
use teri_chat.Workspaces.Invites.{coded}
use teri_chat.Prelude.{inl, inr, ℕ, ◌≡◌, false, Option, none, some, arith, err, Option-cases}
use teri_chat.Prelude.Text.{Text}
use teri_chat.Table.{find}
use teri_chat.Workspaces.Role.{
  not_member, send_messages, manage_workspace, manage_channels, manage_roles, manage_members,
  kick_members, ban_members,
}
use teri_chat.Workspaces.Schema.{Db, Env, Channel, channel_with}
use teri_chat.Workspaces.Access.{role_of, is_banned, get_workspace, get_channel}
use teri_chat.Workspaces.Access.Gates.{require_stranger}
use teri_chat.Workspaces.Members
use teri_chat.Workspaces.Moderation
use teri_chat.Workspaces.Channels
use teri_chat.Workspaces.Overrides
use teri_chat.Workspaces.Invites
use teri_chat.Workspaces.Requests.{
  Request, create_workspace, rename_workspace, add_member, leave, set_role, remove_member,
  ban_member, unban, create_channel, rename_channel, delete_channel, set_override, delete_override,
  create_invite, revoke_invite, join_via_invite, serve,
}

-- No seat and no ban in the workspace.
abbrev pub IsStranger : ℕ → ℕ → Db → Type 0
IsStranger w u db = (role_of w u db ≡ none) × (is_banned w u db ≡ false)

-- Outside the workspace of the channel, if there is such a channel.
abbrev pub IsOutside : ℕ → ℕ → Db → Type 0
IsOutside c u db =
    (r : Channel) → find (channel_with c) db.channels ≡ some r → IsStranger r.workspace_id u db

-- The requests that name a workspace or a channel, from a user outside of it. `set_override`
-- looks at the permission first, and refuses all but one whoever asks.
abbrev pub FromOutside : ℕ → Request → Db → Type 0
FromOutside u (create_workspace name) db = ⊥
FromOutside u (rename_workspace w name) db = IsStranger w u db
FromOutside u (add_member w t role) db = IsStranger w u db
FromOutside u (leave w) db = IsStranger w u db
FromOutside u (set_role w t role) db = IsStranger w u db
FromOutside u (remove_member w t) db = IsStranger w u db
FromOutside u (ban_member w t reason) db = IsStranger w u db
FromOutside u (unban w t) db = IsStranger w u db
FromOutside u (create_channel w name) db = IsStranger w u db
FromOutside u (rename_channel c name) db = IsOutside c u db
FromOutside u (delete_channel c) db = IsOutside c u db
FromOutside u (set_override c kind target p allowed) db = IsOutside c u db × (p ≡ send_messages)
FromOutside u (delete_override c kind target p) db = IsOutside c u db
FromOutside u (create_invite w role ttl most) db = IsStranger w u db
FromOutside u (revoke_invite w i) db = IsStranger w u db
FromOutside u (join_via_invite code) db = ⊥

get_channel_outside : (u c : ℕ) (db : Db) → IsOutside c u db → get_channel u c db ≡ err not_member
unfolding get_channel get_workspace
get_channel_outside u c db h = elim (Option-cases (find (channel_with c) db.channels)) [
  | inl e ↦ ground arith
  | inr (r, e) ↦ ground (arith, h r e)
]

module _ (parse_uuid : Text → Option ℕ) where
  -- A user who has no seat and no ban in a workspace is told `NotMember` by every request that
  -- writes to it or to its channels, and by every request that writes to a channel that does not
  -- exist, and nothing changes. Creating a workspace and joining by an invite are no such requests, and
  -- `set_override` is one for the permission that can be overridden.
  pub outsider_wall :
      (env : Env) (u : ℕ) (r : Request) (db : Db)
      → FromOutside u r db
      → serve parse_uuid env u r db ≡ (err not_member, db)
  unfolding serve
  outsider_wall env u (create_workspace name) db h = absurd h
  outsider_wall env u (join_via_invite code) db h = absurd h
  outsider_wall env u (rename_workspace w name) db h =
      unfold Members.rename_workspace in rw (require_stranger w u manage_workspace db h.1 h.0)
  outsider_wall env u (add_member w t role) db h =
      unfold Members.add_member in ground (arith, require_stranger w u manage_members db h.1 h.0)
  outsider_wall env u (leave w) db h = unfold Members.leave in ground arith
  outsider_wall env u (set_role w t role) db h =
      unfold Moderation.set_role in rw (require_stranger w u manage_roles db h.1 h.0)
  outsider_wall env u (remove_member w t) db h =
      unfold Moderation.remove_member in rw (require_stranger w u kick_members db h.1 h.0)
  outsider_wall env u (ban_member w t reason) db h =
      unfold Moderation.ban_member in rw (require_stranger w u ban_members db h.1 h.0)
  outsider_wall env u (unban w t) db h =
      unfold Moderation.unban in rw (require_stranger w u ban_members db h.1 h.0)
  outsider_wall env u (create_channel w name) db h =
      unfold Channels.create_channel in rw (require_stranger w u manage_channels db h.1 h.0)
  outsider_wall env u (rename_channel c name) db h =
      unfold Channels.rename_channel in ground (arith, get_channel_outside u c db h)
  outsider_wall env u (delete_channel c) db h =
      unfold Channels.delete_channel in ground (arith, get_channel_outside u c db h)
  outsider_wall env u (set_override c kind target p allowed) db h =
      unfold Overrides.set_override Overrides.permission_eq in
      ground (arith, h.1, get_channel_outside u c db h.0)
  outsider_wall env u (delete_override c kind target p) db h =
      unfold Overrides.delete_override in ground (arith, get_channel_outside u c db h)
  outsider_wall env u (create_invite w role ttl most) db h =
      unfold Invites.create_invite in ground (arith, require_stranger w u manage_members db h.1 h.0)
  outsider_wall env u (revoke_invite w i) db h =
      unfold Invites.revoke_invite in rw (require_stranger w u manage_members db h.1 h.0)
