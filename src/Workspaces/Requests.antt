-- ===== src/Workspaces/Requests.antt =====
-- The requests of workspaces.rs that write, as one type, and the function that serves them.
pub mod Outsiders
pub mod Banned
use teri_chat.Prelude.{ℕ, Bool, Option, Result, ok, err}
use teri_chat.Prelude.Int.{ℤ}
use teri_chat.Prelude.Text.{Text}
use teri_chat.Workspaces.Role.{Role, Permission, WorkspacesError}
use teri_chat.Workspaces.Schema.{Db, Env}
use teri_chat.Workspaces.Members
use teri_chat.Workspaces.Moderation
use teri_chat.Workspaces.Channels
use teri_chat.Workspaces.Overrides
use teri_chat.Workspaces.Invites

pub data Request : Type 0 where
  create_workspace : Text → Request
  rename_workspace : ℕ → Text → Request
  add_member : ℕ → ℕ → Role → Request
  leave : ℕ → Request
  set_role : ℕ → ℕ → Role → Request
  remove_member : ℕ → ℕ → Request
  ban_member : ℕ → ℕ → Text → Request
  unban : ℕ → ℕ → Request
  create_channel : ℕ → Text → Request
  rename_channel : ℕ → Text → Request
  delete_channel : ℕ → Request
  set_override : ℕ → Text → Text → Permission → Bool → Request
  delete_override : ℕ → Text → Text → Permission → Request
  create_invite : ℕ → Role → Option ℤ → Option ℤ → Request
  revoke_invite : ℕ → ℕ → Request
  join_via_invite : Text → Request

-- The answer without its value.
abbrev pub answered :
    {A : Type 0} → Result WorkspacesError A × Db → Result WorkspacesError (Unit {0}) × Db
answered (ok a, db) = (ok tt, db)
answered (err e, db) = (err e, db)

module _ (parse_uuid : Text → Option ℕ) where
  unfoldable pub serve : Env → ℕ → Request → Db → Result WorkspacesError (Unit {0}) × Db
  serve env user (create_workspace name) db = answered (Members.create_workspace env user name db)
  serve env user (rename_workspace w name) db =
      answered (Members.rename_workspace env user w name db)
  serve env user (add_member w t role) db = Members.add_member env user w t role db
  serve env user (leave w) db = Members.leave env user w db
  serve env user (set_role w t role) db = Moderation.set_role env user w t role db
  serve env user (remove_member w t) db = Moderation.remove_member env user w t db
  serve env user (ban_member w t reason) db = Moderation.ban_member env user w t reason db
  serve env user (unban w t) db = Moderation.unban env user w t db
  serve env user (create_channel w name) db = answered (Channels.create_channel env user w name db)
  serve env user (rename_channel c name) db = answered (Channels.rename_channel env user c name db)
  serve env user (delete_channel c) db = Channels.delete_channel env user c db
  serve env user (set_override c kind target p allowed) db =
      answered (Overrides.set_override parse_uuid env user c kind target p allowed db)
  serve env user (delete_override c kind target p) db =
      Overrides.delete_override parse_uuid env user c kind target p db
  serve env user (create_invite w role ttl most) db =
      answered (Invites.create_invite env user w role ttl most db)
  serve env user (revoke_invite w i) db = Invites.revoke_invite env user w i db
  serve env user (join_via_invite code) db = answered (Invites.join_via_invite env user code db)
