-- ===== src/Workspaces/Commits/Roles.antt =====
-- The transactions against the map of roles that the tables stand for.
use teri_chat.Prelude.{ℕ, Option, none, some, if◌then◌else◌}
use teri_chat.Prelude.Text.{Text}
use teri_chat.Workspaces.Role.{Role, owner}
use teri_chat.Workspaces.Schema.{Db}
use teri_chat.Workspaces.Statements.Effects.{same_seat}
use teri_chat.Workspaces.Commits.Core.{
  Committed, create_workspace, rename_workspace, add_member, leave, set_role, remove_member,
  ban_member, unban, create_channel, rename_channel, delete_channel, set_override, delete_override,
  create_invite, revoke_invite, join_via_invite,
}

-- What an abstract step does to the map of roles.
pub data Assignment : Type 0 where
  nothing : Assignment
  give : ℕ → ℕ → Role → Assignment
  take_away : ℕ → ℕ → Assignment

abbrev pub assigned : Assignment → (ℕ → ℕ → Option Role) → ℕ → ℕ → Option Role
assigned nothing roles w u = roles w u
assigned (give v t r) roles w u = if same_seat v t w u then some r else roles w u
assigned (take_away v t) roles w u = if same_seat v t w u then none else roles w u

-- The step that the arguments of a transaction call for.
abbrev pub asks : {db db' : Db} → Committed db db' → Assignment
asks (create_workspace env user name f h) = give env.id user owner
asks (rename_workspace env a w name h) = nothing
asks (add_member env a w t r h) = give w t r
asks (leave env u w r h) = take_away w u
asks (set_role env a w t r h) = give w t r
asks (remove_member env a w t h) = take_away w t
asks (ban_member env a w t reason h) = take_away w t
asks (unban env a w t h) = nothing
asks (create_channel env a w name f h) = nothing
asks (rename_channel env a read name h) = nothing
asks (delete_channel env a read h) = nothing
asks (set_override env a read t p b h) = nothing
asks (delete_override env a read t p h) = nothing
asks (create_invite env a w r ttl most h) = nothing
asks (revoke_invite env a w i h) = nothing
asks (join_via_invite env u read {seated = b} h) =
    if b then give read.workspace_id u read.initial_role else nothing
