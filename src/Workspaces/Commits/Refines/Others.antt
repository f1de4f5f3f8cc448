-- ===== src/Workspaces/Commits/Refines/Others.antt =====
-- The transactions on names, channels, overrides and invites are changes of `Core`.
use teri_chat.Prelude.{List, [], ◌∷◌, refl, ℕ, ◌≡◌, refl, Bool, Option, arith, ok}
use teri_chat.Prelude.Text.{Text}
use teri_chat.Prelude.Int.{ℤ}
use teri_chat.Table.{update, exists}
use teri_chat.Workspaces.Role.{Role, Permission}
use teri_chat.Workspaces.Schema.{
  workspace_with, Db, Env, Workspace, Channel, Invite, Target, ChannelOverride,
}
use teri_chat.Workspaces.Statements.{record_audit}
use teri_chat.Workspaces.Members.{rename_workspace_tx}
use teri_chat.Workspaces.Channels.{create_channel_tx, rename_channel_tx, delete_channel_tx}
use teri_chat.Workspaces.Overrides.{set_override_tx, delete_override_tx}
use teri_chat.Workspaces.Invites.{create_invite_tx, revoke_invite_tx}
use teri_chat.Workspaces.Commits.Core.{
  renamed, core, IsFresh, Change, same, channel_opened, channel_renamed, channel_deleted, Keeps,
}

pub create_channel-Change :
    (env : Env) (a w : ℕ) (name : Text) (c : Channel) (db db' : Db)
    → IsFresh env (core db)
    → create_channel_tx env a w name db ≡ ok (c, db')
    → Change (core db) (core db')
unfolding create_channel_tx record_audit
create_channel-Change env a w name c db db' f h =
    channel_opened
      (record {
        id = env.id;
        workspace_id = w;
        conversation_id = env.conversation_id;
        name = name;
        created_by = a;
        created_at = env.now;
      })
      f.no_channel f.no_participant (ground arith)

pub rename_channel-Change :
    (env : Env) (a : ℕ) (read : Channel) (name : Text) (c : Channel) (db db' : Db)
    → rename_channel_tx env a read name db ≡ ok (c, db')
    → Change (core db) (core db')
unfolding rename_channel_tx record_audit
rename_channel-Change env a read name c db db' h = channel_renamed read.id name (ground arith)

pub delete_channel-Change :
    (env : Env) (a : ℕ) (read : Channel) (db db' : Db)
    → delete_channel_tx env a read db ≡ ok (tt, db')
    → Change (core db) (core db')
unfolding delete_channel_tx record_audit
delete_channel-Change env a read db db' h = channel_deleted read.conversation_id (ground arith)

pub set_override-Change :
    (env : Env) (a : ℕ) (read : Channel) (t : Target) (p : Permission) (b : Bool)
    (o : ChannelOverride) (db db' : Db)
    → set_override_tx env a read t p b db ≡ ok (o, db')
    → Change (core db) (core db')
unfolding set_override_tx record_audit
set_override-Change env a read t p b o db db' h = same (ground arith)

pub delete_override-Change :
    (env : Env) (a : ℕ) (read : Channel) (t : Target) (p : Permission) (db db' : Db)
    → delete_override_tx env a read t p db ≡ ok (tt, db')
    → Change (core db) (core db')
unfolding delete_override_tx record_audit
delete_override-Change env a read t p db db' h = same (ground arith)

pub create_invite-Change :
    (env : Env) (a w : ℕ) (r : Role) (ttl most : Option ℤ) (i : Invite) (db db' : Db)
    → create_invite_tx env a w r ttl most db ≡ ok (i, db')
    → Change (core db) (core db')
unfolding create_invite_tx record_audit
create_invite-Change env a w r ttl most i db db' h = same (ground arith)

pub revoke_invite-Change :
    (env : Env) (a w i : ℕ) (db db' : Db)
    → revoke_invite_tx env a w i db ≡ ok (tt, db')
    → Change (core db) (core db')
unfolding revoke_invite_tx record_audit
revoke_invite-Change env a w i db db' h = same (ground arith)

abbrev rename_rows : Env → ℕ → Text → List Workspace → List Workspace
rename_rows env w name =
    update (workspace_with w) (λ r. record r { name = name; updated_at = env.now })

Keeps-rename :
    (env : Env) (w : ℕ) (name : Text) (rows : List Workspace)
    → Keeps rows (rename_rows env w name rows)
unfolding exists update
Keeps-rename env w name [] v = refl
Keeps-rename env w name (r ∷ rows) v = ground (arith, Keeps-rename env w name rows v)

pub rename_workspace-Change :
    (env : Env) (a w : ℕ) (name : Text) (x : Workspace) (db db' : Db)
    → rename_workspace_tx env a w name db ≡ ok (x, db')
    → Change (core db) (core db')
unfolding rename_workspace_tx record_audit
rename_workspace-Change env a w name x db db' h =
    renamed (rename_rows env w name db.workspaces) (Keeps-rename env w name db.workspaces)
      (ground arith)
