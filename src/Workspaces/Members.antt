-- ===== src/Workspaces/Members.antt =====
-- Membership: workspaces are created and renamed, members added, promoted, kicked, banned and let
-- back in (apps/server/src/workspaces.rs). Each request is its checks on the committed state and
-- one transaction; the transaction's body is a definition of its own, since another request may
-- commit between the two.
use teri_chat.Prelude.{
  true, false, ℕ, ◌&&◌, none, some, is_some, [], ◌∷◌, ◌==◌, ltb, Result, ok, err, Tx, ◌>>=◌, ◌>>◌,
  pure, raise_if, ok_or, gets, lift, query, map_err, transaction, after, reading,
}
use teri_chat.Prelude.Text.{Text}
use teri_chat.Table.{find, exists, update}
use teri_chat.Workspaces.Role.{
  Role, guest, owner, manage_workspace, manage_members, WorkspacesError, DbError, unique_violation,
  foreign_key_violation, not_member, banned, bad_input, database, as_str, role_eq, check_rank,
}
use teri_chat.Workspaces.Schema.{Db, Env, Workspace, word, text, workspace_with}
use teri_chat.Workspaces.Access.{clean_name, role_of, is_banned, require, owner_count}
use teri_chat.Workspaces.Statements.{
  record_audit, insert_seat, delete_seat, sync_add_to_channels, sync_remove_from_channels,
  drop_member_overrides,
}

-- `INSERT INTO workspaces … RETURNING`.
insert_workspace : Env → ℕ → Text → Tx Db WorkspacesError Workspace
insert_workspace env owner_id name db =
    let row : Workspace = record {
      id = env.id;
      name = name;
      owner_id = owner_id;
      created_at = env.now;
      updated_at = env.now;
    } in
    elim (exists (λ u. u == owner_id) db.users) [
      | true ↦ ok (row, record db { workspaces = row ∷ db.workspaces })
      | false ↦ err (database foreign_key_violation)
    ]

unfoldable pub create_workspace_tx : Env → ℕ → Text → Tx Db WorkspacesError Workspace
unfolding insert_workspace
create_workspace_tx env owner_id name = do
  row ← insert_workspace env owner_id name
  map_err database (insert_seat env env.id owner_id owner)
  record_audit env env.id owner_id "workspace.created" none (("name", text name) ∷ [])
  pure row

unfoldable pub create_workspace : Env → ℕ → Text → Db → Result WorkspacesError Workspace × Db
create_workspace env owner_id name =
    after (clean_name name) λ clean. transaction (create_workspace_tx env owner_id clean)

-- `UPDATE workspaces SET name … RETURNING`; the trigger `workspaces_set_updated_at` stamps the row.
update_workspace_name : Env → ℕ → Text → Tx Db WorkspacesError Workspace
update_workspace_name env workspace_id name db =
    let rows =
      update (workspace_with workspace_id) (λ w. record w { name = name; updated_at = env.now })
        db.workspaces in
    elim (find (workspace_with workspace_id) rows) [
      | none ↦ err not_member
      | some row ↦ ok (row, record db { workspaces = rows })
    ]

unfoldable pub rename_workspace_tx : Env → ℕ → ℕ → Text → Tx Db WorkspacesError Workspace
unfolding update_workspace_name
rename_workspace_tx env actor_id workspace_id name = do
  row ← update_workspace_name env workspace_id name
  record_audit env workspace_id actor_id "workspace.renamed" none (("name", text name) ∷ [])
  pure row

unfoldable pub rename_workspace : Env → ℕ → ℕ → Text → Db → Result WorkspacesError Workspace × Db
rename_workspace env actor_id workspace_id name db =
    after (require workspace_id actor_id manage_workspace db)
      (λ _.
        after (clean_name name)
          λ clean. transaction (rename_workspace_tx env actor_id workspace_id clean))
      db

abbrev already_member : DbError → WorkspacesError
already_member unique_violation = bad_input "user is already a member"
already_member e = database e

-- The checks of `add_member` before its transaction.
unfoldable pub add_member_checks : ℕ → ℕ → ℕ → Role → Tx Db WorkspacesError (Unit {0})
add_member_checks actor_id workspace_id target_id role = do
  actor ← query (require workspace_id actor_id manage_members)
  lift (check_rank actor guest (some role))
  taken ← gets (λ db. is_some (role_of workspace_id target_id db))
  raise_if taken (bad_input "user is already a member")
  out ← gets (is_banned workspace_id target_id)
  raise_if out banned

unfoldable pub add_member_tx : Env → ℕ → ℕ → ℕ → Role → Tx Db WorkspacesError (Unit {0})
add_member_tx env actor_id workspace_id target_id role = do
  map_err already_member (insert_seat env workspace_id target_id role)
  sync_add_to_channels workspace_id target_id
  record_audit env workspace_id actor_id "member.added" (some target_id)
      (("role", word (as_str role)) ∷ [])

unfoldable pub add_member : Env → ℕ → ℕ → ℕ → Role → Db → Result WorkspacesError (Unit {0}) × Db
unfolding add_member_checks add_member_tx
add_member env actor_id workspace_id target_id role db =
    after (reading (add_member_checks actor_id workspace_id target_id role) db)
      (λ _. transaction (add_member_tx env actor_id workspace_id target_id role)) db

-- The checks of `leave` before its transaction.
unfoldable pub leave_checks : ℕ → ℕ → Tx Db WorkspacesError Role
leave_checks user_id workspace_id = do
  seat ← gets (role_of workspace_id user_id)
  current ← ok_or seat not_member
  out ← gets (is_banned workspace_id user_id)
  raise_if out banned
  owners ← gets (owner_count workspace_id)
  raise_if (role_eq current owner && ltb owners 2)
      (bad_input "workspace must keep at least one owner — make another owner first")
  pure current

unfoldable pub leave_tx : Env → ℕ → ℕ → Role → Tx Db WorkspacesError (Unit {0})
leave_tx env user_id workspace_id current = do
  map_err database (delete_seat workspace_id user_id)
  sync_remove_from_channels workspace_id user_id
  drop_member_overrides workspace_id user_id
  record_audit env workspace_id user_id "member.left" (some user_id)
      (("role", word (as_str current)) ∷ [])

unfoldable pub leave : Env → ℕ → ℕ → Db → Result WorkspacesError (Unit {0}) × Db
unfolding leave_checks leave_tx
leave env user_id workspace_id db =
    after (reading (leave_checks user_id workspace_id) db)
      (λ current. transaction (leave_tx env user_id workspace_id current)) db
