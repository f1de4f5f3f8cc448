-- ===== src/Workspaces/Moderation.antt =====
-- Roles changed, members kicked and banned, and bans lifted (apps/server/src/workspaces.rs).
--
-- Each request asks `require` first, and its transaction reads both roles again under row locks.
pub mod Authority
pub mod Removal
pub mod Consequences
use teri_chat.Prelude.{
  ℕ, Bool, true, false, not, ◌&&◌, Option, none, some, [], ◌∷◌, ◌==◌, ltb, length, Result, ok, err,
  Tx, ◌>>=◌, ◌>>◌, pure, raise_if, ok_or, gets, lift, map_err, transaction, after, if◌then◌else◌,
}
use teri_chat.Prelude.Text.{Text, trim}
use teri_chat.Table.{exists, delete}
use teri_chat.Workspaces.Role.{
  Role, owner, Permission, manage_roles, kick_members, ban_members, WorkspacesError, not_member,
  forbidden, bad_input, database, as_str, role_has, role_eq, check_rank,
}
use teri_chat.Workspaces.Schema.{Db, Env, word, text, ban_of}
use teri_chat.Workspaces.Access.{require, owner_count, locked_roles}
use teri_chat.Workspaces.Statements.{
  record_audit, update_role, delete_seat, sync_remove_from_channels, drop_member_overrides,
  insert_ban,
}

-- The start of the three transactions: both roles, the permission again, the rank rule.
unfoldable pub locked_authority : ℕ → ℕ → ℕ → Permission → Option Role → Tx Db WorkspacesError Role
locked_authority actor_id workspace_id target_id permission new_role = do
  (actor_opt, target_opt) ← gets (locked_roles workspace_id actor_id target_id)
  actor ← ok_or actor_opt not_member
  current ← ok_or target_opt not_member
  raise_if (not (role_has actor permission)) forbidden
  lift (check_rank actor current new_role)
  pure current

-- The guard that keeps the last owner in place.
last_owner_guard : ℕ → Bool → Tx Db WorkspacesError (Unit {0})
last_owner_guard workspace_id demotes = do
  owners ← gets (owner_count workspace_id)
  raise_if (demotes && ltb owners 2) (bad_input "workspace must keep at least one owner")

unfoldable pub set_role_tx : Env → ℕ → ℕ → ℕ → Role → Tx Db WorkspacesError (Unit {0})
unfolding locked_authority last_owner_guard
set_role_tx env actor_id workspace_id target_id new_role = do
  current ← locked_authority actor_id workspace_id target_id manage_roles (some new_role)
  last_owner_guard workspace_id (role_eq current owner && not (role_eq new_role owner))
  updated ← map_err database (update_role workspace_id target_id new_role)
  raise_if (updated == 0) not_member
  record_audit env workspace_id actor_id "member.role_changed" (some target_id)
      (("from", word (as_str current)) ∷ ("to", word (as_str new_role)) ∷ [])

unfoldable pub set_role : Env → ℕ → ℕ → ℕ → Role → Db → Result WorkspacesError (Unit {0}) × Db
unfolding set_role_tx
set_role env actor_id workspace_id target_id new_role db =
    after (require workspace_id actor_id manage_roles db)
      (λ _. transaction (set_role_tx env actor_id workspace_id target_id new_role)) db

unfoldable pub remove_member_tx : Env → ℕ → ℕ → ℕ → Tx Db WorkspacesError (Unit {0})
unfolding locked_authority last_owner_guard
remove_member_tx env actor_id workspace_id target_id = do
  current ← locked_authority actor_id workspace_id target_id kick_members none
  last_owner_guard workspace_id (role_eq current owner)
  map_err database (delete_seat workspace_id target_id)
  sync_remove_from_channels workspace_id target_id
  drop_member_overrides workspace_id target_id
  record_audit env workspace_id actor_id "member.kicked" (some target_id)
      (("role", word (as_str current)) ∷ [])

unfoldable pub remove_member : Env → ℕ → ℕ → ℕ → Db → Result WorkspacesError (Unit {0}) × Db
unfolding remove_member_tx
remove_member env actor_id workspace_id target_id db =
    after (require workspace_id actor_id kick_members db)
      (λ _. transaction (remove_member_tx env actor_id workspace_id target_id)) db

unfoldable pub ban_member_tx : Env → ℕ → ℕ → ℕ → Text → Tx Db WorkspacesError (Unit {0})
unfolding locked_authority last_owner_guard
ban_member_tx env actor_id workspace_id target_id reason = do
  current ← locked_authority actor_id workspace_id target_id ban_members none
  last_owner_guard workspace_id (role_eq current owner)
  insert_ban workspace_id target_id actor_id reason
  map_err database (delete_seat workspace_id target_id)
  sync_remove_from_channels workspace_id target_id
  drop_member_overrides workspace_id target_id
  record_audit env workspace_id actor_id "member.banned" (some target_id)
      (("reason", text reason) ∷ [])

clean_reason : Text → Result WorkspacesError Text
clean_reason raw =
    let reason = trim raw in
    if ltb 500 (length reason)
    then err (bad_input "reason must be at most 500 characters")
    else ok reason

unfoldable pub ban_member : Env → ℕ → ℕ → ℕ → Text → Db → Result WorkspacesError (Unit {0}) × Db
unfolding ban_member_tx clean_reason
ban_member env actor_id workspace_id target_id raw db =
    after (require workspace_id actor_id ban_members db)
      (λ _.
        after (clean_reason raw)
          λ reason. transaction (ban_member_tx env actor_id workspace_id target_id reason))
      db

-- `DELETE FROM workspace_bans`: whether a row was removed.
delete_ban : ℕ → ℕ → Tx Db WorkspacesError Bool
delete_ban workspace_id user_id db = ok (
  exists (ban_of workspace_id user_id) db.bans,
  record db { bans = delete (ban_of workspace_id user_id) db.bans },
)

-- Lifting no ban is a no-op that leaves no audit row.
audit_unban : Env → ℕ → ℕ → ℕ → Bool → Tx Db WorkspacesError (Unit {0})
audit_unban env actor_id workspace_id target_id false = pure tt
audit_unban env actor_id workspace_id target_id true =
    record_audit env workspace_id actor_id "member.unbanned" (some target_id) []

unfoldable pub unban_tx : Env → ℕ → ℕ → ℕ → Tx Db WorkspacesError (Unit {0})
unfolding delete_ban audit_unban
unban_tx env actor_id workspace_id target_id = do
  (actor_opt, _) ← gets (locked_roles workspace_id actor_id actor_id)
  actor ← ok_or actor_opt not_member
  raise_if (not (role_has actor ban_members)) forbidden
  removed ← delete_ban workspace_id target_id
  audit_unban env actor_id workspace_id target_id removed

unfoldable pub unban : Env → ℕ → ℕ → ℕ → Db → Result WorkspacesError (Unit {0}) × Db
unfolding unban_tx
unban env actor_id workspace_id target_id db =
    after (require workspace_id actor_id ban_members db)
      (λ _. transaction (unban_tx env actor_id workspace_id target_id)) db
