-- ===== src/Workspaces/Healing.antt =====
-- `list_workspaces`, and the healing of channel rosters, which runs before a replay.
use teri_chat.Prelude.{ℕ, Bool, none, some, List, [], ◌∷◌, Tx, pure, ◌>>◌, ltb, ◌==◌}
use teri_chat.Table.{find, select, order_by}
use teri_chat.Workspaces.Role.{Role, WorkspacesError}
use teri_chat.Workspaces.Schema.{Db, Workspace, Seat, workspace_with}
use teri_chat.Workspaces.Statements.{sync_add_to_channels}

abbrev pub seat_for : ℕ → Seat → Bool
seat_for u m = m.user_id == u

-- The JOIN: each seat with the row of its workspace.
unfoldable pub join_workspaces : List Workspace → List Seat → List (Workspace × Role)
join_workspaces workspaces [] = []
join_workspaces workspaces (m ∷ seats) =
    let rest = join_workspaces workspaces seats in
    elim (find (workspace_with m.workspace_id) workspaces) [
      | none ↦ rest
      | some w ↦ (w, m.role) ∷ rest
    ]

abbrev pub newer_workspace : Workspace × Role → Workspace × Role → Bool
newer_workspace (v, _) (w, _) = ltb w.created_at v.created_at

unfoldable pub list_workspaces : ℕ → Db → List (Workspace × Role)
unfolding join_workspaces
list_workspaces user_id db =
    order_by newer_workspace (join_workspaces db.workspaces (select (seat_for user_id) db.members))

unfoldable pub ensure_channel_participation : ℕ → ℕ → Tx Db WorkspacesError (Unit {0})
unfolding sync_add_to_channels
ensure_channel_participation workspace_id user_id = sync_add_to_channels workspace_id user_id

-- The loop over the workspaces.
unfoldable pub heal_each : ℕ → List (Workspace × Role) → Tx Db WorkspacesError (Unit {0})
unfolding ensure_channel_participation
heal_each user_id [] = pure tt
heal_each user_id ((w, _) ∷ workspaces) = do
  ensure_channel_participation w.id user_id
  heal_each user_id workspaces

-- Every call here succeeds. In the source each is a statement of its own, not one transaction.
unfoldable pub ensure_all_participation : ℕ → Tx Db WorkspacesError (Unit {0})
unfolding heal_each
ensure_all_participation user_id db = heal_each user_id (list_workspaces user_id db) db
