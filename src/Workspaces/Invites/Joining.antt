-- ===== src/Workspaces/Invites/Joining.antt =====
-- What accepting an invite does.
use teri_chat.Prelude.{ℕ, ◌≡◌, true, false, none, some, arith, ok, if◌then◌else◌}
use teri_chat.Table.{find}
use teri_chat.Table.Laws.{exists-eq-is_some}
use teri_chat.Workspaces.Schema.{Db, Env, Invite, seat_of}
use teri_chat.Workspaces.Access.{role_of}
use teri_chat.Workspaces.Statements.{
  insert_seat, insert_seat_or_nothing, sync_add_to_channels, record_audit,
}
use teri_chat.Workspaces.Statements.Effects.{same_seat}
use teri_chat.Workspaces.Invites.{join_tx, charge_use}

-- A transaction that seats nobody changes nothing.
pub join_tx_taken :
    (env : Env) (u : ℕ) (row : Invite) (db db' : Db)
    → join_tx env u row db ≡ ok (false, db')
    → db' ≡ db
unfolding join_tx insert_seat_or_nothing insert_seat sync_add_to_channels record_audit charge_use
join_tx_taken env u row db db' h = ground arith

-- A transaction that seats the user gives exactly that user the invite's role, in a workspace
-- where there was no seat.
pub role_of-join_tx :
    (env : Env) (u : ℕ) (row : Invite) (db db' : Db) (w v : ℕ)
    → join_tx env u row db ≡ ok (true, db')
    → (role_of row.workspace_id u db ≡ none)
      × (role_of w v db'
          ≡ (if same_seat row.workspace_id u w v then some row.initial_role else role_of w v db))
unfolding join_tx insert_seat_or_nothing insert_seat sync_add_to_channels record_audit role_of find
    charge_use
role_of-join_tx env u row db db' w v h =
    (ground (arith, exists-eq-is_some (seat_of row.workspace_id u) db.members), ground arith)
