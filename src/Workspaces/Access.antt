-- ===== src/Workspaces/Access.antt =====
-- The gates of workspaces.rs: roles, bans, `require`, and the reads that they guard.
pub mod Gates
use mathlib.Core.Option
use teri_chat.Prelude.{
  ℕ, ◌≤◌, Bool, true, false, not, ◌&&◌, ◌||◌, Option, none, some, List, [], ◌∷◌, ◌==◌, ltb, leb,
  Result, ok, err, Tx, query, map, if◌then◌else◌, length,
}
use teri_chat.Prelude.Text.{Text, trim}
use teri_chat.Table.{find, exists, select, count}
use teri_chat.Workspaces.Role.{
  Role, owner, Permission, WorkspacesError, DbError, not_member, forbidden, banned, bad_input,
  database, role_has, role_eq,
}
use teri_chat.Workspaces.Schema.{
  Db, Workspace, Seat, Channel, seat_of, ban_of, workspace_with, channel_with,
}

unfoldable pub clean_name : Text → Result WorkspacesError Text
clean_name raw =
    let name = trim raw in
    let len = length name in
    if len == 0 || ltb 100 len then err (bad_input "name must be 1-100 characters") else ok name

unfoldable pub role_of : ℕ → ℕ → Db → Option Role
role_of workspace_id user_id db =
    Option.map (λ (m : Seat). m.role) (find (seat_of workspace_id user_id) db.members)

unfoldable pub is_banned : ℕ → ℕ → Db → Bool
is_banned workspace_id user_id db = exists (ban_of workspace_id user_id) db.bans

gate : Option Role → Permission → Result WorkspacesError Role
gate none permission = err not_member
gate (some role) permission = if role_has role permission then ok role else err forbidden

unfoldable pub require : ℕ → ℕ → Permission → Db → Result WorkspacesError Role
unfolding gate
require workspace_id user_id permission db =
    if is_banned workspace_id user_id db
    then err banned
    else gate (role_of workspace_id user_id db) permission

open_workspace : Option Role → Option Workspace → Result WorkspacesError (Workspace × Role)
open_workspace none w = err not_member
open_workspace (some role) none = err not_member
open_workspace (some role) (some w) = ok (w, role)

unfoldable pub get_workspace : ℕ → ℕ → Db → Result WorkspacesError (Workspace × Role)
unfolding open_workspace
get_workspace user_id workspace_id db =
    if is_banned workspace_id user_id db
    then err banned
    else open_workspace (role_of workspace_id user_id db)
        (find (workspace_with workspace_id) db.workspaces)

-- The rows of `SELECT COUNT(*) … role = 'owner'`.
abbrev pub owner_seat : ℕ → Seat → Bool
owner_seat w m = m.workspace_id == w && role_eq m.role owner

unfoldable pub owner_count : ℕ → Db → ℕ
owner_count workspace_id db = count (owner_seat workspace_id) db.members

-- The loop over the rows that were locked.
scan_roles : ℕ → List Seat → Option Role → Option Role → Option Role × Option Role
scan_roles actor_id [] actor_role target_role = (actor_role, target_role)
scan_roles actor_id (m ∷ rows) actor_role target_role =
    scan_roles actor_id rows (if m.user_id == actor_id then some m.role else actor_role)
      (if m.user_id == actor_id then target_role else some m.role)

abbrev seat_of_either : ℕ → ℕ → ℕ → Seat → Bool
seat_of_either w a t m = m.workspace_id == w && (m.user_id == a || m.user_id == t)

unfoldable pub locked_roles : ℕ → ℕ → ℕ → Db → Option Role × Option Role
unfolding scan_roles
locked_roles workspace_id actor_id target_id db =
    let rows = select (seat_of_either workspace_id actor_id target_id) db.members in
    let (actor_role, target_role) = scan_roles actor_id rows none none in
    (actor_role, if actor_id == target_id then actor_role else target_role)

open_channel : ℕ → Db → Option Channel → Result WorkspacesError Channel
unfolding get_workspace
open_channel user_id db none = err not_member
open_channel user_id db (some channel) = elim (get_workspace user_id channel.workspace_id db) [
  | ok _ ↦ ok channel
  | err e ↦ err e
]

unfoldable pub get_channel : ℕ → ℕ → Db → Result WorkspacesError Channel
unfolding open_channel
get_channel user_id channel_id db =
    open_channel user_id db (find (channel_with channel_id) db.channels)

unfoldable pub channel_by_conversation : ℕ → Db → Option Channel
channel_by_conversation conversation_id db =
    find (λ r. r.conversation_id == conversation_id) db.channels
