-- ===== src/Workspaces/Commits/Refines/Seats.antt =====
-- The transactions on seats are changes of `Core`.
use teri_chat.Prelude.{refl, ℕ, ◌≡◌, refl, Bool, arith, ◌==◌, Bool-cases, inl, inr, ok}
use teri_chat.Prelude.Text.{Text}
use teri_chat.Table.{exists}
use teri_chat.Workspaces.Role.{Role, owner}
use teri_chat.Workspaces.Schema.{Db, Env, Workspace, Seat, Invite, seat_of}
use teri_chat.Workspaces.Statements.{
  record_audit, insert_seat, insert_seat_or_nothing, update_role, delete_seat, sync_add_to_channels,
  sync_remove_from_channels, drop_member_overrides, insert_ban,
}
use teri_chat.Workspaces.Members.{create_workspace_tx, add_member_tx, leave_tx}
use teri_chat.Workspaces.Moderation.{set_role_tx, remove_member_tx, ban_member_tx, unban_tx}
use teri_chat.Workspaces.Invites.{join_tx, charge_use}
use teri_chat.Workspaces.Commits.Core.{
  core, IsFresh, Change, same, founded, seated, promoted, removed, left,
}

new_seat : Env → ℕ → ℕ → Role → Seat
new_seat env w u r = record { workspace_id = w; user_id = u; role = r; joined_at = env.now }

pub set_role-Change :
    (env : Env) (a w t : ℕ) (r : Role) (db db' : Db)
    → set_role_tx env a w t r db ≡ ok (tt, db')
    → Change (core db) (core db')
unfolding set_role_tx update_role record_audit
set_role-Change env a w t r db db' h = promoted w t r (ground arith) (ground arith)

pub add_member-Change :
    (env : Env) (a w t : ℕ) (r : Role) (db db' : Db)
    → add_member_tx env a w t r db ≡ ok (tt, db')
    → Change (core db) (core db')
unfolding add_member_tx insert_seat sync_add_to_channels record_audit new_seat
add_member-Change env a w t r db db' h = elim (Bool-cases (exists (seat_of w t) db.members)) [
  | inl e ↦ absurd (ground arith)
  | inr e ↦ elim (Bool-cases (exists (λ u. u == t) db.users)) [
    | inl f ↦ seated (new_seat env w t r) e (ground arith)
    | inr f ↦ absurd (ground arith)
  ]
]

pub remove_member-Change :
    (env : Env) (a w t : ℕ) (db db' : Db)
    → remove_member_tx env a w t db ≡ ok (tt, db')
    → Change (core db) (core db')
unfolding remove_member_tx delete_seat sync_remove_from_channels drop_member_overrides record_audit
remove_member-Change env a w t db db' h = elim (Bool-cases (exists (seat_of w t) db.members)) [
  | inl e ↦ removed w t (ground arith) (ground arith)
  | inr e ↦ left w t e (ground arith)
]

pub ban_member-Change :
    (env : Env) (a w t : ℕ) (reason : Text) (db db' : Db)
    → ban_member_tx env a w t reason db ≡ ok (tt, db')
    → Change (core db) (core db')
unfolding ban_member_tx insert_ban delete_seat sync_remove_from_channels drop_member_overrides
    record_audit
ban_member-Change env a w t reason db db' h = elim (Bool-cases (exists (seat_of w t) db.members)) [
  | inl e ↦ removed w t (ground arith) (ground arith)
  | inr e ↦ left w t e (ground arith)
]

pub leave-Change :
    (env : Env) (u w : ℕ) (r : Role) (db db' : Db)
    → leave_tx env u w r db ≡ ok (tt, db')
    → Change (core db) (core db')
unfolding leave_tx delete_seat sync_remove_from_channels drop_member_overrides record_audit
leave-Change env u w r db db' h = elim (Bool-cases (exists (seat_of w u) db.members)) [
  | inl e ↦ removed w u (ground arith) (ground arith)
  | inr e ↦ left w u e (ground arith)
]

pub unban-Change :
    (env : Env) (a w t : ℕ) (db db' : Db)
    → unban_tx env a w t db ≡ ok (tt, db')
    → Change (core db) (core db')
unfolding unban_tx record_audit
unban-Change env a w t db db' h = same (ground arith)

pub create_workspace-Change :
    (env : Env) (u : ℕ) (name : Text) (x : Workspace) (db db' : Db)
    → IsFresh env (core db)
    → create_workspace_tx env u name db ≡ ok (x, db')
    → Change (core db) (core db')
unfolding create_workspace_tx insert_seat record_audit new_seat
create_workspace-Change env u name x db db' f h =
    elim (Bool-cases (exists (seat_of env.id u) db.members)) [
      | inl e ↦ absurd (ground arith)
      | inr e ↦ elim (Bool-cases (exists (λ v. v == u) db.users)) [
        | inl g ↦
            founded
              (record {
                id = env.id;
                name = name;
                owner_id = u;
                created_at = env.now;
                updated_at = env.now;
              })
              (new_seat env env.id u owner) refl refl e f.no_workspace (ground arith)
        | inr g ↦ absurd (ground arith)
      ]
    ]

pub join-Change :
    (env : Env) (u : ℕ) (read : Invite) (b : Bool) (db db' : Db)
    → join_tx env u read db ≡ ok (b, db')
    → Change (core db) (core db')
unfolding join_tx insert_seat_or_nothing insert_seat sync_add_to_channels record_audit new_seat
    charge_use
join-Change env u read b db db' h =
    elim (Bool-cases (exists (seat_of read.workspace_id u) db.members)) [
      | inl e ↦ same (ground arith)
      | inr e ↦ elim (Bool-cases (exists (λ v. v == u) db.users)) [
        | inl g ↦ seated (new_seat env read.workspace_id u read.initial_role) e (ground arith)
        | inr g ↦ absurd (ground arith)
      ]
    ]
