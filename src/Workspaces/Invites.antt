-- ===== src/Workspaces/Invites.antt =====
-- Invites: created, revoked and accepted (apps/server/src/workspaces.rs).
pub mod Joining
use teri_chat.Prelude.{
  ℕ, ◌+◌, ◌*◌, ◌^◌, Bool, true, false, not, ◌&&◌, ◌||◌, Option, none, some, [], ◌∷◌, ◌==◌, ltb, leb,
  Result, ok, err, Tx, ◌>>=◌, ◌>>◌, pure, raise_if, ok_or, gets, lift, query, map_err, transaction,
  after, reading, if◌then◌else◌, length,
}
use teri_chat.Prelude.Int.{ℤ, pos, pos_part, leb_ℤ, ltb_ℤ}
use teri_chat.Prelude.Text.{Text, text_eq, trim}
use teri_chat.Table.{find, exists, update}
use mathlib.Core.Option
use teri_chat.Workspaces.Role.{
  Role, guest, owner, manage_members, WorkspacesError, DbError, row_not_found, out_of_range,
  check_violation, not_member, banned, invite_rejected, bad_input, database, as_str, role_eq,
  check_rank,
}
use teri_chat.Workspaces.Schema.{Db, Env, Workspace, Invite, uuid, word}
use teri_chat.Workspaces.Access.{role_of, is_banned, require, get_workspace}
use teri_chat.Workspaces.Statements.{record_audit, insert_seat_or_nothing, sync_add_to_channels}

-- 366 days.
abbrev pub max_invite_ttl_secs : ℕ
max_invite_ttl_secs = 366 * 24 * 60 * 60

not_positive : Option ℤ → Bool
not_positive none = false
not_positive (some n) = leb_ℤ n (pos 0)

bad_ttl : Option ℤ → Bool
bad_ttl none = false
bad_ttl (some n) = leb_ℤ n (pos 0) || ltb_ℤ (pos max_invite_ttl_secs) n

unfoldable pub create_invite_checks :
    ℕ → ℕ → Role → Option ℤ → Option ℤ → Tx Db WorkspacesError (Unit {0})
unfolding not_positive bad_ttl
create_invite_checks actor_id workspace_id initial_role expires_in_secs max_uses = do
  actor ← query (require workspace_id actor_id manage_members)
  lift (check_rank actor guest (some initial_role))
  raise_if (role_eq initial_role owner) (bad_input "invites cannot grant the owner role")
  raise_if (not_positive max_uses) (bad_input "max_uses must be positive")
  raise_if (bad_ttl expires_in_secs)
      (bad_input "expires_in_secs must be between 1 and 31622400 (366 days)")

-- `CHECK (max_uses IS NULL OR max_uses > 0)`.
cap_allowed : Option ℕ → Bool
cap_allowed none = true
cap_allowed (some cap) = ltb 0 cap

-- `INSERT INTO invites`, with the schema's checks: no invite grants the owner role.
insert_invite : Invite → Tx Db DbError (Unit {0})
unfolding cap_allowed
insert_invite row db = elim (role_eq row.initial_role owner || not (cap_allowed row.max_uses)) [
  | true ↦ err check_violation
  | false ↦ ok (tt, record db { invites = row ∷ db.invites })
]

unfoldable pub create_invite_tx :
    Env → ℕ → ℕ → Role → Option ℤ → Option ℤ → Tx Db WorkspacesError Invite
unfolding insert_invite
create_invite_tx env actor_id workspace_id initial_role expires_in_secs max_uses db =
    let row : Invite = record {
      id = env.id;
      workspace_id = workspace_id;
      code = env.code;
      created_by = actor_id;
      initial_role = initial_role;
      expires_at = Option.map (λ secs. env.now + pos_part secs * 1_000_000) expires_in_secs;
      max_uses = Option.map pos_part max_uses;
      uses = 0;
      revoked = false;
      created_at = env.now;
    } in
    (do
      map_err database (insert_invite row)
      record_audit env workspace_id actor_id "invite.created" none
          (("invite_id", uuid env.id) ∷ ("initial_role", word (as_str initial_role)) ∷ [])
      pure row)
      db

unfoldable pub create_invite :
    Env → ℕ → ℕ → Role → Option ℤ → Option ℤ → Db → Result WorkspacesError Invite × Db
unfolding create_invite_checks create_invite_tx
create_invite env actor_id workspace_id initial_role expires_in_secs max_uses db =
    after
      (reading (create_invite_checks actor_id workspace_id initial_role expires_in_secs max_uses)
        db)
      (λ _.
        transaction
          (create_invite_tx env actor_id workspace_id initial_role expires_in_secs max_uses))
      db

abbrev invite_in : ℕ → ℕ → Invite → Bool
invite_in workspace_id invite_id i = i.id == invite_id && i.workspace_id == workspace_id

-- `UPDATE invites SET revoked = TRUE`: whether a row was updated.
set_revoked : ℕ → ℕ → Tx Db WorkspacesError Bool
set_revoked workspace_id invite_id db = ok (
  exists (invite_in workspace_id invite_id) db.invites,
  record db {
    invites =
        update (invite_in workspace_id invite_id) (λ i. record i { revoked = true }) db.invites;
  },
)

unfoldable pub revoke_invite_tx : Env → ℕ → ℕ → ℕ → Tx Db WorkspacesError (Unit {0})
unfolding set_revoked
revoke_invite_tx env actor_id workspace_id invite_id = do
  removed ← set_revoked workspace_id invite_id
  raise_if (not removed) not_member
  record_audit env workspace_id actor_id "invite.revoked" none (("invite_id", uuid invite_id) ∷ [])

unfoldable pub revoke_invite : Env → ℕ → ℕ → ℕ → Db → Result WorkspacesError (Unit {0}) × Db
unfolding revoke_invite_tx
revoke_invite env actor_id workspace_id invite_id db =
    after (require workspace_id actor_id manage_members db)
      (λ _. transaction (revoke_invite_tx env actor_id workspace_id invite_id)) db

expired : Option ℕ → ℕ → Bool
expired none now = false
expired (some deadline) now = leb deadline now

used_up : Option ℕ → ℕ → Bool
used_up none uses = false
used_up (some cap) uses = leb cap uses

unfoldable pub invite_usable : Invite → ℕ → Bool
unfolding expired used_up
invite_usable row now =
    if row.revoked
    then false
    else if expired row.expires_at now
    then false
    else if used_up row.max_uses row.uses
    then false
    else true

abbrev pub invite_with : ℕ → Invite → Bool
invite_with id i = i.id == id

-- `UPDATE invites SET uses = uses + 1`, on an `INT` column.
unfoldable pub charge_use : Invite → Tx Db DbError (Unit {0})
charge_use row db = elim (ltb (row.uses + 1) (2 ^ 31)) [
  | true ↦ ok (
    tt,
    record db {
      invites = update (invite_with row.id) (λ i. record i { uses = i.uses + 1 }) db.invites;
    },
  )
  | false ↦ err out_of_range
]

-- The rest of the transaction once the membership row was inserted, or was there already.
unfoldable pub join_seated : Env → ℕ → Invite → Invite → Bool → Tx Db WorkspacesError Bool
join_seated env user_id row fresh false = pure false
join_seated env user_id row fresh true = do
  map_err database (charge_use fresh)
  sync_add_to_channels row.workspace_id user_id
  record_audit env row.workspace_id user_id "invite.accepted" (some user_id)
      (("invite_id", uuid row.id) ∷ [])
  pure true

-- The transaction of `join_via_invite`: whether a seat was taken. Without one it has written
-- nothing, so its roll-back is a commit.
unfoldable pub join_tx : Env → ℕ → Invite → Tx Db WorkspacesError Bool
unfolding join_seated
join_tx env user_id row = do
  found ← gets (λ db. find (invite_with row.id) db.invites)
  fresh ← ok_or found (database row_not_found)
  raise_if (not (invite_usable fresh env.now_locked)) invite_rejected
  inserted ← map_err database (insert_seat_or_nothing env row.workspace_id user_id row.initial_role)
  join_seated env user_id row fresh inserted

abbrev pub coded : Text → Invite → Bool
coded code i = text_eq i.code code

-- The answer after the transaction. Its reads are not in the transaction: other transactions may
-- have committed in between. The state that the request leaves is the one that it committed.
unfoldable pub joined :
    Env → ℕ → Invite → Bool → Db → Result WorkspacesError (Workspace × Role) × Db
joined env user_id row true db =
    after (get_workspace user_id row.workspace_id (env.meanwhile 0 db))
      (λ w s. (ok (w.0, row.initial_role), s)) db
joined env user_id row false db = elim (role_of row.workspace_id user_id (env.meanwhile 0 db)) [
  | none ↦ (err not_member, db)
  | some role ↦
      after (get_workspace user_id row.workspace_id (env.meanwhile 1 db))
        (λ w s. (ok (w.0, role), s)) db
]

unfoldable pub commit_join :
    Env
    → ℕ
    → Invite
    → Result WorkspacesError Bool × Db
    → Result WorkspacesError (Workspace × Role) × Db
unfolding joined
commit_join env user_id row (ok inserted, db) = joined env user_id row inserted db
commit_join env user_id row (err e, db) = (err e, db)

unfoldable pub join_checked :
    Env → ℕ → Invite → Option Role → Db → Result WorkspacesError (Workspace × Role) × Db
unfolding join_tx commit_join
join_checked env user_id row (some current) db =
    after (get_workspace user_id row.workspace_id db) (λ w s. (ok (w.0, current), s)) db
join_checked env user_id row none db =
    if invite_usable row env.now
    then commit_join env user_id row (transaction (join_tx env user_id row) db)
    else (err invite_rejected, db)

unfoldable pub join_via_invite :
    Env → ℕ → Text → Db → Result WorkspacesError (Workspace × Role) × Db
unfolding join_checked
join_via_invite env user_id raw db =
    let code = trim raw in
    if length code == 0 then (err invite_rejected, db) else elim (find (coded code) db.invites) [
      | none ↦ (err invite_rejected, db)
      | some row ↦
          if is_banned row.workspace_id user_id db
          then (err banned, db)
          else join_checked env user_id row (role_of row.workspace_id user_id db) db
    ]
