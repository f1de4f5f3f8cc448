-- ===== src/Workspaces/Listings/Gates.antt =====
-- Who may read which listing.
use mathlib.Core.Path.{subst}
use teri_chat.Prelude.{
  ℕ, ◌≡◌, ◌∙◌, ap, false, Option, none, some, List, Result, ok, err, arith, ◌==◌, if◌then◌else◌,
}
use teri_chat.Prelude.Int.{ℤ, pos_part}
use teri_chat.Table.{find}
use teri_chat.Workspaces.Role.{
  Role, Permission, WorkspacesError, not_member, forbidden, banned, manage_members, view_audit_log,
  role_has,
}
use teri_chat.Workspaces.Schema.{Db, Channel, Workspace, workspace_with, channel_with}
use teri_chat.Workspaces.Access.{role_of, is_banned, require, get_workspace, get_channel}
use teri_chat.Workspaces.Listings.{
  Profile, list_members, list_channels, list_overrides, list_invites, list_audit,
}

-- The error of an answer.
abbrev pub refusal {ℓ} : {A : Type ℓ} → Result WorkspacesError A → Option WorkspacesError
refusal (ok a) = none
refusal (err e) = some e

-- What stops a reader, and one who needs a permission.
abbrev pub stranger : Option Role → Option WorkspacesError
stranger none = some not_member
stranger (some r) = none

abbrev pub unable : Permission → Option Role → Option WorkspacesError
unable p none = some not_member
unable p (some r) = if role_has r p then none else some forbidden

abbrev pub barred : ℕ → ℕ → Db → (Option Role → Option WorkspacesError) → Option WorkspacesError
barred w u db f = if is_banned w u db then some banned else f (role_of w u db)

members-refusal :
    (profiles : List Profile) (u w : ℕ) (after : Option ℕ) (limit : ℤ) (db : Db)
    → (pos_part limit == 0) ≡ false
    → refusal (list_members profiles u w after limit db) ≡ barred w u db stranger
unfolding list_members role_of
members-refusal profiles u w after limit db p = ground arith

channels-refusal :
    (u w : ℕ) (db : Db) (workspace : Workspace)
    → find (workspace_with w) db.workspaces ≡ some workspace
    → refusal (list_channels u w db) ≡ barred w u db stranger
unfolding list_channels get_workspace role_of
channels-refusal u w db workspace f = ground arith

overrides-refusal :
    (u id : ℕ) (db : Db) (workspace : Workspace) (channel : Channel)
    → find (channel_with id) db.channels ≡ some channel
    → find (workspace_with channel.workspace_id) db.workspaces ≡ some workspace
    → refusal (list_overrides u id db) ≡ barred channel.workspace_id u db stranger
unfolding list_overrides get_channel get_workspace role_of
overrides-refusal u id db workspace channel g f = ground arith

invites-refusal :
    (u w : ℕ) (db : Db) → refusal (list_invites u w db) ≡ barred w u db (unable manage_members)
unfolding list_invites require
invites-refusal u w db = ground arith

audit-refusal :
    (u w : ℕ) (limit : ℤ) (db : Db)
    → refusal (list_audit u w limit db) ≡ barred w u db (unable view_audit_log)
unfolding list_audit require
audit-refusal u w limit db = ground arith

-- The listings of a workspace that exists, that of the overrides for a channel of it and that of the
-- members with a positive limit, refuse a banned user as banned and an outsider as not a member. That
-- of the invites further refuses members without the permission to manage members, and that of the
-- audit log those without the permission to view it. They answer everybody else.
pub listings_lem :
    (profiles : List Profile) (u w id : ℕ) (after : Option ℕ) (limit : ℤ) (db : Db)
    (workspace : Workspace) (channel : Channel)
    → find (workspace_with w) db.workspaces ≡ some workspace
    → find (channel_with id) db.channels ≡ some channel
    → channel.workspace_id ≡ w
    → (pos_part limit == 0) ≡ false
    → (refusal (list_members profiles u w after limit db) ≡ barred w u db stranger)
      × (refusal (list_channels u w db) ≡ barred w u db stranger)
      × (refusal (list_overrides u id db) ≡ barred w u db stranger)
      × (refusal (list_invites u w db) ≡ barred w u db (unable manage_members))
      × (refusal (list_audit u w limit db) ≡ barred w u db (unable view_audit_log))
listings_lem profiles u w id after limit db workspace channel f g e p = (
  members-refusal profiles u w after limit db p,
  channels-refusal u w db workspace f,
  subst (λ v. refusal (list_overrides u id db) ≡ barred v u db stranger) e
      (overrides-refusal u id db workspace channel g
        (ap (λ v. find (workspace_with v) db.workspaces) e ∙ f)),
  invites-refusal u w db,
  audit-refusal u w limit db,
)
