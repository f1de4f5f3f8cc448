-- ===== src/Workspaces/Overrides.antt =====
-- Channel permission overrides and the effective permission in a channel
-- (apps/server/src/workspaces.rs). The parser of user ids is that of the `uuid` crate, and a
-- parameter; a user id prints in one way, so the column `target` of a member is its id.
pub mod Precedence
use teri_chat.Prelude.{
  ℕ, String, Bool, true, false, not, ◌&&◌, Option, none, some, List, [], ◌∷◌, ◌==◌, Result, ok, err,
  Tx, ◌>>=◌, ◌>>◌, pure, raise_if, ok_or, gets, lift, query, transaction, after, reading,
  if◌then◌else◌,
}
use mathlib.Core.Option
use teri_chat.Prelude.Text.{Text, codes, text_eq, trim, to_lowercase}
use teri_chat.Table.{find, exists, delete}
use teri_chat.Workspaces.Role.{
  Role, Permission, manage_workspace, manage_channels, manage_roles, manage_members, kick_members,
  ban_members, send_messages, manage_messages, view_audit_log, WorkspacesError, bad_input,
  permission_as_str, as_str, role_eq, role_has, check_rank, parse_role,
}
use teri_chat.Workspaces.Schema.{
  Db, Env, Channel, ChannelOverride, Target, to_role, to_member, Field, uuid, word, flag,
  channel_with,
}
use teri_chat.Workspaces.Access.{role_of, is_banned, require, get_channel}
use teri_chat.Workspaces.Channels.{managed_channel}
use teri_chat.Workspaces.Statements.{record_audit}

unfoldable pub permission_code : Permission → ℕ
permission_code manage_workspace = 0
permission_code manage_channels = 1
permission_code manage_roles = 2
permission_code manage_members = 3
permission_code kick_members = 4
permission_code ban_members = 5
permission_code send_messages = 6
permission_code manage_messages = 7
permission_code view_audit_log = 8

-- `==` of the derived `PartialEq`, and of the column's text.
unfoldable pub permission_eq : Permission → Permission → Bool
unfolding permission_code
permission_eq p q = permission_code p == permission_code q

unfoldable pub target_eq : Target → Target → Bool
unfolding role_eq
target_eq (to_role r) (to_role s) = role_eq r s
target_eq (to_member u) (to_member v) = u == v
target_eq _ _ = false

-- The primary key of `channel_overrides`.
abbrev pub override_of : ℕ → Target → Permission → ChannelOverride → Bool
override_of c t p o = o.channel_id == c && target_eq o.target t && permission_eq o.permission p

module _ (parse_uuid : Text → Option ℕ) where
  -- The target and its role in `set_override`.
  unfoldable pub ranked_target : Channel → Text → Text → Tx Db WorkspacesError (Target × Role)
  ranked_target channel kind target =
      if text_eq kind (codes "role")
      then (do role ← lift (parse_role target); pure (to_role role, role))
      else if text_eq kind (codes "member")
      then (do
        user_id ← ok_or (parse_uuid (trim target)) (bad_input "member target must be a user id")
        seat ← gets (role_of channel.workspace_id user_id)
        role ← ok_or seat (bad_input "override target is not a workspace member")
        pure (to_member user_id, role))
      else (λ db. err (bad_input "target_kind must be role or member"))

  -- The checks of `set_override` before its transaction: the channel and the normalised target.
  unfoldable pub set_override_checks :
      ℕ → ℕ → Text → Text → Permission → Tx Db WorkspacesError (Channel × Target)
  unfolding ranked_target
  set_override_checks actor_id channel_id kind target permission = do
    raise_if (not (permission_eq permission send_messages))
        (bad_input "only SEND_MESSAGES is overridable until message moderation lands")
    channel ← query (get_channel actor_id channel_id)
    actor_role ← query (require channel.workspace_id actor_id manage_channels)
    (key, target_role) ← ranked_target channel (to_lowercase (trim kind)) target
    lift (check_rank actor_role target_role none)
    pure (channel, key)

  -- The target in `delete_override`.
  parse_target : Text → Text → Result WorkspacesError Target
  parse_target kind target =
      if text_eq kind (codes "role")
      then elim (parse_role target) [ ok role ↦ ok (to_role role) | err e ↦ err e ]
      else if text_eq kind (codes "member")
      then elim (parse_uuid (trim target)) [
        | none ↦ err (bad_input "member target must be a user id")
        | some user_id ↦ ok (to_member user_id)
      ]
      else err (bad_input "target_kind must be role or member")

  unfoldable pub delete_override_checks :
      ℕ → ℕ → Text → Text → Tx Db WorkspacesError (Channel × Target)
  unfolding parse_target managed_channel
  delete_override_checks actor_id channel_id kind target = do
    channel ← managed_channel actor_id channel_id
    key ← lift (parse_target (to_lowercase (trim kind)) target)
    pure (channel, key)

-- The kind and the target as the audit row spells them.
abbrev target_kind : Target → String
target_kind (to_role r) = "role"
target_kind (to_member u) = "member"

abbrev target_field : Target → Field
target_field (to_role r) = word (as_str r)
target_field (to_member u) = uuid u

-- `INSERT … ON CONFLICT … DO UPDATE SET allowed`.
unfoldable pub upsert : ChannelOverride → List ChannelOverride → List ChannelOverride
upsert row [] = row ∷ []
upsert row (o ∷ rows) =
    let rest = upsert row rows in
    if override_of row.channel_id row.target row.permission o
    then record o { allowed = row.allowed } ∷ rows
    else o ∷ rest

unfoldable pub set_override_tx :
    Env → ℕ → Channel → Target → Permission → Bool → Tx Db WorkspacesError ChannelOverride
unfolding upsert
set_override_tx env actor_id channel target permission allowed db =
    let row : ChannelOverride = record {
      channel_id = channel.id;
      target = target;
      permission = permission;
      allowed = allowed;
    } in
    (do
      record_audit env channel.workspace_id actor_id "channel.override_set" none (
          ("channel_id", uuid channel.id)
          ∷ ("target_kind", word (target_kind target))
          ∷ ("target", target_field target)
          ∷ ("permission", word (permission_as_str permission))
          ∷ ("allowed", flag allowed)
          ∷ [])
      pure row)
      (record db { overrides = upsert row db.overrides })

-- `DELETE FROM channel_overrides`: whether a row was removed.
unfoldable pub remove_override : ℕ → Target → Permission → Tx Db WorkspacesError Bool
remove_override channel_id target permission db = ok (
  exists (override_of channel_id target permission) db.overrides,
  record db { overrides = delete (override_of channel_id target permission) db.overrides },
)

audit_removed : Env → ℕ → Channel → Bool → Tx Db WorkspacesError (Unit {0})
audit_removed env actor_id channel false = pure tt
audit_removed env actor_id channel true =
    record_audit env channel.workspace_id actor_id "channel.override_removed" none
      (("channel_id", uuid channel.id) ∷ [])

unfoldable pub delete_override_tx :
    Env → ℕ → Channel → Target → Permission → Tx Db WorkspacesError (Unit {0})
unfolding remove_override audit_removed
delete_override_tx env actor_id channel target permission = do
  removed ← remove_override channel.id target permission
  audit_removed env actor_id channel removed

module _ (parse_uuid : Text → Option ℕ) where
  unfoldable pub set_override :
      Env
      → ℕ
      → ℕ
      → Text
      → Text
      → Permission
      → Bool
      → Db
      → Result WorkspacesError ChannelOverride × Db
  unfolding set_override_checks set_override_tx
  set_override env actor_id channel_id kind target permission allowed db =
      after (reading (set_override_checks parse_uuid actor_id channel_id kind target permission) db)
        (λ found. transaction (set_override_tx env actor_id found.0 found.1 permission allowed)) db

  unfoldable pub delete_override :
      Env → ℕ → ℕ → Text → Text → Permission → Db → Result WorkspacesError (Unit {0}) × Db
  unfolding delete_override_checks delete_override_tx
  delete_override env actor_id channel_id kind target permission db =
      after (reading (delete_override_checks parse_uuid actor_id channel_id kind target) db)
        (λ found. transaction (delete_override_tx env actor_id found.0 found.1 permission)) db

unfoldable pub hit : ℕ → Target → Permission → Db → Option Bool
hit channel_id target permission db =
    Option.map (λ (o : ChannelOverride). o.allowed)
      (find (override_of channel_id target permission) db.overrides)

abbrev or_keep : Option Bool → Bool → Bool
or_keep none allowed = allowed
or_keep (some found) allowed = found

-- A member override beats a role override, which beats the role's own permissions.
unfoldable pub effective : ℕ → ℕ → Role → Permission → Db → Bool
unfolding hit
effective channel_id user_id role permission db =
    or_keep (hit channel_id (to_member user_id) permission db)
      (or_keep (hit channel_id (to_role role) permission db) (role_has role permission))

unfoldable pub channel_allowed : ℕ → ℕ → Permission → Db → Bool
unfolding effective
channel_allowed channel_id user_id permission db =
    elim (find (channel_with channel_id) db.channels) [
      | none ↦ false
      | some channel ↦ elim (role_of channel.workspace_id user_id db) [
        | none ↦ false
        | some role ↦
            if is_banned channel.workspace_id user_id db
            then false
            else effective channel_id user_id role permission db
      ]
    ]

unfoldable pub can_send : ℕ → ℕ → Db → Bool
unfolding channel_allowed
can_send channel_id user_id db = channel_allowed channel_id user_id send_messages db
