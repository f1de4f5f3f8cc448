-- ===== src/Workspaces/Role.antt =====
-- The role ladder, the permission list and the rank rule of apps/server/src/workspaces.rs.
pub mod Laws
pub use teri_chat.Prelude.{
  DbError, row_not_found, unique_violation, foreign_key_violation, check_violation, raise_exception,
  out_of_range,
}
use teri_chat.Prelude.{
  ℕ, String, Bool, true, false, ◌&&◌, Option, none, some, leb, ltb, Result, ok, err, is_some,
  if◌then◌else◌,
}
use teri_chat.Prelude.Text.{Text, codes, text_eq, trim, to_lowercase, to_uppercase}

pub data Role : Type 0 where
  guest member moderator admin owner : Role

pub data Permission : Type 0 where
  manage_workspace manage_channels manage_roles manage_members : Permission
  kick_members ban_members send_messages manage_messages view_audit_log : Permission

pub data WorkspacesError : Type 0 where
  not_member forbidden banned invite_rejected : WorkspacesError
  bad_input : String → WorkspacesError
  database : DbError → WorkspacesError

unfoldable pub as_str : Role → String
as_str guest = "guest"
as_str member = "member"
as_str moderator = "moderator"
as_str admin = "admin"
as_str owner = "owner"

unfoldable pub rank : Role → ℕ
rank guest = 0
rank member = 1
rank moderator = 2
rank admin = 3
rank owner = 4

-- `==` of the derived `PartialEq`.
unfoldable pub role_eq : Role → Role → Bool
role_eq guest guest = true
role_eq member member = true
role_eq moderator moderator = true
role_eq admin admin = true
role_eq owner owner = true
role_eq _ _ = false

abbrev bad_role : WorkspacesError
bad_role = bad_input "role must be guest, member, moderator, admin, or owner"

unfoldable pub parse_role : Text → Result WorkspacesError Role
parse_role raw =
    let s = to_lowercase (trim raw) in
    if text_eq s (codes "guest")
    then ok guest
    else if text_eq s (codes "member")
    then ok member
    else if text_eq s (codes "moderator")
    then ok moderator
    else if text_eq s (codes "admin")
    then ok admin
    else if text_eq s (codes "owner")
    then ok owner
    else err bad_role

unfoldable pub permission_as_str : Permission → String
permission_as_str manage_workspace = "MANAGE_WORKSPACE"
permission_as_str manage_channels = "MANAGE_CHANNELS"
permission_as_str manage_roles = "MANAGE_ROLES"
permission_as_str manage_members = "MANAGE_MEMBERS"
permission_as_str kick_members = "KICK_MEMBERS"
permission_as_str ban_members = "BAN_MEMBERS"
permission_as_str send_messages = "SEND_MESSAGES"
permission_as_str manage_messages = "MANAGE_MESSAGES"
permission_as_str view_audit_log = "VIEW_AUDIT_LOG"

unfoldable pub parse_permission : Text → Result WorkspacesError Permission
parse_permission raw =
    let s = to_uppercase (trim raw) in
    if text_eq s (codes "MANAGE_WORKSPACE")
    then ok manage_workspace
    else if text_eq s (codes "MANAGE_CHANNELS")
    then ok manage_channels
    else if text_eq s (codes "MANAGE_ROLES")
    then ok manage_roles
    else if text_eq s (codes "MANAGE_MEMBERS")
    then ok manage_members
    else if text_eq s (codes "KICK_MEMBERS")
    then ok kick_members
    else if text_eq s (codes "BAN_MEMBERS")
    then ok ban_members
    else if text_eq s (codes "SEND_MESSAGES")
    then ok send_messages
    else if text_eq s (codes "MANAGE_MESSAGES")
    then ok manage_messages
    else if text_eq s (codes "VIEW_AUDIT_LOG")
    then ok view_audit_log
    else err (bad_input "unknown permission")

moderator_has : Permission → Bool
moderator_has send_messages = true
moderator_has manage_messages = true
moderator_has kick_members = true
moderator_has manage_members = true
moderator_has view_audit_log = true
moderator_has _ = false

member_has : Permission → Bool
member_has send_messages = true
member_has _ = false

unfoldable pub role_has : Role → Permission → Bool
unfolding moderator_has member_has
role_has owner permission = true
role_has admin permission = true
role_has moderator permission = moderator_has permission
role_has member permission = member_has permission
role_has guest permission = false

-- `new_role.is_some_and(|next| next.rank() >= actor.rank())`.
reaches : Option Role → Role → Bool
unfolding rank
reaches none actor = false
reaches (some next) actor = leb (rank actor) (rank next)

unfoldable pub check_rank : Role → Role → Option Role → Result WorkspacesError (Unit {0})
unfolding rank role_eq reaches
check_rank actor target new_role =
    if role_eq actor owner
    then ok tt
    else if leb (rank actor) (rank target)
    then err forbidden
    else if reaches new_role actor
    then err forbidden
    else ok tt
