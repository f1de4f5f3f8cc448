-- ===== src/Workspaces/Listings.antt =====
-- The listings of a workspace: members, channels, overrides, invites and the audit log.
--
-- The columns of `users` that a profile shows are an argument. A page of members is read while the
-- caller's membership is locked, so it is one step. A limit is an `i64`.
pub mod Gates
pub mod Pages
use teri_chat.Prelude.{
  ℕ, ◌+◌, Bool, true, false, not, ◌&&◌, Option, none, some, List, [], ◌∷◌, length, map, take,
  Result, ok, err, ltb, leb, ◌==◌, if◌then◌else◌,
}
use teri_chat.Prelude.Int.{ℤ, pos_part}
use teri_chat.Prelude.Text.{Text}
use teri_chat.Table.{find, select, order_by}
use teri_chat.Table.Paging.{cut_page}
use teri_chat.Workspaces.Role.{
  Role, WorkspacesError, not_member, banned, bad_input, manage_members, view_audit_log,
}
use teri_chat.Workspaces.Schema.{
  Db, Seat, Channel, ChannelOverride, Invite, AuditEntry, seat_of, channel_in,
}
use teri_chat.Workspaces.Access.{is_banned, require, get_workspace, get_channel}

-- The public columns of a row of `users`.
pub record Profile : Type 0 where
  pub id : ℕ
  pub handle : Text
  pub display_name : Text

pub record Member : Type 0 where
  pub user_id : ℕ
  pub handle : Text
  pub display_name : Text
  pub role : Role
  pub joined_at : ℕ

pub record MembersPage : Type 0 where
  pub members : List Member
  pub next_cursor : Option ℕ

abbrev pub max_list_rows : ℕ
max_list_rows = 500

abbrev pub profile_with : ℕ → Profile → Bool
profile_with u p = p.id == u

-- The JOIN: each seat with the profile of its user.
unfoldable pub join_profiles : List Profile → List Seat → List Member
join_profiles profiles [] = []
join_profiles profiles (m ∷ seats) =
    let rest = join_profiles profiles seats in
    elim (find (profile_with m.user_id) profiles) [
      | none ↦ rest
      | some p ↦
          record {
            user_id = m.user_id;
            handle = p.handle;
            display_name = p.display_name;
            role = m.role;
            joined_at = m.joined_at;
          }
          ∷ rest
    ]

-- `($2 IS NULL OR m.user_id > $2)`.
abbrev pub after_user : Option ℕ → Seat → Bool
after_user none m = true
after_user (some u) m = ltb u m.user_id

abbrev pub member_listed : ℕ → Option ℕ → Db → Seat → Bool
member_listed w after db m =
    m.workspace_id == w && after_user after m && not (is_banned w m.user_id db)

abbrev pub smaller_user : Member → Member → Bool
smaller_user a b = ltb a.user_id b.user_id

-- Of at most `limit + 1` rows that were read, `pop` leaves the first `limit`.
unfoldable pub members_page : ℕ → List Member → MembersPage
unfolding cut_page
members_page limit rows =
    let (members, next_cursor) = cut_page (λ (m : Member). m.user_id) limit rows in
    record { members = members; next_cursor = next_cursor }

-- `limit.min(100)`, for a positive limit.
abbrev pub page_limit : ℤ → ℕ
page_limit limit = if leb 100 (pos_part limit) then 100 else pos_part limit

abbrev pub read_page :
    List Profile → ℕ → Option ℕ → ℕ → Db → Option Seat → Result WorkspacesError MembersPage
read_page profiles w after limit db none = err not_member
read_page profiles w after limit db (some seat) = ok (
    members_page limit (
      take (limit + 1) (
        order_by smaller_user
          (join_profiles profiles (select (member_listed w after db) db.members)))))

unfoldable pub list_members :
    List Profile → ℕ → ℕ → Option ℕ → ℤ → Db → Result WorkspacesError MembersPage
unfolding members_page join_profiles
list_members profiles user_id workspace_id after limit db =
    if pos_part limit == 0
    then err (bad_input "limit must be positive")
    else if is_banned workspace_id user_id db
    then err banned
    else read_page profiles workspace_id after (page_limit limit) db
        (find (seat_of workspace_id user_id) db.members)

abbrev pub older_channel : Channel → Channel → Bool
older_channel a b = ltb a.created_at b.created_at

unfoldable pub list_channels : ℕ → ℕ → Db → Result WorkspacesError (List Channel)
list_channels user_id workspace_id db = elim (get_workspace user_id workspace_id db) [
  | err e ↦ err e
  | ok x ↦
      ok
        (take max_list_rows (order_by older_channel (select (channel_in workspace_id) db.channels)))
]

abbrev pub override_on : ℕ → ChannelOverride → Bool
override_on c o = o.channel_id == c

unfoldable pub list_overrides : ℕ → ℕ → Db → Result WorkspacesError (List ChannelOverride)
list_overrides user_id channel_id db = elim (get_channel user_id channel_id db) [
  | err e ↦ err e
  | ok channel ↦ ok (select (override_on channel.id) db.overrides)
]

abbrev pub invite_in : ℕ → Invite → Bool
invite_in w i = i.workspace_id == w

abbrev pub newer_invite : Invite → Invite → Bool
newer_invite a b = ltb b.created_at a.created_at

unfoldable pub list_invites : ℕ → ℕ → Db → Result WorkspacesError (List Invite)
list_invites actor_id workspace_id db = elim (require workspace_id actor_id manage_members db) [
  | err e ↦ err e
  | ok role ↦
      ok (take max_list_rows (order_by newer_invite (select (invite_in workspace_id) db.invites)))
]

abbrev pub entry_in : ℕ → AuditEntry → Bool
entry_in w e = e.workspace_id == w

abbrev pub newer_entry : AuditEntry → AuditEntry → Bool
newer_entry a b = ltb b.created_at a.created_at

-- `limit.clamp(1, 100)`.
abbrev pub audit_limit : ℤ → ℕ
audit_limit limit = if pos_part limit == 0 then 1 else page_limit limit

unfoldable pub list_audit : ℕ → ℕ → ℤ → Db → Result WorkspacesError (List AuditEntry)
list_audit actor_id workspace_id limit db = elim (require workspace_id actor_id view_audit_log db) [
  | err e ↦ err e
  | ok role ↦
      ok (take (audit_limit limit) (order_by newer_entry (select (entry_in workspace_id) db.audit)))
]
