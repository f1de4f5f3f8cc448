-- ===== src/Workspaces/Commits/Preserves.antt =====
-- Every change of the core tables keeps the invariant.
mod Views
mod Departures
pub mod Arrivals
use teri_chat.Workspaces.Commits.Preserves.Departures.{
  promoted-WellFormed, removed-WellFormed, left-WellFormed,
}
use teri_chat.Workspaces.Commits.Preserves.Arrivals.{
  founded-WellFormed, renamed-WellFormed, seated-WellFormed, channel_opened-WellFormed,
  channel_renamed-WellFormed, channel_deleted-WellFormed,
}
use teri_chat.Prelude.{
  ℕ, ◌≡◌, ◌≢◌, refl, sym, ap, ◌∙◌, Bool, true, false, not, ◌&&◌, none, List, [], ◌∷◌, arith, ◌==◌,
}
use mathlib.Core.Path.{subst, ap₂}
use native.Mathlib.Decide.{ℕ_discrete}
use teri_chat.Prelude.Text.{Text}
use teri_chat.Table.{find, exists, select, delete, update}
use teri_chat.Table.Laws.{exists-eq-is_some}
use teri_chat.Workspaces.Role.{Role, owner, role_eq}
use teri_chat.Workspaces.Schema.{
  Workspace, Seat, Channel, seat_of, participant_of, channel_in, channel_with,
}
use teri_chat.Workspaces.Access.{owner_seat}
use teri_chat.Workspaces.Statements.{add_to_channels, add_members, carries, channel_participant}
use teri_chat.Workspaces.Statements.Effects.{
  with_role, carried, same_seat, delete-IsKeyed, update-IsKeyed, exists-owner-delete,
  exists-owner-update, exists-add_to_channels, exists-add_members, exists-delete_participants,
  exists-select_channels, exists-select_seats,
}
use teri_chat.Workspaces.Commits.Core.{
  Core, Keeps, Change, same, founded, renamed, seated, promoted, removed, left, channel_opened,
  channel_renamed, channel_deleted, WellFormed,
}

-- Every change of the core tables keeps the invariant.
pub Change-WellFormed :
    {p : ℕ → Bool} {c c' : Core} → Change c c' → WellFormed p c → WellFormed p c'
Change-WellFormed {p} (same e) h = rw e h
Change-WellFormed {p} {c} (founded row seat d q n f e) h =
    rw e (founded-WellFormed p c row seat d q n f h)
Change-WellFormed {p} {c} (renamed rows k e) h = rw e (renamed-WellFormed p c rows k h)
Change-WellFormed {p} {c} (seated seat n e) h = rw e (seated-WellFormed p c seat n h)
Change-WellFormed {p} {c} (promoted w t r g e) h = rw e (promoted-WellFormed p c w t r g h)
Change-WellFormed {p} {c} (removed w t g e) h = rw e (removed-WellFormed p c w t g h)
Change-WellFormed {p} {c} (left w t g e) h = rw e (left-WellFormed p c w t g h)
Change-WellFormed {p} {c} (channel_opened row n m e) h =
    rw e (channel_opened-WellFormed p c row n m h)
Change-WellFormed {p} {c} (channel_renamed id name e) h =
    rw e (channel_renamed-WellFormed p c id name h)
Change-WellFormed {p} {c} (channel_deleted k e) h = rw e (channel_deleted-WellFormed p c k h)
