-- ===== src/Workspaces/Tests/Races.antt =====
-- What commits between the checks of a request and its write: a ban before the transaction of
-- `add_member`, and a kick before the repair of a roster.
use teri_chat.Prelude.{◌≡◌, refl, true, none, some, [], ok, err}
use teri_chat.Prelude.Text.{codes}
use teri_chat.Workspaces.Role.{guest}
use teri_chat.Workspaces.Schema.{Db, seat_of, participant_of}
use teri_chat.Workspaces.Healing.{ensure_channel_participation}
use teri_chat.Table.{exists}
use teri_chat.Workspaces.Sample.{sample, env, running}
use teri_chat.Workspaces.Access.{role_of, is_banned}
use teri_chat.Workspaces.Members.{add_member_checks, add_member_tx}
use teri_chat.Workspaces.Moderation.{ban_member, remove_member, remove_member_tx}
use teri_chat.Workspaces.Invites.{join_via_invite}

-- The admin's request to add user 4 has passed its checks.
checked : add_member_checks 2 10 4 guest sample ≡ ok (tt, sample)
unfolding add_member_checks running
checked = refl

-- Then the user joins by an invite, and the owner bans the user.
abbrev joined_and_banned : Db
joined_and_banned = (ban_member env 1 10 4 [] (join_via_invite env 4 (codes "join-us") sample).1).1

-- Then the transaction of the admin's request runs.
abbrev added : Db
added = elim (add_member_tx env 2 10 4 guest joined_and_banned) [ ok (_, db) ↦ db | err e ↦ sample ]

seated_again : role_of 10 4 added ≡ some guest
unfolding running add_member_tx ban_member join_via_invite
seated_again = refl

banned_still : is_banned 10 4 added ≡ true
unfolding running add_member_tx ban_member join_via_invite
banned_still = refl

-- A member's message has passed `get_workspace`. Then the owner kicks the member.
member_read : exists (seat_of 10 3) sample.members ≡ true
unfolding running
member_read = refl

abbrev kicked : Db
kicked = (remove_member env 1 10 3 sample).1

-- Then the repair of the request commits.
abbrev repaired_late : Db
repaired_late = elim (ensure_channel_participation 10 3 kicked) [ ok (_, db) ↦ db | err e ↦ sample ]

kicked_out : role_of 10 3 repaired_late ≡ none
unfolding running ensure_channel_participation remove_member remove_member_tx
kicked_out = refl

on_roster_still : exists (participant_of 30 3) repaired_late.participants ≡ true
unfolding running ensure_channel_participation remove_member remove_member_tx
on_roster_still = refl
