-- ===== src/Workspaces/Tests.antt =====
-- The theorems on workspaces at a small database, and runs of the requests on it.
mod Listings
mod Permissions
mod Races
use teri_chat.Workspaces.Schema.{Db, seat_of}
use teri_chat.Workspaces.Statements.{sync_add_to_channels}
use teri_chat.Workspaces.Healing.{ensure_channel_participation}
use teri_chat.Prelude.{◌∷◌}
use teri_chat.Workspaces.Invites.{join_via_invite}
use teri_chat.Prelude.{◌⊎◌, if◌then◌else◌}
use teri_chat.Prelude.{◌↔◌, ◌<◌, ◌≡◌, ◌≢◌, refl, true, none, some, [], arith, ok, err}
use teri_chat.Prelude.Text.{text_eq, codes}
use teri_chat.Table.{find, exists}
use teri_chat.Workspaces.Role.{
  manage_roles, kick_members, ban_members, owner, admin, moderator, role_eq, rank, not_member,
  banned,
}
use teri_chat.Workspaces.Sample.{sample, env, running, invite_40}
use teri_chat.Workspaces.Moderation.{
  set_role, set_role_tx, remove_member, remove_member_tx, ban_member, ban_member_tx,
}
use teri_chat.Workspaces.Moderation.Authority.{commits, HasAuthority, KeepsOwner, set_role_iff}
use teri_chat.Workspaces.Moderation.Removal.{remove_member_iff, ban_member_iff}
use teri_chat.Workspaces.Moderation.Consequences.{no_escalation}
use teri_chat.Workspaces.Commits.Core.{Committed}
use teri_chat.Workspaces.Members
use teri_chat.Workspaces.Requests.{Request, serve}
use teri_chat.Workspaces.Requests.Outsiders.{outsider_wall}
use teri_chat.Workspaces.Requests.Banned.{banned_wall}
use teri_chat.Workspaces.Commits.Core.{core, WellFormed}
use teri_chat.Workspaces.Commits.Interleavings.{here, next, committed, repaired, Reach-WellFormed}

sample-WellFormed : WellFormed (λ u. true) (core sample)
unfolding exists find role_eq
sample-WellFormed = record {
  keyed = ground arith;
  owned = λ w h. ground arith;
  single = λ v w k h g. ground arith;
  roster = λ w k u h. ground arith;
}

-- The admin makes the member a moderator.
promoted :
    set_role_tx env 2 10 3 moderator sample ≡ ok (tt, (set_role env 2 10 3 moderator sample).1)
unfolding set_role running
promoted = refl

-- Then the member's roster is repaired.
abbrev repaired_sample : Db
repaired_sample =
    elim (ensure_channel_participation 10 3 (set_role env 2 10 3 moderator sample).1) [
      | ok (_, db) ↦ db
      | err e ↦ sample
    ]

repair_run :
    ensure_channel_participation 10 3 (set_role env 2 10 3 moderator sample).1
    ≡ ok (tt, repaired_sample)
unfolding ensure_channel_participation sync_add_to_channels
repair_run = refl

seated_3 : exists (seat_of 10 3) (set_role env 2 10 3 moderator sample).1.members ≡ true
unfolding running set_role
seated_3 = refl

Reach-WellFormed_example : WellFormed (λ u. true) (core repaired_sample)
Reach-WellFormed_example =
    Reach-WellFormed (λ u. true)
      (next (next here (committed (Committed.set_role env 2 10 3 moderator promoted)))
        (repaired 10 3 repair_run))
      ((tt, tt), seated_3) sample-WellFormed

set_role_iff_example : (commits (set_role_tx env 2 10 3 moderator sample) ≡ true) ↔ (
    HasAuthority sample 2 10 3 manage_roles (some moderator)
    × ((moderator ≡ owner) ⊎ KeepsOwner sample 10 3))
unfolding exists find role_eq
set_role_iff_example = set_role_iff env 2 10 3 moderator sample (refl, (refl, (refl, tt))) refl

remove_member_iff_example :
    (commits (remove_member_tx env 1 10 3 sample) ≡ true)
    ↔ (HasAuthority sample 1 10 3 kick_members none × KeepsOwner sample 10 3)
unfolding exists find role_eq
remove_member_iff_example = remove_member_iff env 1 10 3 sample (refl, (refl, (refl, tt))) refl

ban_member_iff_example :
    (commits (ban_member_tx env 1 10 3 [] sample) ≡ true)
    ↔ (HasAuthority sample 1 10 3 ban_members none × KeepsOwner sample 10 3)
unfolding exists find role_eq
ban_member_iff_example = ban_member_iff env 1 10 3 [] sample (refl, (refl, (refl, tt))) refl

no_escalation_example : rank moderator < rank admin
unfolding running
no_escalation_example =
    no_escalation env 2 10 3 moderator admin sample (set_role env 2 10 3 moderator sample).1 10 3
      moderator (refl, (refl, (refl, tt))) promoted refl (λ e. cc e) (unfold set_role in refl)
      (λ e. cc e)

ban_run : ban_member_tx env 1 10 3 [] sample ≡ ok (tt, (ban_member env 1 10 3 [] sample).1)
unfolding ban_member running
ban_run = refl

outsider_wall_example :
    serve (λ t. none) env 4 (Request.rename_workspace 10 (codes "mine")) sample
    ≡ (err not_member, sample)
unfolding running
outsider_wall_example =
    outsider_wall (λ t. none) env 4 (Request.rename_workspace 10 (codes "mine")) sample (refl, refl)

banned_wall_example :
    serve (λ t. none) env 5 (Request.join_via_invite (codes " join-us ")) sample
    ≡ (err banned, sample)
unfolding running
banned_wall_example =
    banned_wall (λ t. none) env 5 (Request.join_via_invite (codes " join-us ")) sample
      (invite_40, refl, refl, refl)

kick_run : remove_member_tx env 1 10 3 sample ≡ ok (tt, (remove_member env 1 10 3 sample).1)
unfolding remove_member running
kick_run = refl

abbrev joined_4 : Db
joined_4 = (join_via_invite env 4 (codes "join-us") sample).1
