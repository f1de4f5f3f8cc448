-- ===== src/Workspaces/Tests/Listings.antt =====
-- The theorems on listings at the small database, and runs of them.
use teri_chat.Workspaces.Schema.{Workspace, Channel, workspace_with, channel_with}
use teri_chat.Table.Paging.{cut_page, last_key}
use teri_chat.Workspaces.Listings.{
  Profile, list_members, list_channels, list_overrides, list_invites, list_audit, members_page,
  join_profiles,
}
use teri_chat.Workspaces.Listings.Pages.{UniqueSeats, seen_page, all_members, list_members_complete}
use teri_chat.Table.Paging.{follow}
use teri_chat.Table.{count}
use teri_chat.Workspaces.Access.{role_of}
use teri_chat.Prelude.{suc, length, is_some, false}
use teri_chat.Workspaces.Listings.Gates.{listings_lem, refusal, barred, stranger, unable}
use teri_chat.Prelude.{List, ◌∷◌}
use teri_chat.Prelude.Int.{pos}
use teri_chat.Table.{order_by, insert_sorted}
use teri_chat.Workspaces.Role.{manage_members, view_audit_log, forbidden}
use teri_chat.Prelude.{◌≡◌, refl, true, none, some, [], arith, ok, err}
use teri_chat.Prelude.Text.{codes}
use teri_chat.Table.{find, exists}
use teri_chat.Workspaces.Role.{admin}
use teri_chat.Workspaces.Access.{is_banned, require}
use teri_chat.Workspaces.Sample.{sample, running}

abbrev alpha : Workspace
alpha = record { id = 10; name = codes "alpha"; owner_id = 1; created_at = 0; updated_at = 0 }

abbrev general : Channel
general = record {
  id = 20;
  workspace_id = 10;
  conversation_id = 30;
  name = codes "general";
  created_by = 1;
  created_at = 3;
}

alpha_found : find (workspace_with 10) sample.workspaces ≡ some alpha
unfolding find
alpha_found = refl

general_found : find (channel_with 20) sample.channels ≡ some general
unfolding find
general_found = refl

listings_lem_example :
    (refusal (list_members [] 3 10 none (pos 2) sample) ≡ barred 10 3 sample stranger)
    × (refusal (list_channels 3 10 sample) ≡ barred 10 3 sample stranger)
    × (refusal (list_overrides 3 20 sample) ≡ barred 10 3 sample stranger)
    × (refusal (list_invites 3 10 sample) ≡ barred 10 3 sample (unable manage_members))
    × (refusal (list_audit 3 10 (pos 2) sample) ≡ barred 10 3 sample (unable view_audit_log))
listings_lem_example =
    listings_lem [] 3 10 20 none (pos 2) sample alpha general alpha_found general_found refl refl

-- What the sample answers to a member: a page of one, and no invites.
abbrev shown : List Profile
shown =
    record { id = 1; handle = codes "a"; display_name = codes "A" }
    ∷ record { id = 2; handle = codes "b"; display_name = codes "B" }
    ∷ record { id = 3; handle = codes "c"; display_name = codes "C" }
    ∷ []

members_run :
    list_members shown 3 10 (some 1) (pos 1) sample
    ≡ ok (record {
      members =
          record {
            user_id = 2;
            handle = codes "b";
            display_name = codes "B";
            role = admin;
            joined_at = 1;
          }
          ∷ [];
      next_cursor = some 2;
    })
unfolding running list_members order_by insert_sorted members_page join_profiles is_banned exists
    cut_page last_key
members_run = refl

invites_run : list_invites 3 10 sample ≡ err forbidden
unfolding running list_invites require
invites_run = refl

unique_seats : UniqueSeats 10 sample
unfolding count
unique_seats u = ground arith

not_banned : is_banned 10 3 sample ≡ false
unfolding running
not_banned = refl

seated : is_some (role_of 10 3 sample) ≡ true
unfolding running
seated = refl

list_members_complete_example :
    follow
      (suc (length sample.members))
      (λ c. seen_page (list_members shown 3 10 c (pos 1) sample))
      none
    ≡ some (all_members shown 10 sample)
list_members_complete_example =
    list_members_complete shown 3 10 (pos 1) sample unique_seats not_banned seated refl
