-- ===== src/Workspaces/Commits/Cap.antt =====
-- No invite is used more often than its cap allows, whatever transactions commit.
pub mod Changes
use teri_chat.Prelude.{refl, false, none, some, List, ◌∷◌, leb}
use teri_chat.Prelude.Text.{Text}
use teri_chat.Table.{exists, update}
use teri_chat.Table.Laws.{find-update_hit, find-update_miss}
use teri_chat.Workspaces.Role.{Role}
use teri_chat.Workspaces.Invites.{join_seated}
