-- ===== src/Gateway/Visibility.antt =====
-- The live checks: whether a session still stands, and whether an event may be read now.
--
-- A query that fails or takes too long is `answers` false, and every check then fails closed.
use teri_chat.Prelude.{ℕ, Bool, true, false, ◌&&◌, Option, none, some, Result, ok, err, ltb, ◌==◌}
use teri_chat.Table.{exists}
use teri_chat.Workspaces.Schema.{Channel}
use teri_chat.Workspaces.Access.{get_workspace, channel_by_conversation}
use teri_chat.Messaging.Schema.{OutboxEntry}
use teri_chat.Messaging.Conversations.{is_member}
use teri_chat.Auth.Schema.{SessionRow}
use teri_chat.Gateway.Schema.{World, AuthSession}

abbrev pub not_revoked : Option ℕ → Bool
not_revoked none = true
not_revoked (some at) = false

abbrev pub stands : AuthSession → ℕ → SessionRow → Bool
stands session now row =
    row.id == session.session_id
    && row.user_id == session.user_id
    && not_revoked row.revoked_at
    && ltb now row.expires_at

unfoldable pub session_live : Bool → AuthSession → World → Bool
session_live answers session w = answers && exists (stands session w.now) w.sessions

-- `.await.is_ok()`.
abbrev pub is_ok {ℓ} : {E A : Type ℓ} → Result E A → Bool
is_ok (ok a) = true
is_ok (err e) = false

abbrev pub visible_in : ℕ → ℕ → World → Option Channel → Bool
visible_in user_id conversation w none = is_member conversation user_id w.messages
visible_in user_id conversation w (some channel) =
    is_ok (get_workspace user_id channel.workspace_id w.tables)

unfoldable pub conversation_visible : ℕ → ℕ → World → Bool
conversation_visible user_id conversation w =
    visible_in user_id conversation w (channel_by_conversation conversation w.tables)

abbrev pub names_visible : ℕ → World → Option ℕ → Bool
names_visible user_id w none = false
names_visible user_id w (some conversation) = conversation_visible user_id conversation w

unfoldable pub event_visible : ℕ → OutboxEntry → World → Bool
event_visible user_id entry w = names_visible user_id w entry.payload.conversation_id
