-- ===== src/Messaging/Directory/Scope.antt =====
-- Whom the list of conversations shows.
use mathlib.Core.Option
use teri_chat.Prelude.Text.{Text, text_eq}
use teri_chat.Prelude.{ℕ, ◌≡◌, ◌⊎◌, true, false, ◌&&◌, Option, none, some, ◌==◌}
use teri_chat.Table.{exists}
use teri_chat.Table.Each.{All}
use teri_chat.Messaging.Schema.{MsgDb, UserRow, seat_in, is_kind, dm_kind}
use teri_chat.Messaging.Directory.{MemberProfile, ConversationSummary}
use teri_chat.Messaging.Directory.Members.{shares}

module _ (u : ℕ) (db : MsgDb) where
  -- Names of a user who shares a direct conversation or a group with `u`, as a row of the users
  -- has them.
  abbrev pub Known : ℕ → Text → Text → Type 0
  Known v handle display_name =
      (shares u v db ≡ true)
      × (exists
            (λ (row : UserRow).
              row.id == v && text_eq row.handle handle && text_eq row.display_name display_name)
            db.users
          ≡ true)

  abbrev pub KnownProfile : MemberProfile → Type 0
  KnownProfile q = Known q.user_id q.handle q.display_name

  -- Of the peer nothing is shown, or of a direct conversation the names of another user whom `u`
  -- shares it with.
  abbrev pub PeerScoped : Text → Option UserRow → Type 0
  PeerScoped kind peer =
      (peer ≡ none)
      ⊎ ((row : UserRow) × (v : ℕ) × (peer ≡ some row)
          × (is_kind dm_kind kind ≡ true)
          × ((v == u) ≡ false)
          × Known v row.handle row.display_name)

  -- What a summary may show.
  abbrev pub Scoped : ConversationSummary → Type 0
  Scoped s =
      (exists (seat_in s.id u) db.participants ≡ true)
      × All KnownProfile s.member_profiles
      × ((peer : Option UserRow) × PeerScoped s.kind peer
          × (s.peer_handle ≡ Option.map (λ (row : UserRow). row.handle) peer)
          × (s.peer_display_name ≡ Option.map (λ (row : UserRow). row.display_name) peer))
