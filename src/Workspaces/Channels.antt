-- ===== src/Workspaces/Channels.antt =====
-- Text channels: created, renamed and deleted (apps/server/src/workspaces.rs).
use teri_chat.Prelude.{
  ℕ, Bool, true, false, not, ◌&&◌, none, some, [], ◌∷◌, ◌==◌, Result, ok, err, Tx, ◌>>=◌, ◌>>◌,
  pure, raise_if, query, map_err, transaction, after, reading,
}
use teri_chat.Prelude.Text.{Text, text_eq}
use teri_chat.Table.{find, exists, select, delete, update}
use teri_chat.Workspaces.Role.{
  manage_channels, WorkspacesError, DbError, row_not_found, unique_violation, not_member, bad_input,
  database,
}
use teri_chat.Workspaces.Schema.{
  Db, Env, Seat, Channel, Conversation, ConversationKind, uuid, text, channel_with,
}
use teri_chat.Workspaces.Access.{clean_name, require, get_channel}
use teri_chat.Workspaces.Statements.{record_audit, add_members}

abbrev name_taken : DbError → WorkspacesError
name_taken unique_violation = bad_input "channel name is taken in this workspace"
name_taken e = database e

-- `UNIQUE (workspace_id, name)` over the rows other than the one that is written.
abbrev named : ℕ → ℕ → Text → Channel → Bool
named workspace_id id name r =
    r.workspace_id == workspace_id && text_eq r.name name && not (r.id == id)

-- The conversation of a new channel, with every member of the workspace in it.
unfoldable pub insert_conversation : Env → ℕ → ℕ → Tx Db WorkspacesError (Unit {0})
insert_conversation env actor_id workspace_id db = ok (
  tt,
  record db {
    conversations =
        record { id = env.conversation_id; kind = ConversationKind.channel; created_by = actor_id }
        ∷ db.conversations;
    participants =
        add_members env.conversation_id
          (select (λ (m : Seat). m.workspace_id == workspace_id) db.members) db.participants;
  },
)

unfoldable pub insert_channel : Env → ℕ → ℕ → Text → Tx Db DbError Channel
insert_channel env actor_id workspace_id name db =
    let row : Channel = record {
      id = env.id;
      workspace_id = workspace_id;
      conversation_id = env.conversation_id;
      name = name;
      created_by = actor_id;
      created_at = env.now;
    } in
    elim (exists (named workspace_id env.id name) db.channels) [
      | true ↦ err unique_violation
      | false ↦ ok (row, record db { channels = row ∷ db.channels })
    ]

unfoldable pub create_channel_tx : Env → ℕ → ℕ → Text → Tx Db WorkspacesError Channel
unfolding insert_conversation insert_channel
create_channel_tx env actor_id workspace_id name = do
  insert_conversation env actor_id workspace_id
  row ← map_err name_taken (insert_channel env actor_id workspace_id name)
  record_audit env workspace_id actor_id "channel.created" none
      (("channel_id", uuid env.id) ∷ ("name", text name) ∷ [])
  pure row

unfoldable pub create_channel : Env → ℕ → ℕ → Text → Db → Result WorkspacesError Channel × Db
unfolding create_channel_tx
create_channel env actor_id workspace_id name db =
    after (require workspace_id actor_id manage_channels db)
      (λ _.
        after (clean_name name)
          λ clean. transaction (create_channel_tx env actor_id workspace_id clean))
      db

-- The gate of the channel operations: the channel can be read and the actor manages channels.
unfoldable pub managed_channel : ℕ → ℕ → Tx Db WorkspacesError Channel
managed_channel actor_id channel_id = do
  channel ← query (get_channel actor_id channel_id)
  query (require channel.workspace_id actor_id manage_channels)
  pure channel

-- `UPDATE channels SET name … RETURNING` by `fetch_one`.
update_channel_name : ℕ → Text → Tx Db DbError Channel
update_channel_name channel_id name db = elim (find (channel_with channel_id) db.channels) [
  | none ↦ err row_not_found
  | some row ↦ elim (exists (named row.workspace_id channel_id name) db.channels) [
    | true ↦ err unique_violation
    | false ↦ ok (
      record row { name = name },
      record db {
        channels = update (channel_with channel_id) (λ r. record r { name = name }) db.channels;
      },
    )
  ]
]

unfoldable pub rename_channel_tx : Env → ℕ → Channel → Text → Tx Db WorkspacesError Channel
unfolding update_channel_name
rename_channel_tx env actor_id channel name = do
  row ← map_err name_taken (update_channel_name channel.id name)
  record_audit env channel.workspace_id actor_id "channel.renamed" none
      (("channel_id", uuid channel.id) ∷ ("name", text name) ∷ [])
  pure row

unfoldable pub rename_channel : Env → ℕ → ℕ → Text → Db → Result WorkspacesError Channel × Db
unfolding managed_channel rename_channel_tx
rename_channel env actor_id channel_id name db =
    after (reading (managed_channel actor_id channel_id) db)
      (λ channel.
        after (clean_name name) λ clean. transaction (rename_channel_tx env actor_id channel clean))
      db

-- `DELETE FROM conversations`, with the cascades of the schema to the participants, the channel
-- and the channel's overrides: whether a row was deleted.
unfoldable pub delete_conversation : ℕ → Tx Db WorkspacesError Bool
delete_conversation conversation_id db =
    let of_conversation : Channel → Bool = λ r. r.conversation_id == conversation_id in
    elim (exists (λ (c : Conversation). c.id == conversation_id) db.conversations) [
      | true ↦ ok (
        true,
        record db {
          conversations = delete (λ c. c.id == conversation_id) db.conversations;
          participants = delete (λ p. p.conversation_id == conversation_id) db.participants;
          channels = delete of_conversation db.channels;
          overrides =
              delete (λ o. exists (λ r. of_conversation r && r.id == o.channel_id) db.channels)
                db.overrides;
        },
      )
      | false ↦ ok (false, db)
    ]

-- Events of the conversation that were not yet published.
unfoldable pub delete_unpublished : ℕ → Tx Db WorkspacesError (Unit {0})
delete_unpublished conversation_id db = ok (
  tt,
  record db {
    outbox = delete (λ o. not o.published && o.conversation_id == conversation_id) db.outbox;
  },
)

unfoldable pub delete_channel_tx : Env → ℕ → Channel → Tx Db WorkspacesError (Unit {0})
unfolding delete_conversation delete_unpublished
delete_channel_tx env actor_id channel = do
  deleted ← delete_conversation channel.conversation_id
  raise_if (not deleted) not_member
  delete_unpublished channel.conversation_id
  record_audit env channel.workspace_id actor_id "channel.deleted" none
      (("channel_id", uuid channel.id) ∷ ("name", text channel.name) ∷ [])

unfoldable pub delete_channel : Env → ℕ → ℕ → Db → Result WorkspacesError (Unit {0}) × Db
unfolding managed_channel delete_channel_tx
delete_channel env actor_id channel_id db =
    after (reading (managed_channel actor_id channel_id) db)
      (λ channel. transaction (delete_channel_tx env actor_id channel)) db
