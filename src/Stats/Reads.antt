-- ===== src/Stats/Reads.antt =====
-- What a user reads of the own counters: the total, a conversation, a workspace and its channels.
--
-- A read of a workspace holds locks on the session and the membership, so it is one step. `now` is the
-- time of the statement after the locks.
pub mod Gates
use teri_chat.Prelude.{
  ℕ, ◌+◌, ◌^◌, Bool, true, false, not, ◌&&◌, Option, none, some, List, [], ◌∷◌, map, take, Result,
  ok, err, ltb, leb, ◌==◌, if◌then◌else◌,
}
use teri_chat.Prelude.Int.{ℤ, pos, pos_part}
use teri_chat.Prelude.Text.{Text}
use teri_chat.Table.{find, exists, select, order_by}
use teri_chat.Table.Paging.{cut_page}
use teri_chat.Errors.{AppError, unauthorized, internal, from_workspaces}
use teri_chat.Auth.Schema.{SessionRow, session_with}
use teri_chat.Auth.Sessions.{unrevoked}
use teri_chat.Auth.Management.{at_most_100}
use teri_chat.Messaging.Schema.{MsgDb}
use teri_chat.Messaging.Conversations.{is_member}
use teri_chat.Workspaces.Role.{banned, bad_input, WorkspacesError}
use teri_chat.Workspaces.Role
use teri_chat.Workspaces.Schema.{Db, Channel, channel_in, seat_of}
use teri_chat.Workspaces.Access.{is_banned, get_workspace, channel_by_conversation}
use teri_chat.Stats.Schema.{
  StatsError, not_member, database, UserStats, ConversationStats, StatsDb, stats_of, stats_in,
}

abbrev pub rollup : ℕ → Option UserStats → UserStats
rollup u none = record { user_id = u; message_count = 0; last_message_at = none }
rollup u (some row) = record {
  user_id = u;
  message_count = row.message_count;
  last_message_at = row.last_message_at;
}

unfoldable pub own_stats : ℕ → StatsDb → UserStats
own_stats u db = rollup u (find (stats_of u) db.user_stats)

abbrev pub rollup_in : ℕ → ℕ → Option ConversationStats → ConversationStats
rollup_in u c none = record {
  user_id = u;
  conversation_id = c;
  message_count = 0;
  last_message_at = none;
}
rollup_in u c (some row) = record {
  user_id = u;
  conversation_id = c;
  message_count = row.message_count;
  last_message_at = row.last_message_at;
}

abbrev pub map_scope : WorkspacesError → StatsError
map_scope (Role.database e) = database e
map_scope e = not_member

-- The gate: of a channel the workspace, of another conversation its participants.
abbrev pub scope_of : ℕ → ℕ → Db → MsgDb → Option Channel → Result StatsError (Unit {0})
scope_of u c tables messages (some channel) = elim (get_workspace u channel.workspace_id tables) [
  | err e ↦ err (map_scope e)
  | ok x ↦ ok tt
]
scope_of u c tables messages none = if is_member c u messages then ok tt else err not_member

unfoldable pub conversation_stats :
    ℕ → ℕ → Db → MsgDb → StatsDb → Result StatsError ConversationStats
conversation_stats u c tables messages db =
    elim (scope_of u c tables messages (channel_by_conversation c tables)) [
      | err e ↦ err e
      | ok x ↦ ok (rollup_in u c (find (stats_in u c) db.conversation_stats))
    ]

abbrev pub own_session : ℕ → ℕ → SessionRow → Bool
own_session u s row = row.id == s && row.user_id == u && unrevoked row

abbrev pub unexpired : ℕ → Option SessionRow → Result AppError Bool
unexpired now none = err internal
unexpired now (some row) = ok (ltb now row.expires_at)

unfoldable pub authorized_read : ℕ → ℕ → ℕ → ℕ → List SessionRow → Db → Result AppError (Unit {0})
authorized_read now u s w sessions tables =
    if not (exists (own_session u s) sessions)
    then err unauthorized
    else elim (unexpired now (find (session_with s) sessions)) [
      | err e ↦ err e
      | ok false ↦ err unauthorized
      | ok true ↦
          if is_banned w u tables
          then err (from_workspaces banned)
          else if exists (seat_of w u) tables.members
          then ok tt
          else err (from_workspaces Role.not_member)
    ]

pub record WorkspaceStats : Type 0 where
  pub user_id : ℕ
  pub workspace_id : ℕ
  pub message_count : ℕ
  pub last_message_at : Option ℕ

-- The LEFT JOIN: the row of the user for the conversation of each channel, if there is one.
abbrev pub row_for : ℕ → StatsDb → Channel → Option ConversationStats
row_for u db c = find (stats_in u c.conversation_id) db.conversation_stats

-- `COALESCE(message_count, 0)`.
abbrev pub count_or_zero : Option ConversationStats → ℕ
count_or_zero none = 0
count_or_zero (some row) = row.message_count

abbrev pub last_at : Option ConversationStats → Option ℕ
last_at none = none
last_at (some row) = row.last_message_at

abbrev pub later : Option ℕ → Option ℕ → Option ℕ
later none t = t
later (some s) none = some s
later (some s) (some t) = if ltb s t then some t else some s

unfoldable pub sum_counts : ℕ → StatsDb → List Channel → ℕ
sum_counts u db [] = 0
sum_counts u db (c ∷ channels) = count_or_zero (row_for u db c) + sum_counts u db channels

unfoldable pub max_last : ℕ → StatsDb → List Channel → Option ℕ
max_last u db [] = none
max_last u db (c ∷ channels) = later (last_at (row_for u db c)) (max_last u db channels)

-- The sum is cast to a `BIGINT`.
unfoldable pub own_workspace_stats :
    ℕ → ℕ → ℕ → ℕ → List SessionRow → Db → StatsDb → Result AppError WorkspaceStats
unfolding authorized_read sum_counts max_last
own_workspace_stats now u s w sessions tables db =
    elim (authorized_read now u s w sessions tables) [
      | err e ↦ err e
      | ok x ↦
          let channels = select (channel_in w) tables.channels in
          if leb (2 ^ 63) (sum_counts u db channels)
          then err internal
          else ok (record {
            user_id = u;
            workspace_id = w;
            message_count = sum_counts u db channels;
            last_message_at = max_last u db channels;
          })
    ]

pub record ChannelStats : Type 0 where
  pub channel_id : ℕ
  pub conversation_id : ℕ
  pub name : Text
  pub message_count : ℕ
  pub last_message_at : Option ℕ

pub record ChannelPage : Type 0 where
  pub channels : List ChannelStats
  pub next_cursor : Option ℕ

abbrev pub channel_stats : ℕ → StatsDb → Channel → ChannelStats
channel_stats u db c = record {
  channel_id = c.id;
  conversation_id = c.conversation_id;
  name = c.name;
  message_count = count_or_zero (row_for u db c);
  last_message_at = last_at (row_for u db c);
}

abbrev pub after_channel : Option ℕ → Channel → Bool
after_channel none c = true
after_channel (some a) c = ltb a c.id

abbrev pub channel_listed : ℕ → Option ℕ → Channel → Bool
channel_listed w after c = channel_in w c && after_channel after c

abbrev pub smaller_channel : Channel → Channel → Bool
smaller_channel c d = ltb c.id d.id

-- Of the `limit + 1` rows that were read, `pop` leaves the first `limit`.
abbrev pub channel_page : ℕ → List ChannelStats → ChannelPage
channel_page limit rows =
    let (channels, next_cursor) = cut_page (λ (c : ChannelStats). c.channel_id) limit rows in
    record { channels = channels; next_cursor = next_cursor }

unfoldable pub own_channel_stats :
    ℕ → ℕ → ℕ → ℕ → Option ℕ → ℤ → List SessionRow → Db → StatsDb → Result AppError ChannelPage
unfolding authorized_read cut_page
own_channel_stats now u s w after limit sessions tables db =
    elim (authorized_read now u s w sessions tables) [
      | err e ↦ err e
      | ok x ↦
          if pos_part limit == 0
          then err (from_workspaces (bad_input "limit must be positive"))
          else (let n = at_most_100 (pos_part limit) in
              ok (
                channel_page n (
                  map (channel_stats u db) (
                    take (n + 1) (
                      order_by smaller_channel
                        (select (channel_listed w after) tables.channels))))))
    ]
