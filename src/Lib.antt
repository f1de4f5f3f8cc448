-- ===== src/Lib.antt =====
-- TeriChat: a verification library of the server and of its device cryptography.
--
-- TeriChat is a chat service: an HTTP and WebSocket server in Rust over PostgreSQL
-- (apps/server), a crate of device cryptography (crates/tericrypt) and a desktop client.
-- The server's handlers (apps/server/src/routes) call domain modules, and each domain
-- call runs its checks on the committed state and then one database transaction. What is
-- modelled here are the domain modules that decide who is who, who may do what, who is
-- told what, what is counted, and to whom value belongs: accounts and sessions, workspaces,
-- messaging, the gateway that streams events, the counters and the ledger, and the envelopes
-- of the cryptography.
--
-- How code is modelled.
--   Prelude        names that all modules share. Prelude/Outcome has the results, the
--                  transactions `Tx S E A` (an error loses every write) and the whole
--                  requests, `S → Result E A × S`. Prelude/Int has the integers and the
--                  range test of `i64` and `BIGINT`; Prelude/Text has texts as lists of
--                  code points, trimmed of Unicode's white space, and changed in case as
--                  far as a comparison with an ASCII word can tell.
--   Table          tables as lists of rows, and the statements of SQL on them, with
--                  what holds of counts, of ORDER BY, of scans by a unique key and of pages
--                  with a cursor (Table/Paging). Table/Each has predicates of every row.
--   A UUID is a natural number in the order of its bytes. The identifiers, codes and
--   times that a request draws are arguments (`Env`, `Fresh`). A statement carries the
--   constraints and triggers of the schema in migrations/ that can make it fail. Failures
--   of the connection are left out. Transactions commit one after the other: locks and
--   the concurrent execution of two transactions are outside the model, and what a
--   request checked before its transaction may be out of date, which the step relations
--   allow by taking the transactions at any state.
--
-- Workspaces, for apps/server/src/workspaces.rs.
--   Workspaces/Role         Role, Permission, parse_role, parse_permission, role_has,
--                           check_rank and WorkspacesError.
--   Workspaces/Schema       the rows, the database `Db` and what a request draws, `Env`.
--   Workspaces/Access       clean_name, role_of, is_banned, require, get_workspace,
--                           owner_count, locked_roles, get_channel.
--   Workspaces/Statements   the statements that several operations share, such as
--                           record_audit, sync_add_to_channels and the owner trigger.
--   Workspaces/Members      create_workspace, rename_workspace, add_member, leave.
--   Workspaces/Moderation   set_role, remove_member, ban_member, unban.
--   Workspaces/Channels     create_channel, rename_channel, delete_channel.
--   Workspaces/Overrides    set_override, delete_override, channel_allowed, can_send.
--   Workspaces/Invites      create_invite, revoke_invite, join_via_invite.
--   Workspaces/Commits      the transactions and the repairs of rosters as one step relation,
--                           the transactions against a map of roles, their abstraction to
--                           changes of the membership tables, and the invariant.
--   Workspaces/Requests     the requests as a data type and `serve`, for the routes of
--                           apps/server/src/routes/workspaces.rs.
--   An operation `f` whose transaction is of interest has its body as `f_tx`, and its
--   checks before as `f_checks`. The parser of UUIDs is a parameter of the overrides.
--   Workspaces/Sample and Workspaces/Tests hold a small database and the theorems on it,
--   with those on listings in Workspaces/Tests/Listings. Workspaces/Tests/Races has runs
--   in which a ban overtakes the addition of a member, and a removal the repair of a roster.
--   The reads that join_via_invite makes after its commit are on states of their own, which
--   `Env` has in `meanwhile`.
--
--   Workspaces/Listings     list_members, list_channels, list_overrides, list_invites and
--                           list_audit, who may read them, and the pages of members.
--   Workspaces/Healing      list_workspaces, ensure_channel_participation and
--                           ensure_all_participation.
--
-- Messaging, for apps/server/src/messaging.rs.
--   Messaging/Schema         the tables, the errors and the structs.
--   Messaging/Conversations  create_conversation, find_or_create_dm, publish_typing and
--                            is_member.
--   Messaging/Sending        send_message, mark_read and message_history.
--   Messaging/Outbox         claim_outbox, mark_published, events_after and the rounds of
--                            outbox_worker, on the answers of the database in each round.
--   Messaging/Directory      list_conversations, and whom it shows.
--   Messaging/Commits        the requests and rounds as one step relation, the changes
--                            they make, and what every state keeps.
--   Messaging/Sample and Messaging/Tests hold a small database and the theorems on it.
--   Workspaces and messaging write to the same tables of conversations, participants and
--   events. Each has its own view of them (`Db`, `MsgDb`), with the columns that it uses:
--   the step relation of messaging has the calls of messaging.rs alone. Messaging/Commits/Outside
--   adds the writes of workspaces.rs to these tables, for what must last through them. Where a
--   statement has LIMIT 1 without an order, `MsgEnv` says which row it takes.
--
-- Accounts and sessions, for auth.rs, password.rs and session_management.rs of
-- apps/server/src.
--   Auth/Schema      the tables, the errors, and the calls of libraries, `Libraries`.
--   Auth/Accounts    create_user, user_id_by_handle, register_device and what they
--                    normalize.
--   Auth/Sessions    login, logout and authenticate.
--   Auth/Management  list (list_sessions here), require_live and revoke_owned.
--   Auth/Calls       the calls that write as one step relation.
--   Auth/Tokens      the one row of the session of a token, through all calls.
--   Auth/Logins      what a new token is good for.
--   Auth/Revocation  what a logout and a revocation leave behind.
--   Auth/Sample and Auth/Tests hold libraries that change nothing, and the theorems.
--   The gateway reads the rows of sessions that these calls write: Gateway/Revocation
--   composes a revocation with the turns of a connection.
--
-- Gateway, for apps/server/src/gateway.rs.
--   Gateway/Schema      the frames, and the state that is read (`World`).
--   Gateway/Visibility  session_live, event_visible and conversation_visible.
--   Gateway/Replay      Replay::start and Replay::next, and what a replay delivers.
--   Gateway/Identify    identify, on a list of what happens.
--   Gateway/Pump        connection and next_delivery: a turn is one arm of `select!` that
--                       completes, with the database and the socket as they then answer.
--   Gateway/Revocation  a connection whose session is revoked.
--   Gateway/Tests       the theorems on the small databases.
--
-- Statistics, for stats.rs and workspace_stats.rs of apps/server/src.
--   Stats/Schema     the tables of receipts, counters and rejected events, and the errors.
--   Stats/Counting   event_ids, record_message and process_event: the transaction that
--                    claims an event by its receipt and moves the two counters, whose
--                    failures are those of the schema.
--   Stats/Worker     handle_event, reject_event, fold_new_events and the rounds of
--                    stats_worker. `Weather` says how the database answers in a round:
--                    which queries and transactions fail, and when each one is.
--   Stats/Exact      the counters against the receipts, over the rounds of the worker, its
--                    single transactions and the deletions that cascade.
--   Stats/Reads      own_stats, conversation_stats, own_workspace_stats, own_channel_stats
--                    and their gate, authorized_read.
--   Stats/Tests      the theorems on a small outbox.
--   The parser of UUIDs is a parameter. Counters are `BIGINT`: the addition that leaves the
--   range fails. The worker reads the outbox that messaging writes, with the columns it uses.
--
-- Ledger, for apps/server/src/ledger.rs.
--   Ledger/Schema      accounts, transactions, postings and the errors.
--   Ledger/Accounts    ensure_wallet, ensure_treasury_tx, ensure_wallets_sorted_tx and
--                      the order of lock_accounts_tx.
--   Ledger/Postings    the statements and checks that transfer and mint share.
--   Ledger/Transfers   transfer and mint, with what they write, when they go through,
--                      retries, and the soundness of the books.
--   Ledger/Wallets     balance, history_before and the three routes.
--   Ledger/Calls       the calls as one step relation, and its invariant.
--   Ledger/Sample and Ledger/Tests hold small books and the theorems on them.
--
-- Envelopes, for crates/tericrypt/src/lib.rs.
--   Envelope           seal, open (`open_sealed` here), to_bytes, from_bytes and the keys,
--                      over a record `Primitives` of the calls of the cryptographic crates.
--   Envelope/Wire      the layout of the bytes.
--   Envelope/Delivery  what is sealed opens. What the crates document is assumed
--                      there by the records `Agrees` and `Sizes`.
--   Envelope/Tests     the theorems with toy primitives that satisfy both records.
--
-- Typing signals, for apps/server/src/typing.rs.
--   Typing             the bus with admit, publish and the drop of an admission.
--   Typing/Throttle    what an admission holds, and what it releases.
--   Typing/Tests       the theorems on a small bus.
--
-- HTTP errors, for apps/server/src/errors.rs.
--   Errors             AppError, its responses, and the maps from the errors of accounts,
--                      workspaces, messaging, the counters and the ledger.
--
-- The loops of the source over lists are recursion on the list, so no fuel is needed. The
-- unbounded loops, of the two workers and of a connection, are recursion on the list of what
-- happens in their rounds. The calls of Replay::next until it yields nothing are recursion
-- on fuel: as many calls as the outbox has rows and one more are enough. So is following the
-- cursors of pages, where as many pages as the table has rows and one more are enough.
-- Not modelled: the directory of bans, the configuration, recovery phrases, process start
-- and the extraction of HTTP requests. Sockets, timers and the reading of JSON
-- are outside. The client is another language.
pub mod Auth
pub mod Envelope
pub mod Errors
pub mod Gateway
pub mod Ledger
pub mod Messaging
pub mod Prelude
pub mod Stats
pub mod Table
pub mod Typing
pub mod Workspaces
