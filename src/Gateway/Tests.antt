-- ===== src/Gateway/Tests.antt =====
-- The theorems on the gateway at a small database: user 2 resumes, and one message was missed.
use teri_chat.Prelude.{◌≡◌, refl, true, false, none, some, [], ◌∷◌, ok, arith, length, map, suc}
use teri_chat.Table.{find, exists, count, select, update, order_by, insert_sorted}
use teri_chat.Workspaces.Access.{get_workspace, channel_by_conversation}
use teri_chat.Messaging.Conversations.{contains}
use teri_chat.Messaging.Outbox.{entry_of, events_after}
use teri_chat.Messaging.Sending.{event_of}
use teri_chat.Auth.Schema.{SessionRow, AuthDb}
use teri_chat.Auth.Management.{revoke_owned, require_live}
use teri_chat.Auth.Calls.{start, with_sessions}
use teri_chat.Auth.Sample.{toy}
use teri_chat.Gateway.Revocation.{run-revoke_owned, turn_after, none_left}
use teri_chat.Gateway.Schema.{ready, event, World, AuthSession}
use teri_chat.Gateway.Visibility.{session_live, event_visible, conversation_visible}
use teri_chat.Gateway.Replay.{newest, replay_from, next, fetch, absorb}
use teri_chat.Gateway.Replay.Pages.{UniqueIds, ahead, feed}
use teri_chat.Gateway.Replay.Catchup.{replay_all}
use teri_chat.Gateway.Replay.Complete.{replay_all_complete}
use teri_chat.Gateway.Pump.{
  Connection, delivery, tick, lagged, fresh_connection, run, turn, deliver, handle_event, emit,
  push_seen,
}
use teri_chat.Gateway.Pump.Safety.{Sends, turn-Sends}
use teri_chat.Gateway.Pump.Dedup.{Cached, run-Cached, event_ids}
use teri_chat.Gateway.Pump.Deliveries.{calm, deliveries, readable}
use teri_chat.Gateway.Pump.Resume.{run-resumes, fresh-Cached}
use teri_chat.Messaging.Sample.{sent, message_20, running}
use teri_chat.Workspaces.Sample.{sample}

abbrev session_2 : AuthSession
session_2 = record { user_id = 2; session_id = 70 }

abbrev row_70 : SessionRow
row_70 = record {
  id = 70;
  user_id = 2;
  device_id = none;
  token_hash = [];
  created_at = 0;
  expires_at = 1000;
  revoked_at = none;
}

abbrev world : World
world = record { tables = sample; messages = sent; sessions = row_70 ∷ []; now = 100 }

-- The same, after the session was revoked.
abbrev revoked : World
revoked = record {
  tables = sample;
  messages = sent;
  sessions = record row_70 { revoked_at = some 90 } ∷ [];
  now = 100;
}

unfoldable looking : Unit {0}
unfolding running find exists select count order_by insert_sorted contains session_live
    event_visible conversation_visible channel_by_conversation get_workspace newest next fetch
    absorb feed ahead events_after run turn deliver handle_event emit push_seen event_ids
looking = tt

live : session_live true session_2 world ≡ true
unfolding looking
live = refl

sent_unique : UniqueIds sent
unfolding looking
sent_unique i = ground arith

replay_all_complete_example :
    ((replay_all (suc (length sent.outbox)) 2 sent (replay_from none (newest sent.outbox))).0
      ≡ map entry_of (ahead 2 sent none))
    × ((replay_all (suc (length sent.outbox)) 2 sent (replay_from none (newest sent.outbox))).1.done
        ≡ true)
replay_all_complete_example = replay_all_complete 2 sent none sent_unique

one_ahead : length (lagged ∷ []) ≡ length (ahead 2 sent none)
unfolding looking
one_ahead = refl

missed : exists (λ e. readable world 2 20 (entry_of e)) (ahead 2 sent none) ≡ true
unfolding looking
missed = refl

run-resumes_example :
    (c : Connection) × (run
        (deliveries world (lagged ∷ []))
        (fresh_connection session_2 71 (replay_from none (newest sent.outbox)))
      ≡ some c)
    × (contains 20 (event_ids c.frames) ≡ true)
run-resumes_example =
    run-resumes session_2 71 none world (lagged ∷ []) 20 live sent_unique one_ahead missed

abbrev fresh : Connection
fresh = fresh_connection session_2 71 (replay_from none (some 20))

abbrev after_event : Connection
after_event = record {
  session = session_2;
  replay = record { cursor = some 20; ceiling = some 20; pending = []; done = false };
  seen = 20 ∷ [];
  typing_open = true;
  frames = event (entry_of (event_of 20 message_20)) ∷ ready 71 2 ∷ [];
}

delivered_run : turn (delivery lagged (calm world)) fresh ≡ some after_event
unfolding looking
delivered_run = refl

turn-Sends_example : Sends (calm world) fresh after_event
turn-Sends_example = turn-Sends (delivery lagged (calm world)) fresh after_event delivered_run

two_turns : run (delivery lagged (calm world) ∷ tick (calm world) ∷ []) fresh ≡ some after_event
unfolding looking
two_turns = refl

run-Cached_example : Cached after_event
run-Cached_example =
    run-Cached (delivery lagged (calm world) ∷ tick (calm world) ∷ []) fresh after_event two_turns
      (fresh-Cached session_2 71 (replay_from none (some 20)))

-- A full scan after the revocation: it meets the event that was sent before.
abbrev restarted : Connection
restarted = record after_event { replay = replay_from none (some 20) }

dead_run : run (delivery lagged (calm revoked) ∷ []) restarted ≡ some after_event
unfolding looking
dead_run = refl

abbrev accounts : AuthDb
accounts = record { accounts = []; devices = []; sessions = row_70 ∷ [] }

own_revocation : revoke_owned 90 2 70 70 accounts.sessions ≡ (ok tt, revoked.sessions)
unfolding looking revoke_owned require_live update
own_revocation = refl

run-revoke_owned_example : after_event.frames ≡ restarted.frames
run-revoke_owned_example =
    run-revoke_owned toy 90 2 70 accounts revoked.sessions (delivery lagged (calm revoked) ∷ [])
      restarted after_event own_revocation
      (turn_after (delivery lagged (calm revoked)) (with_sessions toy accounts revoked.sessions)
        start refl none_left)
      dead_run

-- A visibility query that fails with an error: the replay passes over the event, and the connection
-- stays open.
abbrev passed_over : Connection
passed_over = record fresh { replay = after_event.replay }

failing_query :
    turn (delivery lagged (record (calm world) { fails = true })) fresh ≡ some passed_over
unfolding looking
failing_query = refl
